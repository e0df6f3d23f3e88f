-- ===== src/Edges/Devig/Root.antt =====
-- The search for the exponent of Shin's method: the bracket is found or refused within ten rounds,
-- and bisection stays inside it.
use bookie_breaker_agent.Prelude.{
  ℕ, zero, suc, ◌≡◌, ◌≢◌, refl, false, inl, inr, Bool-cases, arith, ◌^◌, ap,
}
use Prim.Native.Nat
use bookie_breaker_agent.Float.Order.{le_of_not_lt, le_of_lt}
use bookie_breaker_agent.Float.{Float, IsFloat, ◌+◌, ◌/◌, ◌≤◌, ◌<?◌, whole}
use bookie_breaker_agent.Edges.Devig.{
  Bracket, found, failed, out_of_rounds, find_high, bisect, abs, max_rounds,
}

abbrev end_of {ℓ} : {F : Type ℓ} → F → Bracket F → F
end_of d (found x) = x
end_of d failed = d
end_of d out_of_rounds = d

failed-ne-found {ℓ} : {F : Type ℓ} (x : F) → failed ≢ found x
failed-ne-found x h = cc

found-ne-out_of_rounds {ℓ} : {F : Type ℓ} (x : F) → found x ≢ out_of_rounds
found-ne-out_of_rounds x h = cc

failed-ne-out_of_rounds {ℓ} : {F : Type ℓ} (b : Bracket F) → b ≡ failed → b ≢ out_of_rounds
failed-ne-out_of_rounds b h k = cc

arith_step :
    (n rounds : ℕ)
    → Nat.◌<◌ 1024 (Nat.◌*◌ n (2 ^ suc rounds))
    → Nat.◌<◌ 1024 (Nat.◌*◌ (Nat.◌*◌ n 2) (2 ^ rounds))
arith_step n rounds h = grind arith

found-injective {ℓ} : {F : Type ℓ} (x y : F) → found x ≡ found y → x ≡ y
found-injective x y h = ap (end_of x) h

module _ {ℓ} {F : Type ℓ} ⦃f : Float F⦄ where
  -- low and high enclose a root of the overround.
  abbrev pub IsBracket : (F → F) → F → F → Type 0
  IsBracket overround low high =
      (low ≤ high) × (whole 0 ≤ overround low) × (overround high ≤ whole 0)

  -- An interval that encloses a root and lies inside [low, high].
  abbrev pub IsInside : (F → F) → F → F → F × F → Type 0
  IsInside overround low high p = IsBracket overround (p.0) (p.1) × (low ≤ p.0) × (p.1 ≤ high)

module _ {ℓ} {F : Type ℓ} ⦃f : Float F⦄ (laws : IsFloat F) where
  open laws use {le_refl, le_trans, double, whole_lt, midpoint, decimal_mono}

  -- Doubling stops above 1024.
  doubled-le :
      (n : ℕ)
      → Nat.◌≤◌ n 1024
      → (f.decimal 1024 0 <? f.decimal (Nat.◌*◌ n 2) 0) ≡ false
      → Nat.◌≤◌ (Nat.◌*◌ n 2) 1024
  doubled-le n h e = ground (arith, whole_lt 1024 (Nat.◌*◌ n 2))

  -- A search that starts at n is over once n * 2 ^ rounds passes 1024.
  find_high-ne-out_of_rounds :
      (rounds n : ℕ) (overround : F → F)
      → Nat.◌<◌ 1024 (Nat.◌*◌ n (2 ^ rounds))
      → Nat.◌≤◌ n 1024
      → find_high rounds overround (f.decimal n 0) ≢ out_of_rounds
  unfolding find_high
  find_high-ne-out_of_rounds zero n overround h le = absurd (ground arith)
  find_high-ne-out_of_rounds (suc rounds) n overround h le =
      elim (Bool-cases (f.decimal 0 0 <? overround (f.decimal n 0))) [
        | inr e ↦ rw e (found-ne-out_of_rounds _)
        | inl e ↦ elim (Bool-cases (f.decimal 1024 0 <? f.decimal (Nat.◌*◌ n 2) 0)) [
          | inl g ↦ rw (e, double n (omega arith), g) (failed-ne-out_of_rounds failed refl)
          | inr g ↦
              rw (e, double n (omega arith), g)
                (find_high-ne-out_of_rounds rounds (Nat.◌*◌ n 2) overround (arith_step n rounds h)
                  (doubled-le n le g))
        ]
      ]

  -- The search for the upper end of the bracket ends within its ten rounds, whatever the
  -- overround: it finds an end or raises.
  pub find_high-max_rounds-ne-out_of_rounds :
      (overround : F → F) → find_high max_rounds overround (whole 2) ≢ out_of_rounds
  find_high-max_rounds-ne-out_of_rounds overround =
      find_high-ne-out_of_rounds max_rounds 2 overround (omega arith) (omega arith)

  -- What a search that starts at n finds is at least n, and the overround is not positive there.
  pub find_high-found :
      (rounds n : ℕ) (overround : F → F) (high : F)
      → Nat.◌≤◌ n 1024
      → find_high rounds overround (f.decimal n 0) ≡ found high
      → (f.decimal n 0 ≤ high) × (overround high ≤ whole 0)
  unfolding find_high
  find_high-found zero n overround high le e = cc
  find_high-found (suc rounds) n overround high le e =
      elim (Bool-cases (f.decimal 0 0 <? overround (f.decimal n 0))) [
        | inr g ↦
            let same : f.decimal n 0 ≡ high = found-injective _ _ (rw g at e) in
            rw (← same) (le_refl (f.decimal n 0), le_of_not_lt laws _ _ g)
        | inl g ↦ elim (Bool-cases (f.decimal 1024 0 <? f.decimal (Nat.◌*◌ n 2) 0)) [
          | inl k ↦ absurd (failed-ne-found _ (rw (g, double n (omega arith), k) at e))
          | inr k ↦
              let (larger, root) =
                find_high-found rounds (Nat.◌*◌ n 2) overround high (doubled-le n le k)
                  (rw (g, double n (omega arith), k) at e) in
              (
                le_trans _ (f.decimal (Nat.◌*◌ n 2) 0) high
                    (decimal_mono n 0 (Nat.◌*◌ n 2) 0 (omega arith)) larger,
                root,
              )
        ]
      ]

  IsInside-upper :
      (overround : F → F) (low mid high : F) (p : F × F)
      → low ≤ mid
      → IsInside overround mid high p
      → IsInside overround low high p
  IsInside-upper overround low mid high p h (b, l, r) = (b, le_trans low mid (p.0) h l, r)

  IsInside-lower :
      (overround : F → F) (low mid high : F) (p : F × F)
      → mid ≤ high
      → IsInside overround low mid p
      → IsInside overround low high p
  IsInside-lower overround low mid high p h (b, l, r) = (b, l, le_trans (p.1) mid high r h)

  -- However many rounds it runs, and at whatever tolerance, the bisection of Shin's method
  -- returns an interval inside the one it was given, in order and with a root of the overround
  -- still enclosed.
  pub bisect-IsInside :
      (rounds : ℕ) (overround : F → F) (tolerance low high : F)
      → IsBracket overround low high
      → IsInside overround low high (bisect rounds overround tolerance low high)
  unfolding bisect
  bisect-IsInside zero overround tolerance low high b = (b, le_refl low, le_refl high)
  bisect-IsInside (suc rounds) overround tolerance low high (h, hl, hr) =
      let mid = (low + high) / whole 2 in
      let (left, right) = midpoint low high h in
      elim (Bool-cases (abs (overround mid) <? tolerance)) [
        | inl e ↦ rw e ((h, hl, hr), le_refl low, le_refl high)
        | inr e ↦ elim (Bool-cases (whole 0 <? overround mid)) [
          | inl g ↦
              rw (e, g)
                (IsInside-upper overround low mid high _ left (
                  bisect-IsInside rounds overround tolerance mid high
                    (right, le_of_lt laws _ _ g, hr)))
          | inr g ↦
              rw (e, g)
                (IsInside-lower overround low mid high _ right (
                  bisect-IsInside rounds overround tolerance low mid
                    (left, hl, le_of_not_lt laws _ _ g)))
        ]
      ]

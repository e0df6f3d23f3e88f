-- ===== src/Edges/Kelly/Bounds.antt =====
-- Bet sizes: never negative, never above the cap, and growing with the probability.
use bookie_breaker_agent.Prelude.{◌≡◌, sym, ◌∙◌, inl, inr, ok, ok-injective, >>=-eq-ok, Bool-cases}
use bookie_breaker_agent.Prelude.Int.{ℤ}
use bookie_breaker_agent.Float.{Float, IsFloat, ◌-◌, ◌*◌, ◌≤◌, ◌<◌, ◌≤?◌, whole, check_divisor}
use bookie_breaker_agent.Float.Order.{
  le_of_not_le, min-le_right, le-min, mul_nonneg, min_mono, mul_mono_right, le_of_lt, not-le_mono,
  not_le_of_lt,
}
use bookie_breaker_agent.Edges.Odds.{american_to_decimal}
use bookie_breaker_agent.Edges.Kelly.{capped, full_kelly, kelly_fraction, correlated_kelly}

module _ {ℓ} {F : Type ℓ} ⦃f : Float F⦄ (laws : IsFloat F) where
  open laws use {le_refl, le_trans, mul_mono, sub_mono, div_mono}

  -- The clamp that both sizing functions share.
  pub capped_bounds :
      (k m c : F) → whole 0 ≤ m → whole 0 ≤ c → (whole 0 ≤ capped k m c) × (capped k m c ≤ c)
  unfolding capped
  capped_bounds k m c hm hc = elim (Bool-cases (k ≤? whole 0)) [
    | inl e ↦ rw e (le_refl (whole 0), hc)
    | inr e ↦ rw e (
      le-min laws (k * m) c (whole 0) (mul_nonneg laws k m (le_of_not_le laws k (whole 0) e) hm) hc,
      min-le_right laws (k * m) c,
    )
  ]

  pub capped_mono : (k l m c : F) → whole 0 ≤ m → whole 0 ≤ c → k ≤ l → capped k m c ≤ capped l m c
  unfolding capped
  capped_mono k l m c hm hc h = elim (Bool-cases (k ≤? whole 0)) [
    | inl e ↦ rw e (capped_bounds l m c hm hc).0
    | inr e ↦
        rw (e, not-le_mono laws k l (whole 0) e h)
          (min_mono laws (k * m) (l * m) c c (mul_mono k l m hm h) (le_refl c))
  ]

  -- At net odds b > 0 the full Kelly fraction grows with the probability.
  full_kelly_mono : (b p q : F) → whole 0 < b → p ≤ q → full_kelly b p ≤ full_kelly b q
  unfolding full_kelly
  full_kelly_mono b p q hb h = div_mono (b * p - (whole 1 - p)) (b * q - (whole 1 - q)) b hb (
      sub_mono (b * p) (b * q) (whole 1 - p) (whole 1 - q)
        (mul_mono_right laws p q b (le_of_lt laws (whole 0) b hb) h)
        (sub_mono (whole 1) (whole 1) q p (le_refl (whole 1)) h))

  -- A single bet size is at least 0 and at most the per-bet cap, at any odds that convert, for a
  -- multiplier and a cap that are not negative.
  pub kelly_fraction_bounds :
      (p : F) (odds : ℤ) (m c k : F)
      → whole 0 ≤ m
      → whole 0 ≤ c
      → kelly_fraction p odds m c ≡ ok k
      → (whole 0 ≤ k) × (k ≤ c)
  unfolding kelly_fraction
  kelly_fraction_bounds p odds m c k hm hc e =
      let (d, ed, e₁) = >>=-eq-ok (american_to_decimal odds) _ e in
      let (_, _, e') = >>=-eq-ok (check_divisor (d - whole 1)) _ e₁ in
      rw (← ok-injective _ k e') (capped_bounds (full_kelly (d - whole 1) p) m c hm hc)

  -- At odds that pay more than the stake, a higher probability never lowers the bet size, for a
  -- multiplier and a cap that are not negative.
  pub kelly_fraction_mono :
      (p q : F) (odds : ℤ) (m c k l d : F)
      → whole 0 ≤ m
      → whole 0 ≤ c
      → american_to_decimal odds ≡ ok d
      → whole 0 < d - whole 1
      → p ≤ q
      → kelly_fraction p odds m c ≡ ok k
      → kelly_fraction q odds m c ≡ ok l
      → k ≤ l
  unfolding kelly_fraction
  kelly_fraction_mono p q odds m c k l d hm hc ed hd h ek el =
      let (x, ex, ek') = >>=-eq-ok (american_to_decimal odds) _ ek in
      let (_, _, ek'') = >>=-eq-ok (check_divisor (x - whole 1)) _ ek' in
      let (y, ey, el') = >>=-eq-ok (american_to_decimal odds) _ el in
      let (_, _, el'') = >>=-eq-ok (check_divisor (y - whole 1)) _ el' in
      let xd : x ≡ d = ok-injective x d (sym ex ∙ ed) in
      let yd : y ≡ d = ok-injective y d (sym ey ∙ ed) in
      rw (← ok-injective _ k ek'', ← ok-injective _ l el'', xd, yd)
        (capped_mono (full_kelly (d - whole 1) p) (full_kelly (d - whole 1) q) m c hm hc
          (full_kelly_mono (d - whole 1) p q hd h))

  -- At decimal odds that a single price has, and that pay more than the stake, a parlay is sized
  -- as the single bet is.
  pub kelly_fraction-eq-correlated_kelly :
      (p d m c : F) (odds : ℤ)
      → american_to_decimal odds ≡ ok d
      → whole 0 < d - whole 1
      → kelly_fraction p odds m c ≡ ok (correlated_kelly p d m c)
  unfolding correlated_kelly kelly_fraction
  kelly_fraction-eq-correlated_kelly p d m c odds ed hd =
      rw (ed, not_le_of_lt laws (whole 0) (d - whole 1) hd)

  -- A parlay's size is at least 0 and at most the cap, whatever the decimal odds, for a
  -- multiplier and a cap that are not negative.
  pub correlated_kelly_bounds :
      (p d m c : F)
      → whole 0 ≤ m
      → whole 0 ≤ c
      → (whole 0 ≤ correlated_kelly p d m c) × (correlated_kelly p d m c ≤ c)
  unfolding correlated_kelly
  correlated_kelly_bounds p d m c hm hc = elim (Bool-cases (d - whole 1 ≤? whole 0)) [
    | inl e ↦ rw e (le_refl (whole 0), hc)
    | inr e ↦ rw e (capped_bounds (full_kelly (d - whole 1) p) m c hm hc)
  ]

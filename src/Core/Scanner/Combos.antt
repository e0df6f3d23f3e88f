-- ===== src/Core/Scanner/Combos.antt =====
-- The combinations that are evaluated, and how many.
use bookie_breaker_agent.Prelude.{
  ℕ, zero, suc, List, [], ◌∷◌, ◌++◌, map, length, any, ◌≡◌, refl, ap, false, inl, inr, ◌⊎◌, ◌≤◌,
  All, leb, ltb, ◌||◌, Bool-cases, arith,
}
use bookie_breaker_agent.Float.{Float}
use bookie_breaker_agent.Core.Detector.Candidates.{EdgeCandidate}
use bookie_breaker_agent.Core.Scanner.{
  max_combinations, max_prop_legs_per_combo, combinations, prop_legs, repeats, same_identity,
  same_combo_key, keep_combos, enumerate_combinations,
}

module _ {ℓ κ} {A : Type ℓ} (P : A → Type κ) where
  All-++ : (xs ys : List A) → All P xs → All P ys → All P (xs ++ ys)
  All-++ [] ys h hs = hs
  All-++ (x ∷ xs) ys (h, rest) hs = (h, All-++ xs ys rest hs)

  All-of : ((x : A) → P x) → (xs : List A) → All P xs
  All-of h [] = tt
  All-of h (x ∷ xs) = (h x, All-of h xs)

length-++_one {ℓ} : {A : Type ℓ} (xs : List A) (x : A) → length (xs ++ (x ∷ [])) ≡ suc (length xs)
length-++_one [] x = refl
length-++_one (y ∷ xs) x = ap suc (length-++_one xs x)

module _ {ℓ} {A : Type ℓ} where
  cons-length :
      (n : ℕ) (x : A) (cs : List (List A))
      → All (λ c. length c ≡ n) cs
      → All (λ c. length c ≡ suc n) (map (λ c. x ∷ c) cs)
  cons-length n x [] h = tt
  cons-length n x (c ∷ cs) (h, hs) = (ap suc h, cons-length n x cs hs)

  -- A combination has as many elements as were asked for.
  length-combinations : (n : ℕ) (xs : List A) → All (λ c. length c ≡ n) (combinations n xs)
  unfolding combinations
  length-combinations zero xs = (refl, tt)
  length-combinations (suc n) [] = tt
  length-combinations (suc n) (x ∷ xs) =
      All-++ (λ c. length c ≡ suc n) (map (λ c. x ∷ c) (combinations n xs))
        (combinations (suc n) xs) (cons-length n x (combinations n xs) (length-combinations n xs))
        (length-combinations (suc n) xs)

module _ {ℓ} {F : Type ℓ} where
  -- The legs differ in market, player or statistic.
  abbrev pub LegsDiffer : List (EdgeCandidate F) → Type 0
  LegsDiffer [] = Unit
  LegsDiffer (edge ∷ edges) = (any (same_combo_key edge) edges ≡ false) × LegsDiffer edges

  -- A combination that is evaluated.
  pub record IsCombo (combo : List (EdgeCandidate F)) : Type 0 where
    pub two_or_three : (length combo ≡ 2) ⊎ (length combo ≡ 3)
    pub legs_differ : LegsDiffer combo
    pub few_props : prop_legs combo ≤ max_prop_legs_per_combo

  repeats-LegsDiffer : (combo : List (EdgeCandidate F)) → repeats combo ≡ false → LegsDiffer combo
  unfolding repeats
  repeats-LegsDiffer [] h = tt
  repeats-LegsDiffer (edge ∷ edges) h = (ground arith, repeats-LegsDiffer edges (ground arith))

  module _ ⦃f : Float F⦄ where
    abbrev IsKept : List (List (EdgeCandidate F)) → Type 0
    IsKept combos = All IsCombo combos × (length combos ≤ max_combinations)

    keep_combos-IsKept :
        (cs combos : List (List (EdgeCandidate F)))
        → All (λ c. (length c ≡ 2) ⊎ (length c ≡ 3)) cs
        → IsKept combos
        → IsKept (keep_combos cs combos)
    unfolding keep_combos
    keep_combos-IsKept [] combos h k = k
    keep_combos-IsKept (c ∷ cs) combos (h, hs) (all, few) =
        elim (Bool-cases (leb max_combinations (length combos))) [
          | inl e ↦ rw e (all, few)
          | inr e ↦
              elim (Bool-cases (
                repeats c
                || (ltb max_prop_legs_per_combo (prop_legs c) || any (same_identity c) combos))) [
                  | inl g ↦ rw (e, g) (keep_combos-IsKept cs combos hs (all, few))
                  | inr g ↦
                      let combo : IsCombo c = record {
                        two_or_three = h;
                        legs_differ = repeats-LegsDiffer c (ground arith);
                        few_props = ground arith;
                      } in
                      let size = length-++_one combos c in
                      rw (e, g)
                        (keep_combos-IsKept cs (combos ++ (c ∷ [])) hs
                          (All-++ IsCombo combos (c ∷ []) all (combo, tt), ground arith))
                ]
        ]

    sizes :
        (n : ℕ) (cs : List (List (EdgeCandidate F)))
        → (n ≡ 2) ⊎ (n ≡ 3)
        → All (λ c. length c ≡ n) cs
        → All (λ c. (length c ≡ 2) ⊎ (length c ≡ 3)) cs
    sizes n [] s h = tt
    sizes n (c ∷ cs) s (h, hs) = (rw h s, sizes n cs s hs)

    -- At most twenty combinations are evaluated, of two or three legs each, which differ in
    -- market, player or statistic, with at most two props.
    pub enumerate_combinations-IsKept :
        (candidates : List (EdgeCandidate F))
        → All IsCombo (enumerate_combinations candidates)
          × (length (enumerate_combinations candidates) ≤ max_combinations)
    unfolding enumerate_combinations
    enumerate_combinations-IsKept candidates =
        keep_combos-IsKept (combinations 3 candidates) _
          (sizes 3 _ (inr refl) (length-combinations 3 candidates))
          (keep_combos-IsKept (combinations 2 candidates) []
            (sizes 2 _ (inl refl) (length-combinations 2 candidates)) (tt, omega arith))

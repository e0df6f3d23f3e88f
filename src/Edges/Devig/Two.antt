-- ===== src/Edges/Devig/Two.antt =====
-- The two-way and the N-way functions are one: at two outcomes every method gives the same pair.
use bookie_breaker_agent.Prelude.{
  ◌≡◌, refl, ap, ◌∙◌, List, [], ◌∷◌, map, Result, ok, raise, ◌>>=◌, arith, Bool-cases, inl, inr,
}
use bookie_breaker_agent.Float.{Float, IsFloat, IsPower, ◌+◌, ◌-◌, ◌<◌, ◌<?◌, whole, sum}
use bookie_breaker_agent.Edges.Devig.{
  DevigMethod, multiplicative, additive, shin, in_unit, validate, validate_many,
  multiplicative_devig, additive_devig, shin_devig, multiplicative_devig_n, additive_devig_n,
  shin_devig_n, devig, devig_many, find_high, solve, max_rounds,
}

module _ {ℓ} {F : Type ℓ} ⦃f : Float F⦄ where
  -- The pair as the list that the N-way function returns.
  abbrev pub as_list : F × F → Result (List F)
  as_list (x, y) = ok (x ∷ y ∷ [])

  module _ (laws : IsFloat F) (powers : IsPower F) where
    open laws use {zero_add}
    open powers use {zero_add-power}

    -- Two functions that agree on what passes the validation agree, errors included.
    two_way :
        (a b : F) (many : Result (List F)) (pair : Result (F × F))
        → (whole 0 < a → whole 0 < b → many ≡ (pair >>= as_list))
        → (validate_many (a ∷ b ∷ []) >>= λ _. many) ≡ ((validate a b >>= λ _. pair) >>= as_list)
    unfolding validate validate_many
    two_way a b many pair agree = elim (Bool-cases (in_unit a)) [
      | inr e ↦ rw e refl
      | inl e ↦
          let positive : whole 0 < a = ground arith in
          elim (Bool-cases (in_unit b)) [
            | inr g ↦ rw (e, g) refl
            | inl g ↦ elim (Bool-cases (a + b <? whole 1)) [
              | inl c ↦ rw (e, g, zero_add a positive, c) refl
              | inr c ↦ rw (e, g, zero_add a positive, c) (agree positive (ground arith))
            ]
          ]
    ]

    both_powers :
        (a b : F) (m : Result F)
        → (m >>= λ z. ok (map (λ p. f.power p z) (a ∷ b ∷ [])))
          ≡ ((m >>= λ z. ok (f.power a z, f.power b z)) >>= as_list)
    both_powers a b (ok z) = refl
    both_powers a b (raise e) = refl

    overround_two :
        (a b : F)
        → whole 0 < a
        → ◌≡◌ {A = F → F}
            (λ z. sum (map (λ p. f.power p z) (a ∷ b ∷ [])) - whole 1)
            (λ z. f.power a z + f.power b z - whole 1)
    overround_two a b h i z = zero_add-power a z h i + f.power b z - whole 1

    -- The N-way de-vigging of two outcomes is the two-way de-vigging, for every method, errors
    -- included.
    pub devig_many-eq-devig :
        (method : DevigMethod) (a b : F)
        → devig_many method (a ∷ b ∷ []) ≡ (devig method a b >>= as_list)
    unfolding devig_many devig multiplicative_devig multiplicative_devig_n additive_devig
        additive_devig_n shin_devig shin_devig_n
    devig_many-eq-devig multiplicative a b = two_way a b _ _ (λ h _. rw (zero_add a h) refl)
    devig_many-eq-devig additive a b = two_way a b _ _ (λ h _. rw (zero_add a h) refl)
    devig_many-eq-devig shin a b = two_way a b _ _ (λ h _.
        ap
          (λ g. solve g (find_high max_rounds g (whole 2)) >>= λ z.
            ok (map (λ p. f.power p z) (a ∷ b ∷ [])))
          (overround_two a b h)
        ∙ both_powers a b _)

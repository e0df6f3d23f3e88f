-- ===== src/Core/Detector/Markets/Total.antt =====
-- De-vigging a group never raises: odds that are 0 do not enter a group, and the ValueError of a
-- method is caught.
use bookie_breaker_agent.Prelude.{
  suc, String, List, [], ◌∷◌, map, length, ◌≡◌, refl, sym, ◌∙◌, ap, true, false, inl, inr, ◌⊎◌,
  Option, none, some, Bool, Result, ok, raise, value_error, ok-injective, >>=-eq-ok, ◌>>=◌,
  reject_if, All, all, not, ◌&&◌, ltb, zero, arith,
}
use mathlib.Core.Path.{subst}
use bookie_breaker_agent.Prelude.Int.{ℤ, pos, negsuc}
use bookie_breaker_agent.Float.{Float, ◌+◌, ◌-◌, ◌<?◌, whole, sum}
use bookie_breaker_agent.Clients.Payloads.{LineSnapshot}
use bookie_breaker_agent.Edges.Odds.{american_to_implied_prob}
use bookie_breaker_agent.Edges.Devig.{
  DevigMethod, multiplicative, additive, shin, devig, devig_many, in_unit, out_of_unit, no_vig,
  validate, validate_many, multiplicative_devig, additive_devig, shin_devig, multiplicative_devig_n,
  additive_devig_n, shin_devig_n, solve, Bracket, found, failed, out_of_rounds, find_high,
  max_rounds,
}
use bookie_breaker_agent.Core.Detector.Markets.{
  is_zero, map_result, none_on_value_error, zip_strict, true_probs, devig_group,
}

-- The step may raise a ValueError, and nothing else.
pub data OnlyValueError {ℓ} {A : Type ℓ} : Result A → Type ℓ where
  returned : (a : A) → OnlyValueError (ok a)
  value_error_only : (m : String) → OnlyValueError (raise (value_error m))

>>=-OnlyValueError {ℓ κ} :
    {A : Type ℓ} {B : Type κ} {step : Result A} {next : A → Result B}
    → OnlyValueError step
    → ((a : A) → OnlyValueError (next a))
    → OnlyValueError (step >>= next)
>>=-OnlyValueError (returned a) hs = hs a
>>=-OnlyValueError (value_error_only m) hs = value_error_only m

reject_if-OnlyValueError : (t : Bool) (m : String) → OnlyValueError (reject_if t m)
reject_if-OnlyValueError true m = value_error_only m
reject_if-OnlyValueError false m = returned tt

caught {ℓ} :
    {A : Type ℓ} (step : Result A)
    → OnlyValueError step
    → (none_on_value_error step ≡ ok none)
      ⊎ ((a : A) × (step ≡ ok a) × (none_on_value_error step ≡ ok (some a)))
caught step (returned a) = inr (a, refl, refl)
caught step (value_error_only m) = inl refl

length-map {ℓ κ} :
    {A : Type ℓ} {B : Type κ} (g : A → B) (xs : List A) → length (map g xs) ≡ length xs
length-map g [] = refl
length-map g (x ∷ xs) = ap suc (length-map g xs)

module _ {ℓ} {F : Type ℓ} ⦃f : Float F⦄ where
  solve-OnlyValueError : (overround : F → F) (b : Bracket F) → OnlyValueError (solve overround b)
  solve-OnlyValueError overround (found high) = returned _
  solve-OnlyValueError overround failed = value_error_only _
  solve-OnlyValueError overround out_of_rounds = value_error_only _

  validate-OnlyValueError : (a b : F) → OnlyValueError (validate a b)
  unfolding validate
  validate-OnlyValueError a b =
      >>=-OnlyValueError (reject_if-OnlyValueError (not (in_unit a && in_unit b)) out_of_unit)
        (λ u. reject_if-OnlyValueError (a + b <? whole 1) no_vig)

  validate_many-OnlyValueError : (ps : List F) → OnlyValueError (validate_many ps)
  unfolding validate_many
  validate_many-OnlyValueError ps =
      >>=-OnlyValueError
        (reject_if-OnlyValueError (ltb (length ps) 2) "De-vigging requires at least two outcomes")
        (λ u.
          >>=-OnlyValueError (reject_if-OnlyValueError (not (all in_unit ps)) out_of_unit)
            (λ v. reject_if-OnlyValueError (sum ps <? whole 1) no_vig))

  devig-OnlyValueError : (method : DevigMethod) (a b : F) → OnlyValueError (devig method a b)
  unfolding devig multiplicative_devig additive_devig shin_devig
  devig-OnlyValueError multiplicative a b =
      >>=-OnlyValueError (validate-OnlyValueError a b) (λ u. returned _)
  devig-OnlyValueError additive a b =
      >>=-OnlyValueError (validate-OnlyValueError a b) (λ u. returned _)
  devig-OnlyValueError shin a b = >>=-OnlyValueError (validate-OnlyValueError a b) (λ u.
      >>=-OnlyValueError (solve-OnlyValueError (λ (z : F). f.power a z + f.power b z - whole 1) _)
        (λ z. returned (f.power a z, f.power b z)))

  devig_many-OnlyValueError :
      (method : DevigMethod) (ps : List F) → OnlyValueError (devig_many method ps)
  unfolding devig_many multiplicative_devig_n additive_devig_n shin_devig_n
  devig_many-OnlyValueError multiplicative ps =
      >>=-OnlyValueError (validate_many-OnlyValueError ps) (λ u. returned _)
  devig_many-OnlyValueError additive ps =
      >>=-OnlyValueError (validate_many-OnlyValueError ps) (λ u. returned _)
  devig_many-OnlyValueError shin ps = >>=-OnlyValueError (validate_many-OnlyValueError ps) (λ u.
      >>=-OnlyValueError
        (solve-OnlyValueError (λ (z : F). sum (map (λ p. f.power p z) ps) - whole 1) _)
        (λ z. returned (map (λ p. f.power p z) ps)))

  -- As many fair probabilities as prices.
  length-devig_many :
      (method : DevigMethod) (ps qs : List F) → devig_many method ps ≡ ok qs → length qs ≡ length ps
  unfolding devig_many multiplicative_devig_n additive_devig_n shin_devig_n
  length-devig_many multiplicative ps qs h =
      let (_, _, h₁) = >>=-eq-ok (validate_many ps) _ h in
      subst (λ zs. length zs ≡ length ps) (ok-injective _ qs h₁) (length-map _ ps)
  length-devig_many additive ps qs h =
      let (_, _, h₁) = >>=-eq-ok (validate_many ps) _ h in
      subst (λ zs. length zs ≡ length ps) (ok-injective _ qs h₁) (length-map _ ps)
  length-devig_many shin ps qs h =
      let (_, _, h₁) = >>=-eq-ok (validate_many ps) _ h in
      let overround = λ (z : F). sum (map (λ p. f.power p z) ps) - whole 1 in
      let (z, _, h₂) =
        >>=-eq-ok (solve overround (find_high max_rounds overround (whole 2)))
          (λ (z : F). ok (map (λ p. f.power p z) ps)) h₁ in
      subst (λ zs. length zs ≡ length ps) (ok-injective (map (λ p. f.power p z) ps) qs h₂)
        (length-map (λ p. f.power p z) ps)

  true_probs-OnlyValueError :
      (method : DevigMethod) (raws : List F) → OnlyValueError (true_probs method raws)
  true_probs-OnlyValueError method (a ∷ b ∷ []) =
      >>=-OnlyValueError (devig-OnlyValueError method a b) (λ pq. returned _)
  true_probs-OnlyValueError method [] = devig_many-OnlyValueError method []
  true_probs-OnlyValueError method (a ∷ []) = devig_many-OnlyValueError method (a ∷ [])
  true_probs-OnlyValueError method (a ∷ b ∷ c ∷ ps) =
      devig_many-OnlyValueError method (a ∷ b ∷ c ∷ ps)

  length-true_probs :
      (method : DevigMethod) (raws qs : List F)
      → true_probs method raws ≡ ok qs
      → length qs ≡ length raws
  length-true_probs method (a ∷ b ∷ []) qs h =
      let (_, _, h₁) = >>=-eq-ok (devig method a b) _ h in sym (ap length (ok-injective _ qs h₁))
  length-true_probs method [] qs h = length-devig_many method [] qs h
  length-true_probs method (a ∷ []) qs h = length-devig_many method (a ∷ []) qs h
  length-true_probs method (a ∷ b ∷ c ∷ ps) qs h = length-devig_many method (a ∷ b ∷ c ∷ ps) qs h

  pub american_to_implied_prob-ok :
      (odds : ℤ) → is_zero odds ≡ false → (p : F) × (american_to_implied_prob odds ≡ ok p)
  unfolding american_to_implied_prob
  american_to_implied_prob-ok (pos zero) h = cc
  american_to_implied_prob-ok (pos (suc n)) h = (_, refl)
  american_to_implied_prob-ok (negsuc n) h = (_, refl)

module _ {ℓ} {F : Type ℓ} where
  abbrev pub IsQuoted : LineSnapshot F → Type 0
  IsQuoted line = is_zero line.odds_american ≡ false

  -- `strict=True` does not raise on lists of one length, and keeps the lines.
  zip_strict_total {κ} :
      (P : LineSnapshot F → Type κ) (lines : List (LineSnapshot F)) (ps : List F)
      → length ps ≡ length lines
      → All P lines
      → (z : List (LineSnapshot F × F)) × (zip_strict lines ps ≡ ok z) × All (λ e. P (e.0)) z
  zip_strict_total P [] [] h hs = ([], refl, tt)
  zip_strict_total P (line ∷ lines) (p ∷ ps) h (l, ls) =
      let (z, e, zs) = zip_strict_total P lines ps (omega arith) ls in
      ((line, p) ∷ z, rw e refl, (l, zs))
  zip_strict_total P [] (p ∷ ps) h hs = absurd (omega arith)
  zip_strict_total P (line ∷ lines) [] h hs = absurd (omega arith)

  module _ ⦃f : Float F⦄ where
    raws_total :
        (lines : List (LineSnapshot F))
        → All IsQuoted lines
        → (raws : List F) × (map_result
              (λ (line : LineSnapshot F). american_to_implied_prob line.odds_american)
              lines
            ≡ ok raws)
          × (length raws ≡ length lines)
    raws_total [] h = ([], refl, refl)
    raws_total (line ∷ lines) (h, hs) =
        let (p, e) = american_to_implied_prob-ok line.odds_american h in
        let (raws, es, n) = raws_total lines hs in (p ∷ raws, rw (e, es) refl, ap suc n)

    -- What is priced is the lines.
    abbrev pub PricedAll {κ} :
        (LineSnapshot F → Type κ) → Option (List (LineSnapshot F × F)) → Type κ
    PricedAll P none = Unit
    PricedAll P (some z) = All (λ e. P (e.0)) z

    pub devig_group_total :
        (method : DevigMethod) (lines : List (LineSnapshot F))
        → All IsQuoted lines
        → (priced : Option (List (LineSnapshot F × F))) × (devig_group method lines ≡ ok priced)
          × PricedAll IsQuoted priced
    unfolding devig_group
    devig_group_total method lines h =
        let (raws, e, n) = raws_total lines h in
        elim (caught (true_probs method raws) (true_probs-OnlyValueError method raws)) [
          | inl t ↦ (none, rw (e, t) refl, tt)
          | inr (ps, t, c) ↦
              let (z, ez, zs) =
                zip_strict_total IsQuoted lines ps (length-true_probs method raws ps t ∙ n) h in
              (some z, rw (e, c, ez) refl, zs)
        ]

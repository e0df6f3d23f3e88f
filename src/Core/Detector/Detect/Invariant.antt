-- ===== src/Core/Detector/Detect/Invariant.antt =====
-- What every step of `detect` keeps holds of the candidates that it returns.
use bookie_breaker_agent.Prelude.{
  String, List, [], ◌∷◌, ◌≡◌, inl, inr, Option, none, some, ok, ok-injective, >>=-eq-ok, Bool-cases,
  put, All,
}
use mathlib.Core.Path.{subst}
use bookie_breaker_agent.Float.{Float, ◌<?◌}
use bookie_breaker_agent.Float.Time.{DateTime}
use bookie_breaker_agent.Edges.Odds.{american_to_decimal}
use bookie_breaker_agent.Core.Detector.Markets.{Sides}
use bookie_breaker_agent.Core.Detector.Matching.{Maps}
use bookie_breaker_agent.Core.Detector.Candidates.{EdgeCandidate, Detector, Context}
use bookie_breaker_agent.Core.Detector.Detect.{
  Best, Priced, values, same_key, candidate_key, price_group, replace_if_better, keep_best, offer,
  add_lines, add_priced, add_groups,
}

module _ {ℓ} {F : Type ℓ} ⦃f : Float F⦄ where
  -- A candidate is kept or assigned: what assignments keep, the step keeps.
  replace_if_better-keeps {κ} :
      (I : Best F → Type κ) (c : EdgeCandidate F) (old : Option (EdgeCandidate F))
      (best kept : Best F)
      → I (put same_key (candidate_key c) c best)
      → I best
      → replace_if_better c old best ≡ ok kept
      → I kept
  replace_if_better-keeps I c none best kept h hs e = subst I (ok-injective _ kept e) h
  replace_if_better-keeps I c (some old) best kept h hs e =
      let (pays, _, e₁) = >>=-eq-ok (american_to_decimal {F = F} c.odds_american) _ e in
      let (paid, _, e₂) = >>=-eq-ok (american_to_decimal {F = F} old.odds_american) _ e₁ in
      elim (Bool-cases (paid <? pays)) [
        | inl t ↦ subst I (ok-injective _ kept (rw t at e₂)) h
        | inr t ↦ subst I (ok-injective best kept (rw t at e₂)) hs
      ]

  module _ (normalize : String → String) (parse_datetime : String → Option DateTime)
      (uuid_of : String → Option String) (detector : Detector F) (ctx : Context)
      (maps : Maps F) where
    -- An invariant of the candidates: the assignment of one that a line makes keeps it. What is
    -- known of the groups, and of the lines of a group with their fair probabilities, is at hand.
    module _ {κ μ ν} (I : Best F → Type κ) (G : Sides F → Type μ) (Q : Sides F → Priced F → Type ν)
        (sourced : (group : Sides F) (all : List (Priced F))
          → price_group detector (values group) ≡ ok (some all)
          → All (Q group) all)
        (assigned : (group : Sides F) (priced : Priced F) (c : EdgeCandidate F) (best : Best F)
          → G group
          → Q group priced
          → offer normalize parse_datetime uuid_of detector ctx maps group priced ≡ ok (some c)
          → I best
          → I (put same_key (candidate_key c) c best)) where
      keep_best-keeps :
          (group : Sides F) (priced : Priced F) (offered : Option (EdgeCandidate F))
          (best kept : Best F)
          → G group
          → Q group priced
          → offer normalize parse_datetime uuid_of detector ctx maps group priced ≡ ok offered
          → I best
          → keep_best offered best ≡ ok kept
          → I kept
      unfolding keep_best
      keep_best-keeps group priced none best kept g q o hs e = subst I (ok-injective best kept e) hs
      keep_best-keeps group priced (some c) best kept g q o hs e =
          replace_if_better-keeps I c _ best kept (assigned group priced c best g q o hs) hs e

      add_lines-keeps :
          (group : Sides F) (lines : List (Priced F)) (best kept : Best F)
          → G group
          → All (Q group) lines
          → I best
          → add_lines normalize parse_datetime uuid_of detector ctx maps group lines best ≡ ok kept
          → I kept
      unfolding add_lines
      add_lines-keeps group [] best kept g q hs e = subst I (ok-injective best kept e) hs
      add_lines-keeps group (priced ∷ lines) best kept g (q, qs) hs e =
          let (c, o, e₁) =
            >>=-eq-ok (offer normalize parse_datetime uuid_of detector ctx maps group priced) _ e in
          let (mid, k, e₂) = >>=-eq-ok (keep_best c best) _ e₁ in
          add_lines-keeps group lines mid kept g qs
            (keep_best-keeps group priced c best mid g q o hs k) e₂

      add_priced-keeps :
          (group : Sides F) (devigged : Option (List (Priced F))) (best kept : Best F)
          → G group
          → price_group detector (values group) ≡ ok devigged
          → I best
          → add_priced normalize parse_datetime uuid_of detector ctx maps group devigged best
            ≡ ok kept
          → I kept
      add_priced-keeps group none best kept g d hs e = subst I (ok-injective best kept e) hs
      add_priced-keeps group (some lines) best kept g d hs e =
          add_lines-keeps group lines best kept g (sourced group lines d) hs e

      pub add_groups-keeps :
          (groups : List (Sides F)) (best kept : Best F)
          → All G groups
          → I best
          → add_groups normalize parse_datetime uuid_of detector ctx maps groups best ≡ ok kept
          → I kept
      unfolding add_groups
      add_groups-keeps [] best kept gs hs e = subst I (ok-injective best kept e) hs
      add_groups-keeps (group ∷ groups) best kept (g, gs) hs e =
          let (devigged, d, e₁) = >>=-eq-ok (price_group detector (values group)) _ e in
          let (mid, p, e₂) =
            >>=-eq-ok
              (add_priced normalize parse_datetime uuid_of detector ctx maps group devigged best) _
              e₁ in
          add_groups-keeps groups mid kept gs (add_priced-keeps group devigged best mid g d hs p) e₂

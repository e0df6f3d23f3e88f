-- ===== src/Core/Parlay/Joint/Bounds.antt =====
-- The joint probability of the legs of one game.
use bookie_breaker_agent.Prelude.{
  ℕ, String, List, Option, none, some, Result, ok, raise, api_error, value_error, other, All, ◌≡◌,
  ok-injective, >>=-eq-ok,
}
use mathlib.Core.Path.{subst}
use bookie_breaker_agent.Float.{Float, IsFloat, ◌≤◌, whole}
use bookie_breaker_agent.Edges.Correlation.{multi_leg_parlay_prob, scaled_joint_probability}
use bookie_breaker_agent.Edges.Correlation.Frechet.{
  IsJoint, multi_leg_parlay_prob-IsJoint, scaled_joint_probability-IsJoint,
}
use bookie_breaker_agent.Core.Parlay.Evaluate.{EvaluatedLeg}
use bookie_breaker_agent.Core.Parlay.Joint.{
  CorrelationsData, number_from, pairs, calibrated, leg_keys, marginals_of, prior_rhos, prior_joint,
  simulated_joint, group_joint,
}

module _ {ℓ} {F : Type ℓ} ⦃f : Float F⦄ where
  -- What a group's joint probability is, whichever path computed it.
  abbrev IsGroup : List (EvaluatedLeg F) → (F × List (ℕ × ℕ × F) × String) → Type 0
  IsGroup legs out = IsJoint out.0 (calibrated legs)

  module _ (laws : IsFloat F) where
    prior_joint-IsGroup :
        (legs : List (EvaluatedLeg F)) (out : F × List (ℕ × ℕ × F) × String)
        → All (λ m. whole 0 ≤ m) (calibrated legs)
        → prior_joint legs ≡ ok out
        → IsGroup legs out
    unfolding prior_joint
    prior_joint-IsGroup legs out h e =
        let (rhos, _, e₁) = >>=-eq-ok (prior_rhos (pairs (number_from 0 legs))) _ e in
        let (joint, e₂, e₃) = >>=-eq-ok (multi_leg_parlay_prob (calibrated legs) rhos) _ e₁ in
        subst (IsGroup legs) (ok-injective _ out e₃)
          (multi_leg_parlay_prob-IsJoint laws (calibrated legs) rhos joint h e₂)

    simulated_joint-IsGroup :
        (found : CorrelationsData F) (sim_joint : Option F) (sims : Option (List F))
        (legs : List (EvaluatedLeg F)) (out : F × List (ℕ × ℕ × F) × String)
        → All (λ m. whole 0 ≤ m) (calibrated legs)
        → simulated_joint found sim_joint sims legs ≡ ok out
        → IsGroup legs out
    unfolding simulated_joint
    simulated_joint-IsGroup found none sims legs out h e = prior_joint-IsGroup legs out h e
    simulated_joint-IsGroup found (some sim_joint) none legs out h e =
        prior_joint-IsGroup legs out h e
    simulated_joint-IsGroup found (some sim_joint) (some sims) legs out h e =
        let (joint, e₁, e₂) =
          >>=-eq-ok (scaled_joint_probability sim_joint sims (calibrated legs)) _ e in
        subst (IsGroup legs) (ok-injective _ out e₂)
          (scaled_joint_probability-IsJoint laws sim_joint sims (calibrated legs) joint h e₁)

    -- Whatever the simulation answers, a joint probability of the legs of a game is at most that
    -- of every leg, and it is not negative when no leg is.
    pub group_joint-IsJoint :
        (reply : Result (CorrelationsData F)) (legs : List (EvaluatedLeg F)) (joint : F)
        (rhos : List (ℕ × ℕ × F)) (method : String)
        → All (λ m. whole 0 ≤ m) (calibrated legs)
        → group_joint reply legs ≡ ok (joint, rhos, method)
        → IsJoint joint (calibrated legs)
    unfolding group_joint
    group_joint-IsJoint (ok found) legs joint rhos method h e =
        simulated_joint-IsGroup found found.joint_probability
          (marginals_of found.marginals (leg_keys legs)) legs (joint, rhos, method) h e
    group_joint-IsJoint (raise (api_error _)) legs joint rhos method h e =
        prior_joint-IsGroup legs (joint, rhos, method) h e
    group_joint-IsJoint (raise (value_error _)) legs joint rhos method h e = cc
    group_joint-IsJoint (raise (other _)) legs joint rhos method h e = cc

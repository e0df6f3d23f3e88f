-- ===== src/Edges/Correlation/Frechet.antt =====
-- The Fréchet–Hoeffding clamp: the joint probability of a parlay stays within the bounds that the
-- legs' own probabilities give, whatever was computed before the clamp.
use bookie_breaker_agent.Prelude.{
  ◌≡◌, List, [], ◌∷◌, ok, ok-injective, All, ℕ, >>=-eq-ok, length, ◌==◌, not, reject_if,
}
use Prim.Native.Nat
use mathlib.Core.Path.{subst}
use bookie_breaker_agent.Float.{Float, IsFloat, ◌+◌, ◌-◌, ◌≤◌, whole, min, max, sum, prod}
use bookie_breaker_agent.Float.Order.{
  min-le_left, min-le_right, le-min, le-max_left, le-max_right, min_mono, max_mono,
}
use bookie_breaker_agent.Edges.Correlation.{
  min_from, frechet_clamp, multi_leg_parlay_prob, adjust, scaled_joint_probability,
}

module _ {ℓ} {F : Type ℓ} ⦃f : Float F⦄ where
  -- The lower end of the clamp, as it is computed.
  abbrev pub lower_bound : List F → F
  lower_bound marginals = max (whole 0) (sum marginals - f.decimal (Nat.◌-◌ (length marginals) 1) 0)

  -- What the clamp promises of a joint probability.
  abbrev pub IsJoint : F → List F → Type 0
  IsJoint joint marginals = (whole 0 ≤ joint) × All (λ m. joint ≤ m) marginals

  module _ (laws : IsFloat F) where
    open laws use {le_refl, le_trans}

    min_from-le_best : (best : F) (xs : List F) → min_from best xs ≤ best
    min_from-le_best best [] = le_refl best
    min_from-le_best best (x ∷ xs) =
        le_trans _ (min best x) best (min_from-le_best (min best x) xs) (min-le_left laws best x)

    min_from-le-All : (best : F) (xs : List F) → All (λ m. min_from best xs ≤ m) xs
    min_from-le-All best [] = tt
    min_from-le-All best (x ∷ xs) = (
      le_trans _ (min best x) x (min_from-le_best (min best x) xs) (min-le_right laws best x),
      min_from-le-All (min best x) xs,
    )

    le-min_from : (z best : F) (xs : List F) → z ≤ best → All (λ m. z ≤ m) xs → z ≤ min_from best xs
    le-min_from z best [] h _ = h
    le-min_from z best (x ∷ xs) h (k, ks) =
        le-min_from z (min best x) xs (le-min laws best x z h k) ks

    All-le : (j k : F) (xs : List F) → j ≤ k → All (λ m. k ≤ m) xs → All (λ m. j ≤ m) xs
    All-le j k [] h _ = tt
    All-le j k (x ∷ xs) h (p, ps) = (le_trans j k x h p, All-le j k xs h ps)

    min-IsJoint :
        (raised m : F) (ms : List F)
        → whole 0 ≤ raised
        → All (λ m. whole 0 ≤ m) (m ∷ ms)
        → IsJoint (min raised (min_from m ms)) (m ∷ ms)
    min-IsJoint raised m ms nonneg (h, hs) =
        let smallest = min_from m ms in
        let below = min-le_right laws raised smallest in
        (
          le-min laws raised smallest (whole 0) nonneg (le-min_from (whole 0) m ms h hs),
          (
            le_trans _ smallest m below (min_from-le_best m ms),
            All-le _ smallest ms below (min_from-le-All m ms),
          ),
        )

    -- Whatever joint probability was computed, the clamped one is at most the probability of every
    -- leg, and it is not negative when no leg's is.
    pub frechet_clamp-IsJoint :
        (joint : F) (marginals : List F) (j : F)
        → All (λ m. whole 0 ≤ m) marginals
        → frechet_clamp joint marginals ≡ ok j
        → IsJoint j marginals
    unfolding frechet_clamp
    frechet_clamp-IsJoint joint [] j h e = cc
    frechet_clamp-IsJoint joint (m ∷ ms) j h e =
        let lower = lower_bound (m ∷ ms) in
        subst (λ x. IsJoint x (m ∷ ms)) (ok-injective _ j e)
          (min-IsJoint (max joint lower) m ms
            (le_trans (whole 0) lower _ (le-max_left laws (whole 0) _)
              (le-max_right laws joint lower))
            h)

    -- Where the lower end of the clamp lies above no marginal, the clamped joint probability is
    -- at least the lower end.
    pub lower_bound-le-frechet_clamp :
        (joint : F) (marginals : List F) (j : F)
        → All (λ m. lower_bound marginals ≤ m) marginals
        → frechet_clamp joint marginals ≡ ok j
        → lower_bound marginals ≤ j
    unfolding frechet_clamp
    lower_bound-le-frechet_clamp joint [] j h e = cc
    lower_bound-le-frechet_clamp joint (m ∷ ms) j (h, hs) e =
        let lower = lower_bound (m ∷ ms) in
        rw (← ok-injective _ j e) (
          le-min laws (max joint lower) (min_from m ms) lower (le-max_right laws joint lower)
            (le-min_from lower m ms h hs))

    -- The clamp keeps the order of the joint probabilities it is given.
    pub frechet_clamp_mono :
        (joint joint' : F) (marginals : List F) (j j' : F)
        → joint ≤ joint'
        → frechet_clamp joint marginals ≡ ok j
        → frechet_clamp joint' marginals ≡ ok j'
        → j ≤ j'
    unfolding frechet_clamp
    frechet_clamp_mono joint joint' [] j j' h e e' = cc
    frechet_clamp_mono joint joint' (m ∷ ms) j j' h e e' =
        let lower = lower_bound (m ∷ ms) in
        rw (← ok-injective _ j e, ← ok-injective _ j' e')
          (min_mono laws (max joint lower) (max joint' lower) (min_from m ms) (min_from m ms)
            (max_mono laws joint joint' lower lower h (le_refl lower)) (le_refl (min_from m ms)))

    -- The joint probability of a parlay of any number of legs is at most every leg's
    -- probability, whatever the pair correlations, and not negative when no leg's is.
    pub multi_leg_parlay_prob-IsJoint :
        (probs : List F) (correlations : List (ℕ × ℕ × F)) (j : F)
        → All (λ m. whole 0 ≤ m) probs
        → multi_leg_parlay_prob probs correlations ≡ ok j
        → IsJoint j probs
    unfolding multi_leg_parlay_prob
    multi_leg_parlay_prob-IsJoint probs correlations j h e =
        let (a, _, e') = >>=-eq-ok (adjust probs (prod probs) (whole 0) correlations) _ e in
        frechet_clamp-IsJoint (prod probs + a) probs j h e'

    -- A simulated joint probability scaled to calibrated marginals is at most every calibrated
    -- marginal, and not negative when no marginal is.
    pub scaled_joint_probability-IsJoint :
        (sim_joint : F) (sim_marginals calibrated : List F) (j : F)
        → All (λ m. whole 0 ≤ m) calibrated
        → scaled_joint_probability sim_joint sim_marginals calibrated ≡ ok j
        → IsJoint j calibrated
    unfolding scaled_joint_probability
    scaled_joint_probability-IsJoint sim_joint sims calibrated j h e =
        let (_, _, e') = >>=-eq-ok (reject_if (not (length sims == length calibrated)) _) _ e in
        frechet_clamp-IsJoint _ calibrated j h e'

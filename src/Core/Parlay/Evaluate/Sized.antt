-- ===== src/Core/Parlay/Evaluate/Sized.antt =====
-- The size of an evaluated parlay.
use bookie_breaker_agent.Prelude.{◌≡◌, Option, ok, ok-injective, >>=-eq-ok}
use mathlib.Core.Path.{subst}
use bookie_breaker_agent.Prelude.Int.{ℤ}
use bookie_breaker_agent.Float.{Float, IsFloat, ◌-◌, ◌*◌, ◌≤◌, whole}
use bookie_breaker_agent.Float.Order.{min-le_right, le-min, le-max_right, mul_nonneg, round_nonneg}
use bookie_breaker_agent.Edges.Kelly.Bounds.{correlated_kelly_bounds}
use bookie_breaker_agent.Core.Parlay.Evaluate.{
  ParlayEvaluation, Joint, open_unit, combined_odds, evaluation_at, evaluate_joint,
}

module _ {ℓ} {F : Type ℓ} ⦃f : Float F⦄ where
  -- The probability stays away from 0 and 1, the fraction is at most the cap, and a stake is not
  -- negative nor above the cap of the bankroll.
  pub record IsSizedParlay (cap bankroll : F) (e : ParlayEvaluation F) : Type 0 where
    pub probable : f.round_to 5 (f.decimal 1 5) ≤ e.joint_probability
    pub uncertain : e.joint_probability ≤ f.round_to 5 (f.decimal 10 1 - f.decimal 1 5)
    pub kelly_nonneg : whole 0 ≤ e.kelly_fraction
    pub kelly_capped : e.kelly_fraction ≤ f.round_to 5 cap
    pub stake_nonneg : whole 0 ≤ e.recommended_stake
    pub stake_capped : e.recommended_stake ≤ f.round_to 2 (cap * bankroll)

  module _ (laws : IsFloat F) where
    open laws use {le_trans, round_mono, mul_mono}

    open_unit_bounds :
        (p : F)
        → f.decimal 1 5 ≤ f.decimal 10 1 - f.decimal 1 5
        → (f.decimal 1 5 ≤ open_unit p) × (open_unit p ≤ f.decimal 10 1 - f.decimal 1 5)
    unfolding open_unit
    open_unit_bounds p h = (
      le-min laws _ _ (f.decimal 1 5) (le-max_right laws p (f.decimal 1 5)) h,
      min-le_right laws _ _,
    )

    evaluation_at-IsSizedParlay :
        (m cap bankroll : F) (found : Joint F) (odds : F × ℤ)
        → whole 0 ≤ m
        → whole 0 ≤ cap
        → whole 0 ≤ bankroll
        → f.decimal 1 5 ≤ f.decimal 10 1 - f.decimal 1 5
        → IsSizedParlay cap bankroll (evaluation_at m cap found bankroll odds)
    unfolding evaluation_at
    evaluation_at-IsSizedParlay m cap bankroll found (d, american) hm hc hb h =
        let (low, high) = open_unit_bounds found.probability h in
        let (nonneg, capped) =
          correlated_kelly_bounds laws (open_unit found.probability) d m cap hm hc in
        record {
          probable = round_mono 5 _ _ low;
          uncertain = round_mono 5 _ _ high;
          kelly_nonneg = round_nonneg laws 5 _ nonneg;
          kelly_capped = round_mono 5 _ cap capped;
          stake_nonneg = round_nonneg laws 2 _ (mul_nonneg laws _ bankroll nonneg hb);
          stake_capped = round_mono 2 _ _ (mul_mono _ cap bankroll hb capped);
        }

    -- For a multiplier, a cap and a bankroll that are not negative, and 1e-5 at most 1 - 1e-5,
    -- an evaluated parlay has a probability between those two, a fraction between 0 and the cap,
    -- and a stake between 0 and the cap of the bankroll, each up to its rounding.
    pub evaluate_joint-IsSizedParlay :
        (m cap bankroll : F) (found : Joint F) (odds : Option ℤ) (e : ParlayEvaluation F)
        → whole 0 ≤ m
        → whole 0 ≤ cap
        → whole 0 ≤ bankroll
        → f.decimal 1 5 ≤ f.decimal 10 1 - f.decimal 1 5
        → evaluate_joint m cap found odds bankroll ≡ ok e
        → IsSizedParlay cap bankroll e
    unfolding evaluate_joint
    evaluate_joint-IsSizedParlay m cap bankroll found odds e hm hc hb h r =
        let (combined, _, r₁) = >>=-eq-ok (combined_odds odds found.legs) _ r in
        subst (IsSizedParlay cap bankroll) (ok-injective _ e r₁)
          (evaluation_at-IsSizedParlay m cap bankroll found combined hm hc hb h)

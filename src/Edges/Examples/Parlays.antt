-- ===== src/Edges/Examples/Parlays.antt =====
-- Joint probabilities and prior correlations of concrete legs.
use bookie_breaker_agent.Edges.Correlation.Prior.{correlation_prior_comm}
use bookie_breaker_agent.Prelude.{◌≡◌, refl, none, some, [], ◌∷◌, true}
use bookie_breaker_agent.Prelude.Int.{pos}
use bookie_breaker_agent.Float.Fixed.{Fixed, fixed_float}
use bookie_breaker_agent.Float.Fixed.Laws.{Fixed-IsFloat}
use bookie_breaker_agent.Edges.Correlation.{
  PriorLeg, correlation_prior, frechet_clamp, scaled_joint_probability,
}
use bookie_breaker_agent.Edges.Correlation.Frechet.{IsJoint, scaled_joint_probability-IsJoint}

scaled_joint_probability-IsJoint_example : IsJoint (pos 500_000) (pos 500_000 ∷ pos 600_000 ∷ [])
unfolding scaled_joint_probability frechet_clamp
scaled_joint_probability-IsJoint_example =
    scaled_joint_probability-IsJoint Fixed-IsFloat (pos 450_000) (pos 400_000 ∷ pos 500_000 ∷ [])
      (pos 500_000 ∷ pos 600_000 ∷ []) (pos 500_000) (refl, (refl, tt)) refl

abbrev home_spread : PriorLeg
home_spread = record {
  market = "spread";
  side = some "home";
  player = none;
  stat = none;
  player_team = none;
}

abbrev under_total : PriorLeg
under_total = record {
  market = "TOTAL";
  side = some "under";
  player = none;
  stat = none;
  player_team = none;
}

correlation_prior_comm_example :
    correlation_prior {F = Fixed} home_spread under_total true
    ≡ correlation_prior under_total home_spread true
correlation_prior_comm_example = correlation_prior_comm Fixed-IsFloat home_spread under_total true

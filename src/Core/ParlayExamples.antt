-- ===== src/Core/ParlayExamples.antt =====
-- A parlay of a moneyline and an anytime scorer, and the combinations of three edges.
use bookie_breaker_agent.Prelude.{
  String, List, [], ◌∷◌, length, ◌≡◌, ◌≤◌, refl, Option, none, some, All, false, ok, upper, lower,
  lookup,
}
use bookie_breaker_agent.Prelude.Int.{ℤ, pos}
use bookie_breaker_agent.Float.Fixed.{Fixed, fixed_float}
use bookie_breaker_agent.Float.Fixed.Laws.{Fixed-IsFloat}
use bookie_breaker_agent.Edges.Odds.{decimal_to_american}
use bookie_breaker_agent.Core.Detector.Candidates.{EdgeCandidate}
use bookie_breaker_agent.Core.Parlay.{
  ParlayLegSpec, normalized_prop_type, validate_leg, opposes, same_leg, check_each, validate_legs,
}
use bookie_breaker_agent.Core.Parlay.Valid.{
  IsParlay, OnlyUnprocessable, validate_legs-IsParlay, validate_legs-OnlyUnprocessable,
}
use bookie_breaker_agent.Core.Parlay.Evaluate.{
  EvaluatedLeg, ParlayEvaluation, Joint, combined_odds, evaluation_at, evaluate_joint,
}
use bookie_breaker_agent.Core.Parlay.Evaluate.Sized.{IsSizedParlay, evaluate_joint-IsSizedParlay}
use bookie_breaker_agent.Edges.Correlation.{scaled_joint_probability, frechet_clamp}
use bookie_breaker_agent.Edges.Correlation.Frechet.{IsJoint}
use bookie_breaker_agent.Core.Parlay.Joint.{
  CorrelationsData, group_joint, simulated_joint, matrix_rhos, method_simulation,
}
use bookie_breaker_agent.Core.Parlay.Joint.Bounds.{group_joint-IsJoint}
use bookie_breaker_agent.Core.Scanner.{max_combinations, enumerate_combinations}
use bookie_breaker_agent.Core.Scanner.Combos.{IsCombo, enumerate_combinations-IsKept}
use bookie_breaker_agent.Core.DetectorExamples.{first_price}

abbrev leg : String → String → Option String → Option String → ParlayLegSpec Fixed
leg market side player stat = record {
  game_external_id = "ext";
  market_type = market;
  side = side;
  line_value = none;
  sportsbook_key = none;
  edge_id = none;
  player_external_id = player;
  stat_type = stat;
  prop_type = none;
}

abbrev legs : List (ParlayLegSpec Fixed)
legs =
    leg "moneyline" "home" none none ∷ leg "PLAYER_PROP" "YES" (some "jane-doe") (some "goals") ∷ []

accepted : validate_legs legs ≡ ok tt
unfolding validate_legs check_each validate_leg normalized_prop_type same_leg opposes upper lower
    lookup
accepted = refl

validate_legs-IsParlay_example : IsParlay legs
validate_legs-IsParlay_example = validate_legs-IsParlay legs tt accepted

validate_legs-OnlyUnprocessable_example :
    OnlyUnprocessable (validate_legs (leg "TEAM_PROP" "over" none none ∷ legs))
validate_legs-OnlyUnprocessable_example =
    validate_legs-OnlyUnprocessable (leg "TEAM_PROP" "over" none none ∷ legs)

abbrev three_edges : List (EdgeCandidate Fixed)
three_edges =
    first_price
    ∷ record first_price { market_type = "TOTAL"; side = some "OVER" }
    ∷ record first_price { market_type = "SPREAD" }
    ∷ []

enumerate_combinations-IsKept_example :
    All IsCombo (enumerate_combinations three_edges)
    × (length (enumerate_combinations three_edges) ≤ max_combinations)
enumerate_combinations-IsKept_example = enumerate_combinations-IsKept three_edges

abbrev evaluated_leg : String → ℤ → EvaluatedLeg Fixed
evaluated_leg side p = record {
  game_external_id = "ext";
  game_id = "game";
  league = "NBA";
  market_type = "MONEYLINE";
  selection = side;
  side = side;
  line_value = none;
  sportsbook_key = "book";
  odds_american = pos 100;
  odds_decimal = pos 2_000_000;
  predicted_probability = p;
  prediction_id = none;
  sim_leg_key = "home_ml";
  edge_id = none;
  player_external_id = none;
  stat_type = none;
  prop_type = none;
  player_team = none;
}

abbrev found : Joint Fixed
found = record {
  league = "NBA";
  legs = evaluated_leg "HOME" (pos 600_000) ∷ evaluated_leg "AWAY" (pos 500_000) ∷ [];
  is_same_game = false;
  probability = pos 300_000;
  correlations = [];
  method = "independent";
  expires_at = 7_200_000_000;
}

abbrev evaluation : ParlayEvaluation Fixed
unfolding evaluation_at
evaluation =
    evaluation_at (pos 250_000) (pos 50_000) found (pos 100_000_000) (pos 4_000_000, pos 300)

evaluated : evaluate_joint (pos 250_000) (pos 50_000) found none (pos 100_000_000) ≡ ok evaluation
unfolding evaluate_joint combined_odds evaluation_at decimal_to_american
evaluated = refl

evaluate_joint-IsSizedParlay_example : IsSizedParlay (pos 50_000) (pos 100_000_000) evaluation
evaluate_joint-IsSizedParlay_example =
    evaluate_joint-IsSizedParlay Fixed-IsFloat (pos 250_000) (pos 50_000) (pos 100_000_000) found
      none evaluation refl refl refl refl evaluated

abbrev simulated : CorrelationsData Fixed
simulated = record {
  legs = "home_ml" ∷ [];
  matrix = (pos 1_000_000 ∷ []) ∷ [];
  joint_probability = some (pos 450_000);
  marginals = ("home_ml", pos 500_000) ∷ [];
}

group_joint-IsJoint_example : IsJoint (pos 500_000) (pos 600_000 ∷ pos 500_000 ∷ [])
unfolding group_joint simulated_joint matrix_rhos scaled_joint_probability frechet_clamp lookup
group_joint-IsJoint_example =
    group_joint-IsJoint Fixed-IsFloat (ok simulated) found.legs (pos 500_000)
      ((0, 1, pos 1_000_000) ∷ []) method_simulation (refl, (refl, tt)) refl

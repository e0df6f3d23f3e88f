-- ===== src/Core/Parlay/Evaluate.antt =====
-- core/parlay.py, `evaluate` from the evaluated legs and their joint probability on: the price, the
-- value and the size of a parlay.
pub mod Sized
use bookie_breaker_agent.Prelude.{
  String, List, [], ◌∷◌, map, Option, none, some, Bool, Result, ok, ◌>>=◌,
}
use bookie_breaker_agent.Prelude.Int.{ℤ}
use bookie_breaker_agent.Float.{Float, ◌-◌, ◌*◌, ◌≤?◌, whole, min, max, prod}
use bookie_breaker_agent.Float.Time.{DateTime}
use bookie_breaker_agent.Edges.Odds.{american_to_decimal, decimal_to_american}
use bookie_breaker_agent.Edges.Ev.{min_ev_pct_for_league}
use bookie_breaker_agent.Edges.Kelly.{correlated_kelly}

pub record EvaluatedLeg {ℓ} (F : Type ℓ) : Type ℓ where
  pub game_external_id : String
  pub game_id : String
  pub league : String
  pub market_type : String
  pub selection : String
  pub side : String
  pub line_value : Option F
  pub sportsbook_key : String
  pub odds_american : ℤ
  pub odds_decimal : F
  pub predicted_probability : F
  pub prediction_id : Option String
  pub sim_leg_key : String
  pub edge_id : Option String
  pub player_external_id : Option String
  pub stat_type : Option String
  pub prop_type : Option String
  pub player_team : Option String

pub record ParlayEvaluation {ℓ} (F : Type ℓ) : Type ℓ where
  pub parlay_id : Option String
  pub league : String
  pub legs : List (EvaluatedLeg F)
  pub is_same_game : Bool
  pub joint_probability : F
  pub independent_probability : F
  pub correlation_edge : F
  pub combined_odds_american : ℤ
  pub combined_odds_decimal : F
  pub expected_value : F
  pub ev_pct : F
  pub kelly_fraction : F
  pub recommended_stake : F
  pub meets_threshold : Bool
  pub method : String
  pub correlations : List (String × F)
  pub expires_at : DateTime

-- What `evaluate` has found out before it prices the parlay.
pub record Joint {ℓ} (F : Type ℓ) : Type ℓ where
  pub league : String
  pub legs : List (EvaluatedLeg F)
  pub is_same_game : Bool
  pub probability : F
  pub correlations : List (String × F)
  pub method : String
  pub expires_at : DateTime

module _ {ℓ} {F : Type ℓ} ⦃f : Float F⦄ where
  -- `min(max(p, 1e-5), 1.0 - 1e-5)`
  unfoldable pub open_unit : F → F
  open_unit p = min (max p (f.decimal 1 5)) (f.decimal 10 1 - f.decimal 1 5)

  -- The odds that were asked for, or the product of the legs'.
  unfoldable pub combined_odds : Option ℤ → List (EvaluatedLeg F) → Result (F × ℤ)
  combined_odds (some parlay_odds_american) legs = do
    combined_decimal ← american_to_decimal parlay_odds_american
    ok (combined_decimal, parlay_odds_american)
  combined_odds none legs = do
    let combined_decimal = prod (map (λ leg. leg.odds_decimal) legs)
    combined_american ← decimal_to_american combined_decimal
    ok (combined_decimal, combined_american)

  -- `ParlayEvaluation(…)`, at the combined odds.
  unfoldable pub evaluation_at : F → F → Joint F → F → F × ℤ → ParlayEvaluation F
  unfolding open_unit
  evaluation_at kelly_multiplier max_bet_pct found bankroll_units
        (combined_decimal, combined_american) =
      let joint = open_unit found.probability in
      let independent = open_unit (prod (map (λ leg. leg.predicted_probability) found.legs)) in
      let expected_value = joint * combined_decimal - whole 1 in
      let ev_pct = expected_value * whole 100 in
      let kelly = correlated_kelly joint combined_decimal kelly_multiplier max_bet_pct in
      record {
        parlay_id = none;
        league = found.league;
        legs = found.legs;
        is_same_game = found.is_same_game;
        joint_probability = f.round_to 5 joint;
        independent_probability = f.round_to 5 independent;
        correlation_edge = f.round_to 5 (joint - independent);
        combined_odds_american = combined_american;
        combined_odds_decimal = f.round_to 4 combined_decimal;
        expected_value = f.round_to 5 expected_value;
        ev_pct = f.round_to 3 ev_pct;
        kelly_fraction = f.round_to 5 kelly;
        recommended_stake = f.round_to 2 (kelly * bankroll_units);
        meets_threshold = min_ev_pct_for_league found.league ≤? ev_pct;
        method = found.method;
        correlations = found.correlations;
        expires_at = found.expires_at;
      }

  unfoldable pub evaluate_joint : F → F → Joint F → Option ℤ → F → Result (ParlayEvaluation F)
  unfolding combined_odds evaluation_at
  evaluate_joint kelly_multiplier max_bet_pct found parlay_odds_american bankroll_units = do
    combined ← combined_odds parlay_odds_american found.legs
    ok (evaluation_at kelly_multiplier max_bet_pct found bankroll_units combined)

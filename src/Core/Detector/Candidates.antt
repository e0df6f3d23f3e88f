-- ===== src/Core/Detector/Candidates.antt =====
-- core/edge_detector.py, `EdgeCandidate` and `_build_candidate`: the edge that a line and its
-- prediction make. `_parse_datetime` and `uuid.UUID` are parameters.
pub mod Sound
use bookie_breaker_agent.Prelude.{
  String, Option, none, some, Bool, not, ◌&&◌, ◌||◌, Result, ok, ◌>>=◌, upper, str_eq,
  if◌then◌else◌,
}
use bookie_breaker_agent.Prelude.Int.{ℤ}
use bookie_breaker_agent.Float.{Float, ◌-◌, ◌*◌, ◌/◌, ◌≤?◌, whole, max}
use bookie_breaker_agent.Float.Time.{DateTime, total_seconds}
use bookie_breaker_agent.Clients.Payloads.{Game, LineSnapshot, PredictionItem}
use bookie_breaker_agent.Edges.Ev.{calculate_ev_pct, min_ev_pct_for_league}
use bookie_breaker_agent.Edges.Kelly.{kelly_fraction}
use bookie_breaker_agent.Edges.Quality.{edge_quality_score, market_efficiency}
use bookie_breaker_agent.Edges.Devig.{DevigMethod, multiplicative, additive, shin, in_unit}

pub record EdgeCandidate {ℓ} (F : Type ℓ) : Type ℓ where
  pub game_id : String
  pub game_external_id : String
  pub league : String
  pub market_type : String
  pub selection : String
  pub side : Option String
  pub line_value : Option F
  pub sportsbook_key : String
  pub odds_american : ℤ
  pub predicted_probability : F
  pub implied_probability : F
  pub edge_percentage : F
  pub expected_value : F
  pub kelly : F
  pub confidence : F
  pub devig_method : String
  pub prediction_id : Option String
  pub simulation_run_id : Option String
  pub expires_at : DateTime
  pub meets_threshold : Bool
  pub player_external_id : Option String
  pub stat_type : Option String
  pub prop_type : Option String
  pub is_live : Bool

-- The attributes of an `EdgeDetector`.
pub record Detector {ℓ} (F : Type ℓ) : Type ℓ where
  pub devig_method : DevigMethod
  pub kelly_multiplier : F
  pub max_bet_pct : F
  pub single_sided_haircut : F

-- What one call of `detect` gives every candidate.
pub record Context : Type 0 where
  pub game : Game
  pub game_external_id : String
  pub simulation_run_id : Option String
  pub expires_at : DateTime
  pub now : DateTime
  pub is_live : Bool

-- `DevigMethod.value`
unfoldable pub method_value : DevigMethod → String
method_value multiplicative = "multiplicative"
method_value additive = "additive"
method_value shin = "shin"

-- `_parse_uuid`, with `uuid.UUID` for `uuid_of`
unfoldable pub parse_uuid : (String → Option String) → Option String → Option String
parse_uuid uuid_of none = none
parse_uuid uuid_of (some value) = if str_eq value "" then none else uuid_of value

-- `override or value`
abbrev pub method_name : Option String → DevigMethod → String
method_name none method = method_value method
method_name (some override) method = if str_eq override "" then method_value method else override

-- `text or None`
abbrev pub none_if_empty : String → Option String
none_if_empty text = if str_eq text "" then none else some text

module _ {ℓ} {F : Type ℓ} ⦃f : Float F⦄ where
  abbrev pub default_calibration_error : F
  default_calibration_error = f.decimal 3 2

  abbrev pub default_ci_width : F
  default_ci_width = f.decimal 10 2

  abbrev pub single_sided_confidence_penalty : F
  single_sided_confidence_penalty = f.decimal 8 1

  unfoldable pub ci_width : Option F → Option F → F
  ci_width (some lower) (some upper) = upper - lower
  ci_width _ _ = default_ci_width

  -- `max((now - line_timestamp).total_seconds() / 3600, 0.0) if line_timestamp else 0.0`
  unfoldable pub freshness_hours : Option DateTime → DateTime → F
  freshness_hours none now = f.decimal 0 1
  freshness_hours (some line_timestamp) now =
      max (total_seconds now line_timestamp / whole 3600) (f.decimal 0 1)

  -- The quality score, discounted where the multiplier is not 1.
  unfoldable pub discount : F → F → F
  discount confidence multiplier =
      if not ((multiplier ≤? whole 1) && (whole 1 ≤? multiplier))
      then f.round_to 3 (confidence * multiplier)
      else confidence

  module _ (parse_datetime : String → Option DateTime) (uuid_of : String → Option String) where
    unfoldable pub quality : Context → LineSnapshot F → PredictionItem F → F → F
    unfolding ci_width freshness_hours
    quality ctx line prediction ev_pct =
        edge_quality_score ev_pct (ci_width prediction.confidence_lower prediction.confidence_upper)
          (market_efficiency ctx.game.league line.market_type)
          (freshness_hours (parse_datetime line.timestamp) ctx.now) default_calibration_error

    -- `EdgeCandidate(…)`
    unfoldable pub candidate_of :
        Detector F
        → Context
        → LineSnapshot F
        → F
        → F
        → PredictionItem F
        → Option String
        → F
        → F
        → F
        → EdgeCandidate F
    unfolding parse_uuid method_value discount quality
    candidate_of detector ctx line predicted implied prediction override multiplier ev_pct kelly =
        record {
          game_id = ctx.game.id;
          game_external_id = ctx.game_external_id;
          league = ctx.game.league;
          market_type = upper line.market_type;
          selection = line.selection;
          side = none_if_empty line.side;
          line_value = line.line_value;
          sportsbook_key = line.sportsbook_key;
          odds_american = line.odds_american;
          predicted_probability = f.round_to 5 predicted;
          implied_probability = f.round_to 5 implied;
          edge_percentage = f.round_to 3 ((predicted - implied) * whole 100);
          expected_value = f.round_to 5 (ev_pct / whole 100);
          kelly = kelly;
          confidence = discount (quality ctx line prediction ev_pct) multiplier;
          devig_method = method_name override detector.devig_method;
          prediction_id = parse_uuid uuid_of (some prediction.id);
          simulation_run_id = parse_uuid uuid_of ctx.simulation_run_id;
          expires_at = ctx.expires_at;
          meets_threshold = min_ev_pct_for_league ctx.game.league ≤? ev_pct;
          player_external_id = line.player_external_id;
          stat_type = line.stat_type;
          prop_type = line.prop_type;
          is_live = ctx.is_live;
        }

    unfoldable pub build_candidate :
        Detector F
        → Context
        → LineSnapshot F
        → F
        → F
        → PredictionItem F
        → Option String
        → F
        → Result (Option (EdgeCandidate F))
    unfolding candidate_of
    build_candidate detector ctx line predicted implied prediction override multiplier =
        if not (in_unit predicted) then ok none else do
          ev_pct ← calculate_ev_pct predicted line.odds_american
          if (predicted ≤? implied) || (ev_pct ≤? whole 0) then ok none else do
            kelly ←
                kelly_fraction predicted line.odds_american detector.kelly_multiplier
                  detector.max_bet_pct
            ok (
                some (
                  candidate_of detector ctx line predicted implied prediction override multiplier
                    ev_pct kelly))

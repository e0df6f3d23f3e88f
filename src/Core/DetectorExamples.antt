-- ===== src/Core/DetectorExamples.antt =====
-- A game with one two-way moneyline at two books, and a prediction of 0.6 for the home side.
use bookie_breaker_agent.Prelude.{
  String, List, [], ◌∷◌, ◌≡◌, refl, true, false, Option, none, some, Result, ok, Yields, AnyValue,
  All, Any, here, from_ok, upper, ends_with, drop_suffix, insert, find, put, lookup, str_eq,
  if◌then◌else◌,
}
use bookie_breaker_agent.Prelude.Int.{ℤ, pos, negsuc}
use bookie_breaker_agent.Float.{whole}
use bookie_breaker_agent.Float.Time.{DateTime}
use bookie_breaker_agent.Float.Fixed.{Fixed, fixed_float}
use bookie_breaker_agent.Float.Fixed.Laws.{Fixed-IsFloat}
use bookie_breaker_agent.Clients.Payloads.{Game, TeamRef, LineSnapshot, PredictionItem}
use bookie_breaker_agent.Edges.Odds.{american_to_implied_prob, american_to_decimal}
use bookie_breaker_agent.Edges.Ev.{calculate_ev, calculate_ev_pct, min_ev_pct_for_league}
use bookie_breaker_agent.Edges.Kelly.{capped, full_kelly, kelly_fraction}
use bookie_breaker_agent.Edges.Quality.{edge_quality_score, market_efficiency}
use bookie_breaker_agent.Edges.Devig.{multiplicative, validate, multiplicative_devig, devig}
use bookie_breaker_agent.Core.Detector.Markets.{
  is_prop_market, is_yes_no_prop, is_complete, market_key, add_line, group_lines, complete_markets,
  group_markets, devig_group,
}
use bookie_breaker_agent.Core.Detector.Markets.Groups.{IsMarket, group_markets-IsMarket}
use bookie_breaker_agent.Core.Detector.Matching.{
  no_maps, line_key, prediction_key, prop_prediction_key, add_prediction, prediction_maps,
  first_opposite, complement_in, match_prediction,
}
use bookie_breaker_agent.Core.Detector.Candidates.{
  EdgeCandidate, Detector, method_value, parse_uuid, ci_width, freshness_hours, discount, quality,
  candidate_of, build_candidate,
}
use bookie_breaker_agent.Core.Detector.Detect.{
  candidate_key, price_group, keep_best, offer, add_lines, add_groups, detect,
}
use bookie_breaker_agent.Core.Detector.Detect.Sound.{IsFairBet, detect-IsFairBet}
use bookie_breaker_agent.Core.Detector.Detect.Total.{IsArithmetic, detect-Yields}
use bookie_breaker_agent.Core.Detector.Detect.Best.{OffersIn, Offers}
use bookie_breaker_agent.Core.Detector.Detect.Unique.{
  OnePerKey, IsBeatenBy, context_of, detect-OnePerKey, detect-best_price,
}

abbrev team : String → TeamRef
team name = record { id = name; name = name; abbreviation = name }

abbrev pub game : Game
game = record {
  id = "game";
  league = "NBA";
  status = "SCHEDULED";
  home_team = team "home";
  away_team = team "away";
  scheduled_start = "later";
  home_score = none;
  away_score = none;
}

abbrev pub line : String → String → ℤ → LineSnapshot Fixed
line book side odds = record {
  id = "line";
  game_id = "game";
  sportsbook_key = book;
  market_type = "MONEYLINE";
  selection = side;
  side = side;
  line_value = none;
  player_external_id = none;
  stat_type = none;
  prop_type = none;
  odds_american = odds;
  odds_decimal = whole 2;
  implied_probability = none;
  is_opening = false;
  is_closing = false;
  is_live = false;
  timestamp = "unknown";
}

-- The second book pays more for the home side.
abbrev pub lines : List (LineSnapshot Fixed)
lines =
    line "first" "HOME" (negsuc 109)
    ∷ line "first" "AWAY" (negsuc 109)
    ∷ line "second" "HOME" (negsuc 104)
    ∷ line "second" "AWAY" (negsuc 114)
    ∷ []

abbrev pub predictions : List (PredictionItem Fixed)
predictions =
    record {
      id = "";
      market_type = "MONEYLINE";
      selection = "HOME";
      side = some "HOME";
      predicted_probability = pos 600_000;
      player_external_id = none;
      stat_type = none;
      prop_type = none;
      prop_line = none;
      confidence_lower = none;
      confidence_upper = none;
    }
    ∷ []

abbrev pub detector : Detector Fixed
detector = record {
  devig_method = multiplicative;
  kelly_multiplier = pos 250_000;
  max_bet_pct = pos 50_000;
  single_sided_haircut = pos 60_000;
}

abbrev pub same_text : String → String
same_text text = text

-- Only "later" is a time.
abbrev pub parse_datetime : String → Option DateTime
parse_datetime text = if str_eq text "later" then some 3_600_000_000 else none

abbrev pub no_uuid : String → Option String
no_uuid text = none

abbrev detected : Result (List (EdgeCandidate Fixed))
detected =
    detect same_text parse_datetime no_uuid detector game "ext" predictions lines none 0 false

unfoldable edges : List (EdgeCandidate Fixed)
unfolding detect add_groups add_lines offer keep_best price_group candidate_key group_markets
    group_lines complete_markets add_line is_complete market_key is_yes_no_prop is_prop_market
    devig_group devig multiplicative_devig validate american_to_implied_prob american_to_decimal
    match_prediction complement_in first_opposite prediction_maps add_prediction prediction_key
    prop_prediction_key line_key build_candidate candidate_of quality discount freshness_hours
    ci_width parse_uuid method_value edge_quality_score market_efficiency min_ev_pct_for_league
    calculate_ev_pct calculate_ev kelly_fraction full_kelly capped upper ends_with drop_suffix
    insert find put lookup
edges = from_ok [] detected

detected-edges : detected ≡ ok edges
unfolding edges detect add_groups add_lines offer keep_best price_group candidate_key group_markets
    group_lines complete_markets add_line is_complete market_key is_yes_no_prop is_prop_market
    devig_group devig multiplicative_devig validate american_to_implied_prob american_to_decimal
    match_prediction complement_in first_opposite prediction_maps add_prediction prediction_key
    prop_prediction_key line_key build_candidate candidate_of quality discount freshness_hours
    ci_width parse_uuid method_value edge_quality_score market_efficiency min_ev_pct_for_league
    calculate_ev_pct calculate_ev kelly_fraction full_kelly capped upper ends_with drop_suffix
    insert find put lookup
detected-edges = refl

-- What the first book's price makes of the home side.
abbrev pub first_price : EdgeCandidate Fixed
first_price = record {
  game_id = "game";
  game_external_id = "ext";
  league = "NBA";
  market_type = "MONEYLINE";
  selection = "HOME";
  side = some "HOME";
  line_value = none;
  sportsbook_key = "first";
  odds_american = negsuc 109;
  predicted_probability = pos 600_000;
  implied_probability = pos 500_000;
  edge_percentage = pos 10_000_000;
  expected_value = pos 145_450;
  kelly = pos 39_999;
  confidence = pos 751_000;
  devig_method = "multiplicative";
  prediction_id = none;
  simulation_run_id = none;
  expires_at = 3_600_000_000;
  meets_threshold = true;
  player_external_id = none;
  stat_type = none;
  prop_type = none;
  is_live = false;
}

first_price_offered :
    Any
      (Offers Fixed-IsFloat same_text parse_datetime no_uuid detector
        (context_of game "ext" none 0 false 3_600_000_000)
        (prediction_maps same_text predictions no_maps)
        first_price)
      (group_markets lines)
unfolding OffersIn Offers add_groups add_lines offer keep_best price_group candidate_key
    group_markets group_lines complete_markets add_line is_complete market_key is_yes_no_prop
    is_prop_market devig_group devig multiplicative_devig validate american_to_implied_prob
    american_to_decimal match_prediction complement_in first_opposite prediction_maps add_prediction
    prediction_key prop_prediction_key line_key build_candidate candidate_of quality discount
    freshness_hours ci_width parse_uuid method_value edge_quality_score market_efficiency
    min_ev_pct_for_league calculate_ev_pct calculate_ev kelly_fraction full_kelly capped upper
    ends_with drop_suffix insert find put lookup
first_price_offered = here _ _ (_, refl, here _ _ refl)

detect-IsFairBet_example : All (IsFairBet detector "NBA" (group_markets lines)) edges
detect-IsFairBet_example =
    detect-IsFairBet Fixed-IsFloat same_text parse_datetime no_uuid detector refl refl game "ext"
      predictions lines none 0 false edges detected-edges

detect-OnePerKey_example : OnePerKey edges
detect-OnePerKey_example =
    detect-OnePerKey Fixed-IsFloat same_text parse_datetime no_uuid detector game "ext" predictions
      lines none 0 false edges detected-edges

detect-Yields_example :
    Yields IsArithmetic AnyValue
      (detect same_text parse_datetime no_uuid detector game "ext" predictions lines none 0 false)
detect-Yields_example =
    detect-Yields same_text parse_datetime no_uuid detector Fixed-IsFloat game "ext" predictions
      lines none 0 false

group_markets-IsMarket_example : All IsMarket (group_markets lines)
group_markets-IsMarket_example = group_markets-IsMarket Fixed-IsFloat lines

detect-best_price_example : Any (IsBeatenBy first_price) edges
detect-best_price_example =
    detect-best_price Fixed-IsFloat same_text parse_datetime no_uuid detector game "ext" predictions
      lines none 0 false edges 3_600_000_000 first_price detected-edges refl first_price_offered

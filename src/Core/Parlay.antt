-- ===== src/Core/Parlay.antt =====
-- core/parlay.py: the legs of a parlay, their checks, their keys in the simulation, and their
-- predictions. The format of a number in a key (`:g`) is a parameter; a message keeps the fixed part
-- of its f-string.
pub mod Valid
pub mod Evaluate
pub mod Joint
use bookie_breaker_agent.Prelude.{
  ℕ, String, List, [], ◌∷◌, length, any, all, Option, none, some, Bool, true, false, not, ◌&&◌,
  ◌||◌, ltb, Result, ok, raise, Exception, api_error, ApiError, other, unprocessable, ◌>>=◌, ◌>>◌,
  upper, lower, lookup, insert, find, put, text_of, is_set, join, str_eq, if◌then◌else◌,
}
use bookie_breaker_agent.Float.{Float, ◌-◌, whole}
use bookie_breaker_agent.Clients.Payloads.{PredictionItem}
use bookie_breaker_agent.Core.Detector.Markets.{option_eq}
use bookie_breaker_agent.Core.Detector.Matching.{PropKey, same_prop, prop_prediction_key}

pub record ParlayLegSpec {ℓ} (F : Type ℓ) : Type ℓ where
  pub game_external_id : String
  pub market_type : String
  pub side : String
  pub line_value : Option F
  pub sportsbook_key : Option String
  pub edge_id : Option String
  pub player_external_id : Option String
  pub stat_type : Option String
  pub prop_type : Option String

-- ALLOWED_MARKETS
abbrev pub allowed_markets : List String
allowed_markets = "SPREAD" ∷ "TOTAL" ∷ "MONEYLINE" ∷ "PLAYER_PROP" ∷ []

-- UNSUPPORTED_PROP_MARKETS
abbrev pub unsupported_prop_markets : List String
unsupported_prop_markets = "TEAM_PROP" ∷ "GAME_PROP" ∷ []

-- _SIDES_BY_MARKET
abbrev pub sides_by_market : List (String × List String)
sides_by_market =
    ("MONEYLINE", "HOME" ∷ "AWAY" ∷ "DRAW" ∷ [])
    ∷ ("SPREAD", "HOME" ∷ "AWAY" ∷ [])
    ∷ ("TOTAL", "OVER" ∷ "UNDER" ∷ [])
    ∷ ("PLAYER_PROP", "OVER" ∷ "UNDER" ∷ "YES" ∷ "NO" ∷ [])
    ∷ []

-- _PROP_TYPE_BY_SIDE
abbrev pub prop_type_by_side : List (String × String)
prop_type_by_side =
    ("OVER", "OVER_UNDER") ∷ ("UNDER", "OVER_UNDER") ∷ ("YES", "YES_NO") ∷ ("NO", "YES_NO") ∷ []

-- `complements`
abbrev pub complements : List (String × String)
complements = ("HOME", "AWAY") ∷ ("AWAY", "HOME") ∷ ("OVER", "UNDER") ∷ ("UNDER", "OVER") ∷ []

-- `x in xs`
abbrev pub is_in : String → List String → Bool
is_in x xs = any (str_eq x) xs

-- `if fails: raise UnprocessableError(message)`
abbrev pub refuse_if : Bool → String → Result (Unit {0})
refuse_if true m = raise (api_error (unprocessable m))
refuse_if false m = ok tt

-- `d[key]`
abbrev pub item_of {ℓ} : {V : Type ℓ} → Option V → Result V
item_of none = raise (other "KeyError")
item_of (some v) = ok v

module _ {ℓ} {F : Type ℓ} where
  -- `value is None`
  abbrev pub is_none : Option F → Bool
  is_none none = true
  is_none (some v) = false

  -- The part of a key that is the line.
  abbrev pub line_part : (F → String) → Option F → String → Result String
  line_part show none m = raise (api_error (unprocessable m))
  line_part show (some v) m = ok (show v)

  unfoldable pub sim_leg_key : (F → String) → String → String → Option F → Result String
  unfolding join
  sim_leg_key show market_type side line_value =
      let market = upper market_type in
      if str_eq market "MONEYLINE" then ok (join ":" ("MONEYLINE" ∷ upper side ∷ [])) else do
        line ← line_part show line_value "legs require a line_value"
        ok (join ":" (market ∷ upper side ∷ line ∷ []))

  unfoldable pub prop_sim_leg_key :
      (F → String) → String → String → String → Option F → Result String
  unfolding join
  prop_sim_leg_key show player_uuid stat_type side line_value =
      let stat = lower stat_type in
      let wanted = upper side in
      if is_in wanted ("YES" ∷ "NO" ∷ [])
      then ok (join ":" ("PLAYER_PROP" ∷ player_uuid ∷ stat ∷ wanted ∷ []))
      else do
        line ← line_part show line_value "OVER/UNDER player-prop legs require a line_value"
        ok (join ":" ("PLAYER_PROP" ∷ player_uuid ∷ stat ∷ wanted ∷ line ∷ []))

  unfoldable pub normalized_prop_type : ParlayLegSpec F → Result String
  normalized_prop_type spec = do
    inferred ← item_of (lookup (upper spec.side) prop_type_by_side)
    refuse_if (is_set spec.prop_type && not (str_eq (upper (text_of spec.prop_type)) inferred))
        "side does not match prop_type"
    ok inferred

  abbrev pub validate_prop_leg : ParlayLegSpec F → Result (Unit {0})
  validate_prop_leg spec = do
    refuse_if (not (is_set spec.player_external_id)) "PLAYER_PROP legs require player_external_id"
    refuse_if (not (is_set spec.stat_type)) "PLAYER_PROP legs require stat_type"
    prop_type ← normalized_prop_type spec
    refuse_if (str_eq prop_type "YES_NO" && not (is_none spec.line_value))
        "YES_NO prop legs take no line_value"
    refuse_if (str_eq prop_type "OVER_UNDER" && is_none spec.line_value)
        "OVER_UNDER prop legs require a line_value"

  unfoldable pub validate_leg : ParlayLegSpec F → Result (Unit {0})
  unfolding normalized_prop_type
  validate_leg spec = do
    let market = upper spec.market_type
    refuse_if (is_in market unsupported_prop_markets) "market_type is not supported in parlays"
    refuse_if (not (is_in market allowed_markets)) "market_type is not supported in parlays"
    sides ← item_of (lookup market sides_by_market)
    refuse_if (not (is_in (upper spec.side) sides)) "side is invalid"
    if str_eq market "PLAYER_PROP" then validate_prop_leg spec else ok tt

  abbrev pub is_player_prop : ParlayLegSpec F → Bool
  is_player_prop spec = str_eq (upper spec.market_type) "PLAYER_PROP"

  -- The condition of the second loop. `spec is not other` follows from the sides, which differ.
  unfoldable pub opposes : ParlayLegSpec F → ParlayLegSpec F → Bool
  opposes spec leg =
      not (is_player_prop spec)
      && (str_eq spec.game_external_id leg.game_external_id
          && (str_eq (upper spec.market_type) (upper leg.market_type)
              && not (str_eq (upper spec.side) (upper leg.side))))

  module _ ⦃f : Float F⦄ where
    -- The identities of two legs are equal: of props by player and stat, of team legs by side and
    -- line.
    unfoldable pub same_leg : ParlayLegSpec F → ParlayLegSpec F → Bool
    same_leg a b =
        if is_player_prop a
        then is_player_prop b
          && (str_eq a.game_external_id b.game_external_id
              && (str_eq (text_of a.player_external_id) (text_of b.player_external_id)
                  && str_eq (lower (text_of a.stat_type)) (lower (text_of b.stat_type))))
        else not (is_player_prop b)
          && (str_eq a.game_external_id b.game_external_id
              && (str_eq (upper a.market_type) (upper b.market_type)
                  && (str_eq (upper a.side) (upper b.side) && option_eq a.line_value b.line_value)))

    -- The first loop; `seen` holds the legs whose identities were added.
    unfoldable pub check_each : List (ParlayLegSpec F) → List (ParlayLegSpec F) → Result (Unit {0})
    unfolding validate_leg same_leg
    check_each seen [] = ok tt
    check_each seen (spec ∷ legs) = do
      validate_leg spec
      refuse_if (any (same_leg spec) seen) "duplicate or mutually exclusive leg"
      check_each (spec ∷ seen) legs

    unfoldable pub validate_legs : List (ParlayLegSpec F) → Result (Unit {0})
    unfolding check_each opposes
    validate_legs legs = do
      refuse_if (ltb (length legs) 2 || ltb 6 (length legs)) "parlays take 2-6 legs"
      check_each [] legs
      refuse_if (any (λ spec. any (opposes spec) legs) legs)
          "legs on opposite sides of the same market are mutually exclusive"

    -- The rows of a market that carry a side, by their side.
    unfoldable pub side_rows :
        String
        → List (PredictionItem F)
        → List (String × PredictionItem F)
        → List (String × PredictionItem F)
    side_rows market [] rows = rows
    side_rows market (p ∷ ps) rows = side_rows market ps (
        if str_eq (upper p.market_type) market && is_set p.side
        then insert (upper (text_of p.side)) p rows
        else rows)

    -- The probability and the id of a row, or of the complement of the opposite row.
    abbrev pub direct_or : Option (PredictionItem F) → Option (F × String) → Option (F × String)
    direct_or (some p) rest = some (p.predicted_probability, p.id)
    direct_or none rest = rest

    abbrev pub complement_of : Option (PredictionItem F) → Option (F × String)
    complement_of (some p) = some (whole 1 - p.predicted_probability, p.id)
    complement_of none = none

    abbrev pub has_row : Option (PredictionItem F) → Bool
    has_row (some p) = true
    has_row none = false

    unfoldable pub match_leg_prediction :
        List (PredictionItem F) → String → String → Option (F × String)
    unfolding side_rows
    match_leg_prediction predictions market_type wanted =
        let market = upper market_type in
        let side = upper wanted in
        let rows = side_rows market predictions [] in
        direct_or (lookup side rows) (
          if str_eq market "MONEYLINE" && (has_row (lookup "DRAW" rows) || str_eq side "DRAW")
          then none
          else complement_of (lookup (text_of (lookup side complements)) rows))

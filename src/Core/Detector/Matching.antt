-- ===== src/Core/Detector/Matching.antt =====
-- core/edge_detector.py, `_match_prediction` and the maps that `detect` builds for it: which
-- prediction prices a line, directly or as the complement of the other side. `_normalize` calls
-- `casefold` and `split`: it is a parameter.
use bookie_breaker_agent.Prelude.{
  String, List, [], ◌∷◌, length, Option, none, some, Bool, not, ◌&&◌, find, put, upper, lower,
  text_of, is_set, drop_suffix, str_eq, ◌==◌, if◌then◌else◌,
}
use bookie_breaker_agent.Float.{Float, ◌-◌, whole}
use bookie_breaker_agent.Clients.Payloads.{LineSnapshot, PredictionItem}
use bookie_breaker_agent.Core.Detector.Markets.{Sides, is_prop_market, option_eq}

-- (player, stat, side, line)
pub record PropKey {ℓ} (F : Type ℓ) : Type ℓ where
  pub player : String
  pub stat : String
  pub side : String
  pub line : Option F

abbrev pub TextPair : Type 0
TextPair = String × String

-- `prediction_map`, `side_map` and `prop_map` of `detect`
pub record Maps {ℓ} (F : Type ℓ) : Type ℓ where
  pub by_selection : List (TextPair × PredictionItem F)
  pub by_side : List (TextPair × PredictionItem F)
  pub by_prop : List (PropKey F × PredictionItem F)

abbrev pub same_pair : TextPair → TextPair → Bool
same_pair a b = str_eq (a.0) (b.0) && str_eq (a.1) (b.1)

unfoldable pub prediction_key : (String → String) → String → String → TextPair
unfolding drop_suffix
prediction_key normalize market_type selection = (
  upper market_type,
  if str_eq (upper market_type) "MONEYLINE"
      then drop_suffix (normalize selection) " ml"
      else normalize selection,
)

module _ {ℓ} {F : Type ℓ} ⦃f : Float F⦄ where
  -- `round(value, 4)`
  unfoldable pub line_key : Option F → Option F
  line_key none = none
  line_key (some v) = some (f.round_to 4 v)

  abbrev pub same_prop : PropKey F → PropKey F → Bool
  same_prop a b =
      str_eq a.player b.player
      && (str_eq a.stat b.stat && (str_eq a.side b.side && option_eq a.line b.line))

  unfoldable pub prop_prediction_key :
      Option String → Option String → Option String → Option F → PropKey F
  unfolding line_key
  prop_prediction_key player stat side line = record {
    player = text_of player;
    stat = lower (text_of stat);
    side = upper (text_of side);
    line = line_key line;
  }

  abbrev pub no_maps : Maps F
  no_maps = record { by_selection = []; by_side = []; by_prop = [] }

  module _ (normalize : String → String) where
    abbrev selection_key : PredictionItem F → TextPair
    selection_key p = prediction_key normalize p.market_type p.selection

    abbrev side_key : PredictionItem F → TextPair
    side_key p = (upper p.market_type, upper (text_of p.side))

    abbrev prop_key : PredictionItem F → PropKey F
    prop_key p = prop_prediction_key p.player_external_id p.stat_type p.side p.prop_line

    -- One prediction: a prop with a player and a side to the prop map, a team prediction to the
    -- team maps.
    unfoldable pub add_prediction : PredictionItem F → Maps F → Maps F
    unfolding is_prop_market prediction_key prop_prediction_key
    add_prediction p maps =
        if is_prop_market p.market_type
        then if is_set p.player_external_id && is_set p.side
          then record maps { by_prop = put same_prop (prop_key p) p maps.by_prop }
          else maps
        else record maps {
          by_selection = put same_pair (selection_key p) p maps.by_selection;
          by_side =
              if is_set p.side then put same_pair (side_key p) p maps.by_side else maps.by_side;
        }

    unfoldable pub prediction_maps : List (PredictionItem F) → Maps F → Maps F
    unfolding add_prediction
    prediction_maps [] maps = maps
    prediction_maps (p ∷ ps) maps = prediction_maps ps (add_prediction p maps)

  -- The prop prediction and the team prediction of a line.
  abbrev pub prop_for : Maps F → LineSnapshot F → Option (PredictionItem F)
  prop_for maps line =
      find same_prop
        (prop_prediction_key line.player_external_id line.stat_type (some line.side)
          line.line_value)
        maps.by_prop

  abbrev pub selection_for : (String → String) → Maps F → LineSnapshot F → Option (PredictionItem F)
  selection_for normalize maps line =
      find same_pair (prediction_key normalize line.market_type line.selection) maps.by_selection

  abbrev pub side_for : Maps F → LineSnapshot F → Option (PredictionItem F)
  side_for maps line =
      if not (str_eq line.side "")
      then find same_pair (upper line.market_type, upper line.side) maps.by_side
      else none

  -- `return p.predicted_probability, p` and `return 1.0 - p.predicted_probability, p`
  abbrev pub direct : PredictionItem F → F × PredictionItem F
  direct p = (p.predicted_probability, p)

  abbrev pub complement : PredictionItem F → F × PredictionItem F
  complement p = (whole 1 - p.predicted_probability, p)

  -- `if x is not None: return …`, else what follows
  abbrev pub or_next :
      (PredictionItem F → F × PredictionItem F)
      → Option (PredictionItem F)
      → Option (F × PredictionItem F)
      → Option (F × PredictionItem F)
  or_next priced none rest = rest
  or_next priced (some p) rest = some (priced p)

  -- The loop over the other sides of the group.
  unfoldable pub first_opposite :
      (LineSnapshot F → Option (PredictionItem F))
      → String
      → Sides F
      → Option (F × PredictionItem F)
  first_opposite predictions_of own [] = none
  first_opposite predictions_of own ((side, line) ∷ sides) =
      let rest = first_opposite predictions_of own sides in
      if str_eq side own then rest else or_next complement (predictions_of line) rest

  -- The fallback: only in a group of two.
  unfoldable pub complement_in :
      (LineSnapshot F → Option (PredictionItem F))
      → String
      → Sides F
      → Option (F × PredictionItem F)
  unfolding first_opposite
  complement_in predictions_of own group =
      let opposite = first_opposite predictions_of own group in
      if not (length group == 2) then none else opposite

  unfoldable pub match_prediction :
      (String → String) → Maps F → LineSnapshot F → Sides F → Option (F × PredictionItem F)
  unfolding is_prop_market prediction_key prop_prediction_key complement_in
  match_prediction normalize maps line group =
      let prop_fallback = complement_in (prop_for maps) line.side group in
      let team_fallback = complement_in (selection_for normalize maps) line.side group in
      if is_prop_market line.market_type
      then or_next direct (prop_for maps line) prop_fallback
      else or_next direct (side_for maps line)
          (or_next direct (selection_for normalize maps line) team_fallback)

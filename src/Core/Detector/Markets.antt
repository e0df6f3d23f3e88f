-- ===== src/Core/Detector/Markets.antt =====
-- core/edge_detector.py, `_group_markets` and `_devig_group`: the complete markets of a game's lines,
-- and their fair probabilities.
pub mod Groups
pub mod Total
use Prim.Native.Nat.{ℕ}
use bookie_breaker_agent.Prelude.{
  String, List, [], ◌∷◌, map, length, all, any, Option, none, some, Bool, true, false, not, ◌&&◌,
  ◌||◌, Result, ok, raise, value_error, api_error, other, ◌>>=◌, insert, find, put, upper, lower,
  text_of, ends_with, str_eq, ◌==◌, or_else, if◌then◌else◌,
}
use bookie_breaker_agent.Prelude.Int.{ℤ, pos}
use bookie_breaker_agent.Float.{Float, ◌-◌, ◌/◌, ◌+◌, ◌≤?◌, ◌<?◌, whole}
use bookie_breaker_agent.Clients.Payloads.{LineSnapshot}
use bookie_breaker_agent.Edges.Odds.{american_to_implied_prob}
use bookie_breaker_agent.Edges.Devig.{DevigMethod, devig, devig_many, abs}

unfoldable pub is_prop_market : String → Bool
unfolding ends_with
is_prop_market market_type = ends_with (upper market_type) "_PROP"

-- (sportsbook, market, line, player, stat)
pub record MarketKey {ℓ} (F : Type ℓ) : Type ℓ where
  pub sportsbook : String
  pub market : String
  pub line : Option F
  pub player : String
  pub stat : String

-- The lines of one market, by their side.
abbrev pub Sides {ℓ} : Type ℓ → Type ℓ
Sides F = List (String × LineSnapshot F)

abbrev pub is_zero : ℤ → Bool
is_zero (pos n) = n == 0
is_zero _ = false

-- The keys of a dict are the wanted ones, as sets.
abbrev pub has_sides {ℓ} : {V : Type ℓ} → List String → List (String × V) → Bool
has_sides wanted sides =
    (length sides == length wanted) && all (λ side. any (λ e. str_eq (e.0) side) sides) wanted

-- TWO_WAY_SIDE_SETS
abbrev pub two_way_side_sets : List (List String)
two_way_side_sets = ("HOME" ∷ "AWAY" ∷ []) ∷ ("OVER" ∷ "UNDER" ∷ []) ∷ ("YES" ∷ "NO" ∷ []) ∷ []

-- THREE_WAY_MONEYLINE_SIDES
abbrev pub three_way_moneyline_sides : List String
three_way_moneyline_sides = "HOME" ∷ "AWAY" ∷ "DRAW" ∷ []

-- SINGLE_SIDED_PROP_SIDES
abbrev pub single_sided_prop_sides : List (List String)
single_sided_prop_sides = ("YES" ∷ []) ∷ ("NO" ∷ []) ∷ []

-- `[x for x in xs]` of a step that may raise
abbrev pub map_result {ℓ κ} : {A : Type ℓ} {B : Type κ} → (A → Result B) → List A → Result (List B)
map_result g [] = ok []
map_result g (x ∷ xs) = do y ← g x; ys ← map_result g xs; ok (y ∷ ys)

-- `except ValueError: return None`
abbrev pub none_on_value_error {ℓ} : {A : Type ℓ} → Result A → Result (Option A)
none_on_value_error (ok a) = ok (some a)
none_on_value_error (raise (value_error m)) = ok none
none_on_value_error (raise (api_error e)) = raise (api_error e)
none_on_value_error (raise (other m)) = raise (other m)

module _ {ℓ} {F : Type ℓ} where
  abbrev pub is_yes_no : LineSnapshot F → Bool
  is_yes_no line =
      is_prop_market line.market_type && str_eq (upper (text_of line.prop_type)) "YES_NO"

  -- `_is_yes_no_prop`: of the first line.
  unfoldable pub is_yes_no_prop : Sides F → Bool
  unfolding is_prop_market
  is_yes_no_prop [] = false
  is_yes_no_prop ((side, line) ∷ rest) = is_yes_no line

  -- The test of a group that makes it complete.
  unfoldable pub is_complete : String → Sides F → Bool
  unfolding is_yes_no_prop
  is_complete market sides =
      any (λ wanted. has_sides wanted sides) two_way_side_sets
      || ((str_eq market "MONEYLINE" && has_sides three_way_moneyline_sides sides)
          || (any (λ wanted. has_sides wanted sides) single_sided_prop_sides
              && is_yes_no_prop sides))

  -- `list(zip(group_lines, true_probs, strict=True))`
  abbrev pub zip_strict : List (LineSnapshot F) → List F → Result (List (LineSnapshot F × F))
  zip_strict [] [] = ok []
  zip_strict (line ∷ lines) (p ∷ ps) = do rest ← zip_strict lines ps; ok ((line, p) ∷ rest)
  zip_strict _ _ = raise (value_error "zip() arguments have different lengths")

  module _ ⦃f : Float F⦄ where
    abbrev pub option_eq : Option F → Option F → Bool
    option_eq none none = true
    option_eq (some a) (some b) = (a ≤? b) && (b ≤? a)
    option_eq _ _ = false

    abbrev pub same_market : MarketKey F → MarketKey F → Bool
    same_market a b =
        str_eq a.sportsbook b.sportsbook
        && (str_eq a.market b.market
            && (option_eq a.line b.line && (str_eq a.player b.player && str_eq a.stat b.stat)))

    abbrev pub abs_line : Option F → Option F
    abs_line none = none
    abs_line (some v) = some (abs v)

    unfoldable pub market_key : LineSnapshot F → MarketKey F
    unfolding is_prop_market
    market_key line =
        let is_prop = is_prop_market (upper line.market_type) in
        record {
          sportsbook = line.sportsbook_key;
          market = upper line.market_type;
          line = abs_line line.line_value;
          player = if is_prop then text_of line.player_external_id else "";
          stat = if is_prop then lower (text_of line.stat_type) else "";
        }

    -- `groups.setdefault(key, {})[line.side] = line`, unless the line has no side or no price.
    unfoldable pub add_line :
        LineSnapshot F → List (MarketKey F × Sides F) → List (MarketKey F × Sides F)
    unfolding market_key
    add_line line groups =
        let key = market_key line in
        let sides = or_else [] (find same_market key groups) in
        if str_eq line.side "" || is_zero line.odds_american
        then groups
        else put same_market key (insert line.side line sides) groups

    unfoldable pub group_lines :
        List (LineSnapshot F) → List (MarketKey F × Sides F) → List (MarketKey F × Sides F)
    unfolding add_line
    group_lines [] groups = groups
    group_lines (line ∷ lines) groups = group_lines lines (add_line line groups)

    unfoldable pub complete_markets : List (MarketKey F × Sides F) → List (Sides F)
    unfolding is_complete
    complete_markets [] = []
    complete_markets ((key, sides) ∷ groups) =
        let rest = complete_markets groups in
        if is_complete key.market sides then sides ∷ rest else rest

    unfoldable pub group_markets : List (LineSnapshot F) → List (Sides F)
    unfolding group_lines complete_markets
    group_markets lines = complete_markets (group_lines lines [])

    -- The call of `devig` or `devig_many` inside the `try`.
    abbrev pub true_probs : DevigMethod → List F → Result (List F)
    true_probs method (a ∷ b ∷ []) = do (p, q) ← devig method a b; ok (p ∷ q ∷ [])
    true_probs method raws = devig_many method raws

    -- The lines with the probabilities, where the methods found any.
    abbrev pub zip_probs :
        List (LineSnapshot F) → Option (List F) → Result (Option (List (LineSnapshot F × F)))
    zip_probs lines none = ok none
    zip_probs lines (some ps) = do zipped ← zip_strict lines ps; ok (some zipped)

    unfoldable pub devig_group :
        DevigMethod → List (LineSnapshot F) → Result (Option (List (LineSnapshot F × F)))
    unfolding devig devig_many
    devig_group method lines = do
      raws ← map_result (λ line. american_to_implied_prob line.odds_american) lines
      probs ← none_on_value_error (true_probs method raws)
      zip_probs lines probs

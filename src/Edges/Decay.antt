-- ===== src/Edges/Decay.antt =====
-- edges/decay.py: exponential decay of edges, and the BET_NOW / WAIT / PASS decision.
pub mod Timing
use bookie_breaker_agent.Prelude.{
  String, List, [], ◌∷◌, Bool, true, ◌&&◌, ◌||◌, Option, none, some, upper, str_eq, if◌then◌else◌,
}
use bookie_breaker_agent.Float.{Float, ◌*◌, ◌/◌, ◌≤?◌, ◌<?◌, whole}
use bookie_breaker_agent.Edges.Ev.{get_or}

pub data BetDecision : Type 0 where
  bet_now wait pass : BetDecision

-- A dictionary keyed by (league, market).
abbrev pub lookup_pair {ℓ} : {V : Type ℓ} → String → String → List (String × String × V) → Option V
lookup_pair l m [] = none
lookup_pair l m ((j, k, v) ∷ rest) =
    if str_eq j l && str_eq k m then some v else lookup_pair l m rest

module _ {ℓ} {F : Type ℓ} ⦃f : Float F⦄ where
  abbrev pub half_lives : List (String × String × F)
  half_lives =
      ("NFL", "SPREAD", whole 24)
      ∷ ("NFL", "TOTAL", whole 18)
      ∷ ("NFL", "MONEYLINE", whole 24)
      ∷ ("NBA", "SPREAD", whole 8)
      ∷ ("NBA", "TOTAL", whole 6)
      ∷ ("NBA", "MONEYLINE", whole 8)
      ∷ ("MLB", "MONEYLINE", whole 4)
      ∷ ("MLB", "TOTAL", whole 4)
      ∷ ("NCAA_FB", "SPREAD", whole 36)
      ∷ ("NCAA_BB", "SPREAD", whole 12)
      ∷ ("NCAA_BB", "TOTAL", whole 10)
      ∷ ("NCAA_BSB", "MONEYLINE", whole 12)
      ∷ ("NCAA_BSB", "TOTAL", whole 12)
      ∷ []

  abbrev pub default_half_life_hours : F
  default_half_life_hours = f.decimal 120 1

  -- The source's `hours_until_game` argument is not used by its body.
  unfoldable pub estimate_edge_remaining : F → F → F → String → String → F
  estimate_edge_remaining initial_edge_pct hours_since_detection hours_until_game league
        market_type =
      let half_life =
        get_or default_half_life_hours
          (lookup_pair (upper league) (upper market_type) half_lives) in
      initial_edge_pct * f.power (f.decimal 5 1) (hours_since_detection / half_life)

  unfoldable pub expecting_new_info : F → String → Bool
  expecting_new_info hours_until_game league =
      let l = upper league in
      if str_eq l "NFL" && (whole 48 <? hours_until_game)
      then true
      else if (str_eq l "NBA" || str_eq l "NCAA_BB") && (whole 3 <? hours_until_game)
      then true
      else (str_eq l "MLB" || str_eq l "NCAA_BSB") && (whole 6 <? hours_until_game)

  unfoldable pub should_bet_now : F → F → F → String → String → BetDecision
  should_bet_now edge_pct edge_quality hours_until_game league market_type =
      let remaining =
        estimate_edge_remaining edge_pct hours_until_game (whole 0) league market_type in
      if (f.decimal 50 1 ≤? edge_pct) && (f.decimal 7 1 ≤? edge_quality)
      then bet_now
      else if (hours_until_game <? f.decimal 10 1) && (f.decimal 20 1 ≤? edge_pct)
      then bet_now
      else if f.decimal 20 1 ≤? remaining
      then (if expecting_new_info hours_until_game league then wait else bet_now)
      else if f.decimal 30 1 ≤? edge_pct
      then bet_now
      else pass

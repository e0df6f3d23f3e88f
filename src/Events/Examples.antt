-- ===== src/Events/Examples.antt =====
-- A live frame of the lines, and alerts with a cap of one text.
use bookie_breaker_agent.Prelude.{
  String, List, [], ◌∷◌, map, ◌≡◌, ◌≤◌, true, Option, none, some, ok, raise, other, Result,
}
use bookie_breaker_agent.Prelude.Int.{pos}
use bookie_breaker_agent.Float.Fixed.{Fixed, fixed_float}
use bookie_breaker_agent.Core.Bettor.Place.{EdgeRecord}
use bookie_breaker_agent.Core.DetectorExamples.{first_price}
use bookie_breaker_agent.Events.Subscriber.{Event, Wiring, Action, handle_message}
use bookie_breaker_agent.Events.Subscriber.Routing.{
  AllRouted, is_live_frame, handle_message-AllRouted,
}
use bookie_breaker_agent.Events.Alerts.{AlertConfig, dispatch_all}
use bookie_breaker_agent.Events.Alerts.Cap.{asked, dispatch_all-asked}

abbrev frame : String → Option Event
frame raw = some (record {
  game_ids = "g1" ∷ "g2" ∷ [];
  is_live = true;
  league = some "NBA";
  game_external_id = none;
})

abbrev all_wired : Wiring
all_wired = record { has_rerun = true; has_live = true }

abbrev no_leagues : List String → List String
no_leagues ids = []

abbrev works : Action → Result (Unit {0})
works a = ok tt

handle_message-AllRouted_example :
    AllRouted
      (is_live_frame "events:lines.updated" (frame "{}"))
      (handle_message frame no_leagues works all_wired "events:lines.updated" "{}")
handle_message-AllRouted_example =
    handle_message-AllRouted frame no_leagues works all_wired "events:lines.updated" "{}"

abbrev row : String → EdgeRecord Fixed
row id = record { id = id; edge = first_price; recommended_stake = pos 0; paper_bet_id = none }

abbrev one_text : AlertConfig
one_text = record { llm_enabled = true; has_llm = true; llm_max_per_run = 1 }

abbrev silent : EdgeRecord Fixed → Result String
silent r = raise (other "timeout")

abbrev template : EdgeRecord Fixed → String
template r = "edge"

abbrev lost : EdgeRecord Fixed → String → Result (Unit {0})
lost r text = raise (other "database")

abbrev two_rows : List (EdgeRecord Fixed)
two_rows = row "r1" ∷ row "r2" ∷ []

dispatch_all-asked_example :
    (map (λ a. a.edge_id) (dispatch_all one_text silent template lost two_rows) ≡ "r1" ∷ "r2" ∷ [])
    × (asked (dispatch_all one_text silent template lost two_rows) ≤ 1)
dispatch_all-asked_example = dispatch_all-asked one_text silent template lost two_rows

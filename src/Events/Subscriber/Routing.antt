-- ===== src/Events/Subscriber/Routing.antt =====
-- Where a message goes: live frames to the live debouncer and nowhere else.
use bookie_breaker_agent.Prelude.{
  String, List, [], ◌∷◌, ◌++◌, map, ◌≡◌, refl, true, false, inl, inr, Option, none, some, Bool, All,
  Result, str_eq, is_set, Bool-cases, if◌then◌else◌, Result-cases,
}
use bookie_breaker_agent.Events.Subscriber.{
  Event, Action, mark_stale, invalidate_caches, request_rerun, request_live, Wiring,
  request_live_evaluations, request_reruns, on_lines_updated, on_stats_updated, on_game_completed,
  dispatch, perform, actions_of, handle_message,
}

-- The call is on the live debouncer.
abbrev pub is_live_request : Action → Bool
is_live_request (request_live id) = true
is_live_request (mark_stale id) = false
is_live_request invalidate_caches = false
is_live_request (request_rerun league) = false

-- Every call is on the live debouncer exactly when the message is a live frame of the lines.
abbrev pub AllRouted : Bool → List Action → Type 0
AllRouted live actions = All (λ a. is_live_request a ≡ live) actions

abbrev pub is_live_frame : String → Option Event → Bool
is_live_frame channel none = false
is_live_frame channel (some event) =
    if str_eq channel "events:lines.updated" then event.is_live else false

All-map :
    (live : Bool) (action : String → Action) (ids : List String)
    → ((id : String) → is_live_request (action id) ≡ live)
    → AllRouted live (map action ids)
All-map live action [] h = tt
All-map live action (id ∷ ids) h = (h id, All-map live action ids h)

All-++ :
    (live : Bool) (xs ys : List Action)
    → AllRouted live xs
    → AllRouted live ys
    → AllRouted live (xs ++ ys)
All-++ live [] ys h hs = hs
All-++ live (x ∷ xs) ys (h, rest) hs = (h, All-++ live xs ys rest hs)

request_reruns-AllRouted :
    (leagues_for : List String → List String) (wiring : Wiring) (event : Event) (ids : List String)
    → AllRouted false (request_reruns leagues_for wiring event ids)
unfolding request_reruns
request_reruns-AllRouted leagues_for wiring event ids = elim (Bool-cases wiring.has_rerun) [
  | inr e ↦ rw e tt
  | inl e ↦ elim (Bool-cases (is_set event.league)) [
    | inl g ↦ rw (e, g) (refl, tt)
    | inr g ↦ rw (e, g) (All-map false request_rerun (leagues_for ids) (λ id. refl))
  ]
]

on_lines_updated-AllRouted :
    (leagues_for : List String → List String) (wiring : Wiring) (event : Event)
    → AllRouted event.is_live (on_lines_updated leagues_for wiring event)
unfolding on_lines_updated request_live_evaluations
on_lines_updated-AllRouted leagues_for wiring event = elim (Bool-cases event.is_live) [
  | inl e ↦ elim (Bool-cases wiring.has_live) [
    | inl g ↦ rw (e, g) (All-map true request_live event.game_ids (λ id. refl))
    | inr g ↦ rw (e, g) tt
  ]
  | inr e ↦ rw e (
      All-++ false (map mark_stale event.game_ids) _
        (All-map false mark_stale event.game_ids (λ id. refl))
        (refl, request_reruns-AllRouted leagues_for wiring event event.game_ids))
]

on_game_completed-AllRouted : (event : Event) → AllRouted false (on_game_completed event)
unfolding on_game_completed
on_game_completed-AllRouted event = elim (Bool-cases (is_set event.game_external_id)) [
  | inl e ↦ rw e (refl, (refl, tt))
  | inr e ↦ rw e (refl, tt)
]

actions_of-AllRouted :
    (leagues_for : List String → List String) (wiring : Wiring) (channel : String)
    (event : Option Event)
    → AllRouted (is_live_frame channel event) (actions_of leagues_for wiring channel event)
unfolding dispatch on_stats_updated
actions_of-AllRouted leagues_for wiring channel none = tt
actions_of-AllRouted leagues_for wiring channel (some event) =
    elim (Bool-cases (str_eq channel "events:lines.updated")) [
      | inl e ↦ rw e (on_lines_updated-AllRouted leagues_for wiring event)
      | inr e ↦ elim (Bool-cases (str_eq channel "events:stats.updated")) [
        | inl g ↦ rw (e, g) (request_reruns-AllRouted leagues_for wiring event [])
        | inr g ↦ elim (Bool-cases (str_eq channel "events:game.completed")) [
          | inl k ↦ rw (e, g, k) (on_game_completed-AllRouted event)
          | inr k ↦ rw (e, g, k) tt
        ]
      ]
    ]

perform-AllRouted :
    (live : Bool) (call : Action → Result (Unit {0})) (actions : List Action)
    → AllRouted live actions
    → AllRouted live (perform call actions)
unfolding perform
perform-AllRouted live call [] h = tt
perform-AllRouted live call (a ∷ actions) (h, hs) = elim (Result-cases (call a)) [
  | inl (u, e) ↦ rw e (h, perform-AllRouted live call actions hs)
  | inr (x, e) ↦ rw e (h, tt)
]

-- A live frame of the lines makes calls on the live debouncer only: it marks no edge stale,
-- drops no cache and requests no re-run. Any other message makes no call on the live debouncer.
pub handle_message-AllRouted :
    (loads : String → Option Event) (leagues_for : List String → List String)
    (call : Action → Result (Unit {0})) (wiring : Wiring) (channel raw : String)
    → AllRouted
        (is_live_frame channel (loads raw))
        (handle_message loads leagues_for call wiring channel raw)
unfolding handle_message
handle_message-AllRouted loads leagues_for call wiring channel raw =
    perform-AllRouted _ call _ (actions_of-AllRouted leagues_for wiring channel (loads raw))

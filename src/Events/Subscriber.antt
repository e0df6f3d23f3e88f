-- ===== src/Events/Subscriber.antt =====
-- events/subscriber.py, `handle_message` and its handlers, as the sequence of the calls that they make.
-- `json.loads` and the repository's `leagues_for_game_externals` are parameters.
pub mod Routing
use bookie_breaker_agent.Prelude.{
  ℕ, zero, suc, String, List, [], ◌∷◌, ◌++◌, map, Option, none, some, Bool, true, false, Result, ok,
  raise, ◌>>=◌, str_eq, text_of, is_set, if◌then◌else◌,
}
use bookie_breaker_agent.Float.{Float, ◌*◌, min, whole}

-- The fields of a payload that the handlers read; `league` is none where it is not a text.
pub record Event : Type 0 where
  pub game_ids : List String
  pub is_live : Bool
  pub league : Option String
  pub game_external_id : Option String

-- The calls of a handler: on the repository, on the caches, and on the two debouncers.
pub data Action : Type 0 where
  mark_stale : String → Action
  invalidate_caches : Action
  request_rerun : String → Action
  request_live : String → Action

-- Which of the optional collaborators there are.
pub record Wiring : Type 0 where
  pub has_rerun : Bool
  pub has_live : Bool

-- `_request_live_evaluations`
unfoldable pub request_live_evaluations : Wiring → List String → List Action
request_live_evaluations wiring ids = if wiring.has_live then map request_live ids else []

-- `_request_reruns`, where the league of the payload is wanted first.
unfoldable pub request_reruns :
    (List String → List String) → Wiring → Event → List String → List Action
request_reruns leagues_for wiring event ids =
    if wiring.has_rerun
    then (if is_set event.league
        then request_rerun (text_of event.league) ∷ []
        else map request_rerun (leagues_for ids))
    else []

unfoldable pub on_lines_updated : (List String → List String) → Wiring → Event → List Action
unfolding request_live_evaluations request_reruns
on_lines_updated leagues_for wiring event =
    if event.is_live
    then request_live_evaluations wiring event.game_ids
    else map mark_stale event.game_ids
      ++ (invalidate_caches ∷ request_reruns leagues_for wiring event event.game_ids)

unfoldable pub on_stats_updated : (List String → List String) → Wiring → Event → List Action
unfolding request_reruns
on_stats_updated leagues_for wiring event = request_reruns leagues_for wiring event []

unfoldable pub on_game_completed : Event → List Action
on_game_completed event =
    if is_set event.game_external_id
    then mark_stale (text_of event.game_external_id) ∷ invalidate_caches ∷ []
    else invalidate_caches ∷ []

unfoldable pub dispatch : (List String → List String) → Wiring → String → Event → List Action
unfolding on_lines_updated on_stats_updated on_game_completed
dispatch leagues_for wiring channel event =
    if str_eq channel "events:lines.updated"
    then on_lines_updated leagues_for wiring event
    else if str_eq channel "events:stats.updated"
    then on_stats_updated leagues_for wiring event
    else if str_eq channel "events:game.completed"
    then on_game_completed event
    else []

-- A call that raises ends the handler, and its exception is logged.
abbrev pub after_call_to : Action → Result (Unit {0}) → List Action → List Action
after_call_to a (ok u) rest = a ∷ rest
after_call_to a (raise e) rest = a ∷ []

-- The calls that were made.
unfoldable pub perform : (Action → Result (Unit {0})) → List Action → List Action
perform call [] = []
perform call (a ∷ actions) = after_call_to a (call a) (perform call actions)

-- A payload that is no JSON object is ignored.
abbrev pub actions_of : (List String → List String) → Wiring → String → Option Event → List Action
actions_of leagues_for wiring channel none = []
actions_of leagues_for wiring channel (some event) = dispatch leagues_for wiring channel event

unfoldable pub handle_message :
    (String → Option Event)
    → (List String → List String)
    → (Action → Result (Unit {0}))
    → Wiring
    → String
    → String
    → List Action
unfolding dispatch perform
handle_message loads leagues_for call wiring channel raw =
    perform call (actions_of leagues_for wiring channel (loads raw))

module _ {ℓ} {F : Type ℓ} ⦃f : Float F⦄ where
  -- The wait before the attempt after `n` failures in a row.
  unfoldable pub backoff : F → ℕ → F
  backoff max_backoff zero = f.decimal 10 1
  backoff max_backoff (suc n) = min (backoff max_backoff n * whole 2) max_backoff

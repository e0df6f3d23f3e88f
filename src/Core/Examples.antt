-- ===== src/Core/Examples.antt =====
-- A live game, a debouncer with an event in flight, and a tick over two schedules.
use Prim.Native.Nat
use bookie_breaker_agent.Prelude.{
  ◌≡◌, refl, String, Option, none, some, true, false, arith, ℕ, upper, lookup, List, [], ◌∷◌, All,
  str_eq, if◌then◌else◌,
}
use bookie_breaker_agent.Prelude.Int.{pos}
use bookie_breaker_agent.Float.{◌≤◌}
use bookie_breaker_agent.Float.Fixed.{fixed_float}
use bookie_breaker_agent.Float.Fixed.Laws.{Fixed-IsFloat}
use bookie_breaker_agent.Float.Time.{DateTime}
use bookie_breaker_agent.Core.Live.State.{LiveGame, derive_live_state, fraction_of}
use bookie_breaker_agent.Core.Live.State.Fraction.{derive_live_state_anti}
use bookie_breaker_agent.Core.Live.Debouncer.{
  Debouncer, initial, request, debounced_fire, event, time_passes, timer_fires, start, after,
  Reachable,
}
use bookie_breaker_agent.Core.Live.Debouncer.Sound.{IsSound, Reachable-IsSound}
use bookie_breaker_agent.Core.Scheduler.{
  Schedule, StartOutcome, started, tick, and_then, handle, handle_due, fire, fire_next, after_start,
  ensure_next_run, earliest,
}
use bookie_breaker_agent.Core.Scheduler.Tick.{IsPlanned, IsDue, tick-IsPlanned, tick-IsDue}

abbrev nba_game : LiveGame
nba_game = record {
  status = "in_progress";
  league = "nba";
  scheduled_start = "2026-01-01T00:00:00Z";
  home_score = some 55;
  away_score = none;
}

abbrev starts_at_zero : String → Option DateTime
starts_at_zero text = some 0

-- After two hours no more than the end of the clamp is left.
derive_live_state_anti_example : pos 90_900 ≤ pos 500_000
unfolding derive_live_state fraction_of upper lookup
derive_live_state_anti_example =
    derive_live_state_anti Fixed-IsFloat starts_at_zero nba_game 3_960_000_000 7_200_000_000
      (record { home = 55; away = 0; fraction_remaining = pos 500_000 })
      (record { home = 55; away = 0; fraction_remaining = pos 90_900 }) (omega arith) refl refl

-- An event at time 0, its evaluation at time 5, and an event while it runs.
abbrev fired : Debouncer
fired = record {
  now = 5;
  armed = false;
  deadline = 5;
  running = true;
  pending = false;
  alive = 1;
  armed_at = 0;
  unseen = false;
}

abbrev busy : Debouncer
busy = record fired { armed = true; deadline = 10; armed_at = 5; unseen = true }

busy-Reachable : Reachable 5 busy
unfolding request debounced_fire
busy-Reachable =
    let waiting = record initial { armed = true; deadline = 5; armed_at = 0; unseen = true } in
    let due = record waiting { now = 5 } in
    after
      (after (after (after start (event initial)) (time_passes waiting 5))
        (timer_fires due refl (omega arith)))
      (event fired)

Reachable-IsSound_example : IsSound 5 busy
Reachable-IsSound_example = Reachable-IsSound 5 busy busy-Reachable

-- Every schedule fires an hour after the time that is asked for, and one does not compute.
abbrev hourly : String → String → ℕ → Option ℕ
hourly cron zone now = if str_eq cron "bad" then none else some (Nat.◌+◌ now 3600)

hourly-lt : (cron zone : String) (now t : ℕ) → hourly cron zone now ≡ some t → Nat.◌<◌ now t
hourly-lt cron zone now t h = ground arith

abbrev always_starts : Schedule → StartOutcome
always_starts s = started

abbrev schedule_at : String → Option ℕ → Schedule
schedule_at name next = record {
  id = name;
  league = "NBA";
  cron_expression = "0 * * * *";
  timezone = "UTC";
  next_run_at = next;
  last_run_at = none;
}

-- One due 30 seconds ago, one due long ago, one never computed.
abbrev three_schedules : List Schedule
three_schedules =
    schedule_at "a" (some 9_970) ∷ schedule_at "b" (some 100) ∷ schedule_at "c" none ∷ []

tick-IsPlanned_example :
    All
      (λ row.
        IsPlanned 10_000
          (earliest (tick hourly always_starts 60 three_schedules 10_000).upcoming)
          row.next_run_at)
      (tick hourly always_starts 60 three_schedules 10_000).rows
unfolding tick and_then handle handle_due fire fire_next after_start ensure_next_run
tick-IsPlanned_example =
    tick-IsPlanned hourly always_starts 60 hourly-lt three_schedules 10_000 refl

tick-IsDue_example :
    All
      (λ run. IsDue 60 10_000 (some run.1))
      (tick hourly always_starts 60 three_schedules 10_000).runs
tick-IsDue_example = tick-IsDue hourly always_starts 60 hourly-lt three_schedules 10_000

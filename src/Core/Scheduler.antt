-- ===== src/Core/Scheduler.antt =====
-- core/scheduler.py: one tick of the scheduler. Times are seconds; `next_fire` computes with croniter
-- and the time zone database, and is a parameter that gives nothing where it raises. The table's
-- rows are keyed by id, so that what the repository writes for a schedule is written in its row.
-- The daily summary, whose time `_tick` adds to `upcoming` as well, is not part of the model.
pub mod Tick
use Prim.Native.Nat
use bookie_breaker_agent.Prelude.{
  ℕ, String, List, [], ◌∷◌, ◌++◌, Option, none, some, Bool, true, false, leb, ltb, if◌then◌else◌,
}

pub record Schedule : Type 0 where
  pub id : String
  pub league : String
  pub cron_expression : String
  pub timezone : String
  pub next_run_at : Option ℕ
  pub last_run_at : Option ℕ

-- What `start_run` ends with: the run, an ApiError (a duplicate included), or another exception.
pub data StartOutcome : Type 0 where
  started refused crashed : StartOutcome

-- What the tick did with a schedule: its row, the run it started, the time it adds to `upcoming`, and
-- whether an exception left the tick.
pub record Handled : Type 0 where
  pub row : Schedule
  -- the time for which a run was started
  pub due : Option ℕ
  pub upcoming : Option ℕ
  pub raised : Bool

-- What a tick did with all of them.
pub record Ticked : Type 0 where
  pub rows : List Schedule
  -- the schedules that started a run, and when each was due
  pub runs : List (Schedule × ℕ)
  pub upcoming : List ℕ
  pub failed : Bool

abbrev pub add_run : Schedule → Option ℕ → List (Schedule × ℕ) → List (Schedule × ℕ)
add_run schedule none runs = runs
add_run schedule (some at) runs = (schedule, at) ∷ runs

abbrev pub add_time : Option ℕ → List ℕ → List ℕ
add_time none times = times
add_time (some t) times = t ∷ times

module _ (next_fire : String → String → ℕ → Option ℕ) (start_run : Schedule → StartOutcome)
    (grace : ℕ) where
  -- `_ensure_next_run`, at what the row holds and what `next_fire` gives: the row, and the time.
  abbrev pub ensured : Option ℕ → Option ℕ → Schedule → Schedule × Option ℕ
  ensured (some at) computed schedule = (schedule, some at)
  ensured none (some at) schedule = (record schedule { next_run_at = some at }, some at)
  ensured none none schedule = (schedule, none)

  unfoldable pub ensure_next_run : Schedule → ℕ → Schedule × Option ℕ
  ensure_next_run schedule now =
      ensured schedule.next_run_at (next_fire schedule.cron_expression schedule.timezone now)
        schedule

  -- `mark_ran`
  abbrev pub mark_ran : Schedule → ℕ → ℕ → Schedule
  mark_ran schedule now next = record schedule { next_run_at = some next; last_run_at = some now }

  -- The end of `_fire` and of the loop's body, at what `start_run` gave.
  unfoldable pub after_start : StartOutcome → Schedule → ℕ → ℕ → ℕ → Handled
  after_start started schedule fire_at now next = record {
    row = mark_ran schedule now next;
    due = some fire_at;
    upcoming = some next;
    raised = false;
  }
  after_start refused schedule fire_at now next = record {
    row = mark_ran schedule now next;
    due = none;
    upcoming = some next;
    raised = false;
  }
  after_start crashed schedule fire_at now next = record {
    row = schedule;
    due = none;
    upcoming = none;
    raised = true;
  }

  -- `_fire` and `refreshed_next`, at what `next_fire` gives.
  unfoldable pub fire_next : Option ℕ → Schedule → ℕ → ℕ → Handled
  unfolding after_start
  fire_next none schedule fire_at now = record {
    row = schedule;
    due = none;
    upcoming = none;
    raised = true;
  }
  fire_next (some next) schedule fire_at now =
      if ltb grace (Nat.◌-◌ now fire_at)
      then record {
        row = record schedule { next_run_at = some next };
        due = none;
        upcoming = some next;
        raised = false;
      }
      else after_start (start_run schedule) schedule fire_at now next

  unfoldable pub fire : Schedule → ℕ → ℕ → Handled
  unfolding fire_next
  fire schedule fire_at now =
      fire_next (next_fire schedule.cron_expression schedule.timezone now) schedule fire_at now

  -- The rest of the loop's body.
  unfoldable pub handle_due : Schedule × Option ℕ → ℕ → Handled
  unfolding fire
  handle_due (row, none) now = record { row = row; due = none; upcoming = none; raised = false }
  handle_due (row, some at) now =
      if leb at now
      then fire row at now
      else record { row = row; due = none; upcoming = some at; raised = false }

  unfoldable pub handle : Schedule → ℕ → Handled
  unfolding ensure_next_run handle_due
  handle schedule now = handle_due (ensure_next_run schedule now) now

  -- What a handled schedule adds to what the rest of the loop does.
  unfoldable pub and_then : Schedule → Handled → Ticked → Ticked
  and_then schedule h rest = record {
    rows = h.row ∷ rest.rows;
    runs = add_run schedule h.due rest.runs;
    upcoming = add_time h.upcoming rest.upcoming;
    failed = rest.failed;
  }

  -- The loop of `_tick`: an exception leaves the schedules that follow as they are.
  unfoldable pub tick : List Schedule → ℕ → Ticked
  unfolding and_then
  tick [] now = record { rows = []; runs = []; upcoming = []; failed = false }
  tick (schedule ∷ schedules) now =
      let h = handle schedule now in
      let rest = tick schedules now in
      if h.raised
      then record { rows = h.row ∷ schedules; runs = []; upcoming = []; failed = true }
      else and_then schedule h rest

abbrev pub sooner : ℕ → Option ℕ → ℕ
sooner t none = t
sooner t (some u) = if leb t u then t else u

-- `min(upcoming) if upcoming else None`
unfoldable pub earliest : List ℕ → Option ℕ
earliest [] = none
earliest (t ∷ ts) = some (sooner t (earliest ts))

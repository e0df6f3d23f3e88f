-- ===== src/Core/Rerun.antt =====
-- core/rerun.py: one league's event re-runs. A request cancels the league's task wherever it is,
-- in its sleep or while it waits for the run to start, and arms a new one.
pub mod Spacing
use bookie_breaker_agent.Prelude.{
  ℕ, ◌+◌, ◌≤◌, ◌≡◌, List, [], ◌∷◌, Option, none, some, Bool, true, false, ltb, if◌then◌else◌,
}

-- Where the league's task is: done, asleep until a time, or past its cooldown check, which it made
-- at a time, and waiting for the schedule repository and for `start_run`.
pub data Phase : Type 0 where
  idle : Phase
  sleeping : ℕ → Phase
  starting : ℕ → Phase

-- How the wait ends: a run was started, or none was (no enabled schedule, or an error).
pub data Answer : Type 0 where
  run_started no_run : Answer

pub record Rerun : Type 0 where
  pub now : ℕ
  pub phase : Phase
  -- `_last_fired[league]`
  pub last_fired : Option ℕ
  -- For the statements only: when the runs were decided whose start came through, the last first.
  pub starts : List ℕ

abbrev pub at_rest : Rerun
at_rest = record { now = 0; phase = idle; last_fired = none; starts = [] }

unfoldable pub request_rerun : Bool → ℕ → Rerun → Rerun
request_rerun enabled debounce s =
    if enabled then record s { phase = sleeping (s.now + debounce) } else s

-- (now - last).total_seconds() < cooldown
abbrev pub is_cooling : ℕ → ℕ → Option ℕ → Bool
is_cooling cooldown now none = false
is_cooling cooldown now (some last) = ltb now (last + cooldown)

-- `_fire`, up to its first await.
unfoldable pub fire_rerun : ℕ → Rerun → Rerun
fire_rerun cooldown s =
    if is_cooling cooldown s.now s.last_fired
    then record s { phase = idle }
    else record s { phase = starting s.now }

-- The rest of `_fire`, whose `now` is the time of the check.
unfoldable pub answered : Answer → ℕ → Rerun → Rerun
answered run_started at s = record s { phase = idle; last_fired = some at; starts = at ∷ s.starts }
answered no_run at s = record s { phase = idle }

module _ (enabled : Bool) (debounce cooldown : ℕ) where
  pub data RerunStep : Rerun → Rerun → Type 0 where
    clock_moves : (s : Rerun) (t : ℕ) → RerunStep s (record s { now = s.now + t })
    requested : (s : Rerun) → RerunStep s (request_rerun enabled debounce s)
    wakes :
        (s : Rerun) (deadline : ℕ)
        → s.phase ≡ sleeping deadline
        → deadline ≤ s.now
        → RerunStep s (fire_rerun cooldown s)
    answers :
        (s : Rerun) (at : ℕ) (answer : Answer)
        → s.phase ≡ starting at
        → RerunStep s (answered answer at s)

  pub data RerunReachable : Rerun → Type 0 where
    begins : RerunReachable at_rest
    follows : {s t : Rerun} → RerunReachable s → RerunStep s t → RerunReachable t

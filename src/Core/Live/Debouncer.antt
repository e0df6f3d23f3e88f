-- ===== src/Core/Live/Debouncer.antt =====
-- core/live.py, class LiveDebouncer: one game's timer, evaluation and pending flag. Every operation
-- but `stop` touches the entries of its own game only, so that the debouncer is one such machine
-- per game. Between its awaits a coroutine runs alone: each operation is one step.
pub mod Sound
use bookie_breaker_agent.Prelude.{ℕ, suc, ◌+◌, ◌-◌, ◌≤◌, ◌≡◌, Bool, true, false, if◌then◌else◌}

pub record Debouncer : Type 0 where
  -- the clock of the event loop
  pub now : ℕ
  -- `_timers[game]` is there and not done, and when it fires
  pub armed : Bool
  pub deadline : ℕ
  -- `_running[game]` is there and not done
  pub running : Bool
  -- `game in _pending`
  pub pending : Bool
  -- For the statements only: the evaluation tasks alive, when the timer was last armed, and whether
  -- an event came in after the last evaluation had started.
  pub alive : ℕ
  pub armed_at : ℕ
  pub unseen : Bool

abbrev pub initial : Debouncer
initial = record {
  now = 0;
  armed = false;
  deadline = 0;
  running = false;
  pending = false;
  alive = 0;
  armed_at = 0;
  unseen = false;
}

unfoldable pub request : ℕ → Debouncer → Debouncer
request debounce s = record s {
  armed = true;
  deadline = s.now + debounce;
  armed_at = s.now;
  unseen = true;
}

-- `_debounced_fire`, after its sleep.
unfoldable pub debounced_fire : Debouncer → Debouncer
debounced_fire s =
    if s.running
    then record s { armed = false; pending = true }
    else record s { armed = false; running = true; alive = suc s.alive; unseen = false }

-- `_evaluate`, when the evaluation returned or failed: its `finally`, and the end of the task.
unfoldable pub evaluated : ℕ → Debouncer → Debouncer
unfolding request
evaluated debounce s =
    let done = record s { running = false; alive = s.alive - 1 } in
    if s.pending then request debounce (record done { pending = false }) else done

-- `stop`: the timer and the evaluation are cancelled, and a cancelled evaluation drops the flag.
unfoldable pub stop : Debouncer → Debouncer
stop s = record s {
  armed = false;
  running = false;
  pending = false;
  alive = s.alive - (if s.running then 1 else 0);
  unseen = false;
}

-- What may happen next.
pub data Step (debounce : ℕ) : Debouncer → Debouncer → Type 0 where
  time_passes : (s : Debouncer) (t : ℕ) → Step debounce s (record s { now = s.now + t })
  event : (s : Debouncer) → Step debounce s (request debounce s)
  timer_fires :
      (s : Debouncer) → s.armed ≡ true → s.deadline ≤ s.now → Step debounce s (debounced_fire s)
  evaluation_ends : (s : Debouncer) → s.running ≡ true → Step debounce s (evaluated debounce s)
  stops : (s : Debouncer) → Step debounce s (stop s)

pub data Reachable (debounce : ℕ) : Debouncer → Type 0 where
  start : Reachable debounce initial
  after : {s t : Debouncer} → Reachable debounce s → Step debounce s t → Reachable debounce t

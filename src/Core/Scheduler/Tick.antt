-- ===== src/Core/Scheduler/Tick.antt =====
-- A tick moves every schedule past the present, wakes up in time for the next, and starts no run
-- that is early or older than the grace.
use Prim.Native.Nat
use mathlib.Core.Path.{subst}
use bookie_breaker_agent.Prelude.{
  ℕ, String, List, [], ◌∷◌, All, Option, none, some, true, false, leb, ltb, ◌≡◌, ◌≢◌, refl, inl,
  inr, Bool-cases, arith, sym,
}
use bookie_breaker_agent.Core.Scheduler.{
  sooner, add_time, add_run, ensured, fire_next, handle_due, Schedule, StartOutcome, started,
  refused, crashed, Handled, ensure_next_run, after_start, fire, handle, and_then, tick, earliest,
}

-- Later than now, if there is a time.
abbrev pub IsAfter : ℕ → Option ℕ → Type 0
IsAfter now none = Unit
IsAfter now (some t) = Nat.◌<◌ now t

-- Due by now, and not longer ago than the grace.
abbrev pub IsDue : (grace now : ℕ) → Option ℕ → Type 0
IsDue grace now none = Unit
IsDue grace now (some t) = Nat.◌≤◌ t now × Nat.◌≤◌ now (Nat.◌+◌ t grace)

-- The wakeup is no later than the time.
abbrev pub NoLater : Option ℕ → ℕ → Type 0
NoLater none t = ⊥
NoLater (some w) t = Nat.◌≤◌ w t

-- A row's next time is still to come, and the wakeup is no later.
abbrev pub IsPlanned : ℕ → Option ℕ → Option ℕ → Type 0
IsPlanned now wakeup none = Unit
IsPlanned now wakeup (some t) = Nat.◌<◌ now t × NoLater wakeup t

sooner-le_left : (t : ℕ) (u : Option ℕ) → Nat.◌≤◌ (sooner t u) t
sooner-le_left t none = omega arith
sooner-le_left t (some u) = ground arith

sooner-NoLater : (s t : ℕ) (u : Option ℕ) → NoLater u t → Nat.◌≤◌ (sooner s u) t
sooner-NoLater s t none h = absurd h
sooner-NoLater s t (some u) h = ground arith

add_time-NoLater :
    (time : Option ℕ) (times : List ℕ) (t : ℕ)
    → NoLater (earliest times) t
    → NoLater (earliest (add_time time times)) t
unfolding earliest
add_time-NoLater none times t h = h
add_time-NoLater (some s) times t h = sooner-NoLater s t (earliest times) h

add_time-IsPlanned :
    (now : ℕ) (time : Option ℕ) (times : List ℕ) (next : Option ℕ)
    → IsPlanned now (earliest times) next
    → IsPlanned now (earliest (add_time time times)) next
add_time-IsPlanned now time times none h = tt
add_time-IsPlanned now time times (some t) (h, k) = (h, add_time-NoLater time times t k)

own_time-IsPlanned :
    (now : ℕ) (time : Option ℕ) (times : List ℕ)
    → IsAfter now time
    → IsPlanned now (earliest (add_time time times)) time
unfolding earliest
own_time-IsPlanned now none times h = tt
own_time-IsPlanned now (some t) times h = (h, sooner-le_left t (earliest times))

All-IsPlanned :
    (now : ℕ) (time : Option ℕ) (times : List ℕ) (rows : List Schedule)
    → All (λ row. IsPlanned now (earliest times) row.next_run_at) rows
    → All (λ row. IsPlanned now (earliest (add_time time times)) row.next_run_at) rows
All-IsPlanned now time times [] h = tt
All-IsPlanned now time times (row ∷ rows) (h, hs) =
    (add_time-IsPlanned now time times row.next_run_at h, All-IsPlanned now time times rows hs)

add_run-IsDue :
    (grace now : ℕ) (s : Schedule) (due : Option ℕ) (runs : List (Schedule × ℕ))
    → IsDue grace now due
    → All (λ run. IsDue grace now (some run.1)) runs
    → All (λ run. IsDue grace now (some run.1)) (add_run s due runs)
add_run-IsDue grace now s none runs h hs = hs
add_run-IsDue grace now s (some t) runs h hs = (h, hs)

true-ne-false : true ≢ false
true-ne-false h = cc

module _ (next_fire : String → String → ℕ → Option ℕ) (start_run : Schedule → StartOutcome)
    (grace : ℕ)
    (later : (cron zone : String) (now t : ℕ)
      → next_fire cron zone now ≡ some t
      → Nat.◌<◌ now t) where
  -- What is true of a handled schedule.
  pub record IsHandled (now : ℕ) (h : Handled) : Type 0 where
    pub same_time : h.raised ≡ false → h.row.next_run_at ≡ h.upcoming
    pub ahead : IsAfter now h.upcoming
    pub in_grace : IsDue grace now h.due

  after_start-IsHandled :
      (outcome : StartOutcome) (s : Schedule) (fire_at now next : ℕ)
      → Nat.◌<◌ now next
      → Nat.◌≤◌ fire_at now
      → Nat.◌≤◌ now (Nat.◌+◌ fire_at grace)
      → IsHandled now (after_start next_fire start_run grace outcome s fire_at now next)
  unfolding after_start
  after_start-IsHandled started s fire_at now next h k g = record {
    same_time = λ _. refl;
    ahead = h;
    in_grace = (k, g);
  }
  after_start-IsHandled refused s fire_at now next h k g = record {
    same_time = λ _. refl;
    ahead = h;
    in_grace = tt;
  }
  after_start-IsHandled crashed s fire_at now next h k g = record {
    same_time = λ e. cc;
    ahead = tt;
    in_grace = tt;
  }

  fire_next-IsHandled :
      (next : Option ℕ) (s : Schedule) (fire_at now : ℕ)
      → IsAfter now next
      → Nat.◌≤◌ fire_at now
      → IsHandled now (fire_next next_fire start_run grace next s fire_at now)
  unfolding fire_next
  fire_next-IsHandled none s fire_at now ahead h = record {
    same_time = λ k. cc;
    ahead = tt;
    in_grace = tt;
  }
  fire_next-IsHandled (some next) s fire_at now ahead h =
      elim (Bool-cases (ltb grace (Nat.◌-◌ now fire_at))) [
        | inl g ↦ rw g (record { same_time = λ _. refl; ahead = ahead; in_grace = tt })
        | inr g ↦
            rw g (after_start-IsHandled (start_run s) s fire_at now next ahead h (ground arith))
      ]

  next_fire-IsAfter :
      (cron zone : String) (now : ℕ) (t : Option ℕ) → next_fire cron zone now ≡ t → IsAfter now t
  next_fire-IsAfter cron zone now none e = tt
  next_fire-IsAfter cron zone now (some t) e = later cron zone now t e

  handle_due-IsHandled :
      (r : Schedule × Option ℕ) (now : ℕ)
      → (r.0).next_run_at ≡ r.1
      → IsHandled now (handle_due next_fire start_run grace r now)
  unfolding handle_due fire
  handle_due-IsHandled (row, none) now e = record { same_time = λ _. e; ahead = tt; in_grace = tt }
  handle_due-IsHandled (row, some at) now e = elim (Bool-cases (leb at now)) [
    | inl g ↦ rw g (
        fire_next-IsHandled _ row at now
          (next_fire-IsAfter row.cron_expression row.timezone now _ refl) (ground arith))
    | inr g ↦ rw g (record { same_time = λ _. e; ahead = ground arith; in_grace = tt })
  ]

  ensured-next_run_at :
      (existing computed : Option ℕ) (s : Schedule)
      → s.next_run_at ≡ existing
      → ((ensured next_fire start_run grace existing computed s).0).next_run_at
        ≡ (ensured next_fire start_run grace existing computed s).1
  ensured-next_run_at (some at) computed s e = e
  ensured-next_run_at none (some at) s e = refl
  ensured-next_run_at none none s e = e

  handle-IsHandled :
      (s : Schedule) (now : ℕ) → IsHandled now (handle next_fire start_run grace s now)
  unfolding handle ensure_next_run
  handle-IsHandled s now =
      handle_due-IsHandled _ now
        (ensured-next_run_at s.next_run_at (next_fire s.cron_expression s.timezone now) s refl)

  -- Where croniter gives times after the present, a scheduler tick that no exception left has
  -- moved the next time of every schedule that has one past the present, and returns a wakeup no
  -- later than any of them.
  pub tick-IsPlanned :
      (schedules : List Schedule) (now : ℕ)
      → (tick next_fire start_run grace schedules now).failed ≡ false
      → All
          (λ row.
            IsPlanned now
              (earliest (tick next_fire start_run grace schedules now).upcoming)
              row.next_run_at)
          (tick next_fire start_run grace schedules now).rows
  unfolding tick and_then
  tick-IsPlanned [] now h = tt
  tick-IsPlanned (s ∷ schedules) now h =
      let handled = handle next_fire start_run grace s now in
      let rest = tick next_fire start_run grace schedules now in
      let good = handle-IsHandled s now in
      elim (Bool-cases handled.raised) [
        | inl e ↦ absurd (true-ne-false (rw e at h))
        | inr e ↦ rw e (
          subst (IsPlanned now (earliest (add_time handled.upcoming rest.upcoming)))
              (sym (good.same_time e))
              (own_time-IsPlanned now handled.upcoming rest.upcoming good.ahead),
          All-IsPlanned now handled.upcoming rest.upcoming rest.rows
              (tick-IsPlanned schedules now (rw e at h)),
        )
      ]

  -- Where croniter gives times after the present, every run that a scheduler tick starts was due
  -- by the present, and by no longer than the misfire grace.
  pub tick-IsDue :
      (schedules : List Schedule) (now : ℕ)
      → All
          (λ run. IsDue grace now (some run.1))
          (tick next_fire start_run grace schedules now).runs
  unfolding tick and_then
  tick-IsDue [] now = tt
  tick-IsDue (s ∷ schedules) now =
      let handled = handle next_fire start_run grace s now in
      let rest = tick next_fire start_run grace schedules now in
      elim (Bool-cases handled.raised) [
        | inl e ↦ rw e tt
        | inr e ↦ rw e (
            add_run-IsDue grace now s handled.due rest.runs (handle-IsHandled s now).in_grace
              (tick-IsDue schedules now))
      ]

-- ===== src/Core/Rerun/Spacing.antt =====
-- Event runs of a league are spaced by the cooldown.
use bookie_breaker_agent.Prelude.{
  ℕ, ◌+◌, ◌≤◌, ◌≡◌, refl, List, [], ◌∷◌, Option, none, some, Bool, true, false, Bool-cases, inl,
  inr, arith,
}
use mathlib.Core.Path.{subst}
use bookie_breaker_agent.Core.Rerun.{
  Phase, idle, sleeping, starting, Answer, run_started, no_run, Rerun, request_rerun, is_cooling,
  fire_rerun, answered, RerunStep, clock_moves, requested, wakes, answers, RerunReachable, begins,
  follows,
}

-- At least the cooldown after the last one, if there is one.
abbrev pub IsApart : ℕ → ℕ → Option ℕ → Type 0
IsApart cooldown at none = Unit
IsApart cooldown at (some last) = last + cooldown ≤ at

abbrev pub first_of : List ℕ → Option ℕ
first_of [] = none
first_of (t ∷ ts) = some t

-- Each start is at least the cooldown after the one before it.
abbrev pub IsSpaced : ℕ → List ℕ → Type 0
IsSpaced cooldown [] = Unit
IsSpaced cooldown (t ∷ ts) = IsApart cooldown t (first_of ts) × IsSpaced cooldown ts

abbrev IsAllowed : ℕ → Phase → Option ℕ → Type 0
IsAllowed cooldown idle last = Unit
IsAllowed cooldown (sleeping d) last = Unit
IsAllowed cooldown (starting t) last = IsApart cooldown t last

record IsCooled (cooldown : ℕ) (s : Rerun) : Type 0 where
  recorded : s.last_fired ≡ first_of s.starts
  spaced : IsSpaced cooldown s.starts
  allowed : IsAllowed cooldown s.phase s.last_fired

not_cooling-IsApart :
    (cooldown now : ℕ) (last : Option ℕ)
    → is_cooling cooldown now last ≡ false
    → IsApart cooldown now last
not_cooling-IsApart cooldown now none h = tt
not_cooling-IsApart cooldown now (some l) h = ground arith

module _ (enabled : Bool) (debounce cooldown : ℕ) where
  request_rerun-IsCooled :
      (s : Rerun) (on : Bool)
      → IsCooled cooldown s
      → IsCooled cooldown (request_rerun on debounce s)
  unfolding request_rerun
  request_rerun-IsCooled s false h = h
  request_rerun-IsCooled s true h = record {
    recorded = h.recorded;
    spaced = h.spaced;
    allowed = tt;
  }

  fire_rerun-IsCooled :
      (s : Rerun) → IsCooled cooldown s → IsCooled cooldown (fire_rerun cooldown s)
  unfolding fire_rerun
  fire_rerun-IsCooled s h = elim (Bool-cases (is_cooling cooldown s.now s.last_fired)) [
    | inl e ↦ rw e (record { recorded = h.recorded; spaced = h.spaced; allowed = tt })
    | inr e ↦ rw e (record {
      recorded = h.recorded;
      spaced = h.spaced;
      allowed = not_cooling-IsApart cooldown s.now s.last_fired e;
    })
  ]

  answered-IsCooled :
      (answer : Answer) (at : ℕ) (s : Rerun)
      → s.phase ≡ starting at
      → IsCooled cooldown s
      → IsCooled cooldown (answered answer at s)
  unfolding answered
  answered-IsCooled no_run at s e h = record {
    recorded = h.recorded;
    spaced = h.spaced;
    allowed = tt;
  }
  answered-IsCooled run_started at s e h =
      let apart : IsApart cooldown at s.last_fired =
        subst (λ p. IsAllowed cooldown p s.last_fired) e h.allowed in
      record {
        recorded = refl;
        spaced = (subst (IsApart cooldown at) h.recorded apart, h.spaced);
        allowed = tt;
      }

  RerunStep-IsCooled :
      {s t : Rerun}
      → RerunStep enabled debounce cooldown s t
      → IsCooled cooldown s
      → IsCooled cooldown t
  RerunStep-IsCooled (clock_moves s t) h = record {
    recorded = h.recorded;
    spaced = h.spaced;
    allowed = h.allowed;
  }
  RerunStep-IsCooled (requested s) h = request_rerun-IsCooled s enabled h
  RerunStep-IsCooled (wakes s deadline e due) h = fire_rerun-IsCooled s h
  RerunStep-IsCooled (answers s at answer e) h = answered-IsCooled answer at s e h

  RerunReachable-IsCooled :
      (s : Rerun) → RerunReachable enabled debounce cooldown s → IsCooled cooldown s
  RerunReachable-IsCooled s begins = record { recorded = refl; spaced = tt; allowed = tt }
  RerunReachable-IsCooled s (follows r st) = RerunStep-IsCooled st (RerunReachable-IsCooled _ r)

  -- In every reachable state of a league's event re-runs, whatever the order of requests and
  -- answers, the runs whose start came through were decided at least the cooldown apart.
  pub RerunReachable-IsSpaced :
      (s : Rerun) → RerunReachable enabled debounce cooldown s → IsSpaced cooldown s.starts
  RerunReachable-IsSpaced s r = (RerunReachable-IsCooled s r).spaced

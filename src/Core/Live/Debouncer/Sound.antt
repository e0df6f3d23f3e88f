-- ===== src/Core/Live/Debouncer/Sound.antt =====
-- At most one evaluation in flight, no event lost, and no evaluation sooner than the debounce.
use bookie_breaker_agent.Prelude.{
  ℕ, ◌+◌, ◌≤◌, ◌≡◌, ◌≢◌, refl, sym, ◌∙◌, ◌⊎◌, inl, inr, true, false, if◌then◌else◌, arith,
  Bool-cases,
}
use bookie_breaker_agent.Core.Live.Debouncer.{
  Debouncer, request, debounced_fire, evaluated, stop, Step, time_passes, event, timer_fires,
  evaluation_ends, stops, Reachable, start, after,
}

pub record IsSound (debounce : ℕ) (s : Debouncer) : Type 0 where
  pub single : s.alive ≡ (if s.running then 1 else 0)
  pub flagged : s.pending ≡ true → s.running ≡ true
  pub kept : s.unseen ≡ true → (s.armed ≡ true) ⊎ ((s.running ≡ true) × (s.pending ≡ true))
  pub spaced : s.armed ≡ true → s.armed_at + debounce ≤ s.deadline

false-ne-true : false ≢ true
false-ne-true h = cc

module _ (debounce : ℕ) where
  request-IsSound : (s : Debouncer) → IsSound debounce s → IsSound debounce (request debounce s)
  unfolding request
  request-IsSound s h = record {
    single = h.single;
    flagged = h.flagged;
    kept = λ _. inl refl;
    spaced = λ _. omega arith;
  }

  debounced_fire-IsSound :
      (s : Debouncer) → s.armed ≡ true → IsSound debounce s → IsSound debounce (debounced_fire s)
  unfolding debounced_fire
  debounced_fire-IsSound s armed h = elim (Bool-cases s.running) [
    | inl e ↦ rw e (record {
      single = ground (arith, h.single);
      flagged = λ _. refl;
      kept = λ _. inr (refl, refl);
      spaced = λ k. cc;
    })
    | inr e ↦ rw e (record {
      single = ground (arith, h.single);
      flagged = λ _. refl;
      kept = λ k. cc;
      spaced = λ k. cc;
    })
  ]

  evaluated-IsSound :
      (s : Debouncer)
      → s.running ≡ true
      → IsSound debounce s
      → IsSound debounce (evaluated debounce s)
  unfolding evaluated
  evaluated-IsSound s running h = elim (Bool-cases s.pending) [
    | inl e ↦ rw e (record {
      single = ground (arith, h.single);
      flagged = λ k. cc;
      kept = λ _. inl refl;
      spaced = λ _. omega arith;
    })
    | inr e ↦ rw e (record {
      single = ground (arith, h.single);
      flagged = λ k. cc;
      kept = λ u. elim (h.kept u) [
        | inl armed ↦ inl armed
        | inr (_, p) ↦ absurd (false-ne-true (sym e ∙ p))
      ];
      spaced = h.spaced;
    })
  ]

  Step-IsSound : {s t : Debouncer} → Step debounce s t → IsSound debounce s → IsSound debounce t
  unfolding stop
  Step-IsSound (time_passes s t') h = record {
    single = h.single;
    flagged = h.flagged;
    kept = h.kept;
    spaced = h.spaced;
  }
  Step-IsSound (event s) h = request-IsSound s h
  Step-IsSound (timer_fires s armed due) h = debounced_fire-IsSound s armed h
  Step-IsSound (evaluation_ends s running) h = evaluated-IsSound s running h
  Step-IsSound (stops s) h = record {
    single = ground (arith, h.single);
    flagged = λ k. cc;
    kept = λ k. cc;
    spaced = λ k. cc;
  }

  -- In every reachable state of the live debouncer, whatever the order of events: at most one
  -- evaluation of the game is in flight, an event that no evaluation has seen has its timer
  -- armed or is flagged for the evaluation in flight, and a timer fires no sooner than the
  -- debounce after it was last armed.
  pub Reachable-IsSound : (s : Debouncer) → Reachable debounce s → IsSound debounce s
  Reachable-IsSound s start = record {
    single = refl;
    flagged = λ k. cc;
    kept = λ k. cc;
    spaced = λ k. cc;
  }
  Reachable-IsSound s (after r st) = Step-IsSound st (Reachable-IsSound _ r)

  -- What may follow a state.
  pub data Run : Debouncer → Debouncer → Type 0 where
    stay : (s : Debouncer) → Run s s
    go : {s t u : Debouncer} → Step debounce s t → Run t u → Run s u

  -- The events that came in are served in some continuation.
  abbrev pub IsServed : Debouncer → Type 0
  IsServed s = (t : Debouncer) × Run s t × (t.unseen ≡ false) × (t.running ≡ true)

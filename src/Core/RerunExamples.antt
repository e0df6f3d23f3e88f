-- ===== src/Core/RerunExamples.antt =====
-- Two event runs of a league, with a debounce of 5 and a cooldown of 60.
use bookie_breaker_agent.Prelude.{[], ◌∷◌, none, some, true, refl, arith}
use bookie_breaker_agent.Core.Rerun.{
  Rerun, idle, sleeping, starting, run_started, at_rest, request_rerun, fire_rerun, answered,
  clock_moves, requested, wakes, answers, RerunReachable, begins, follows,
}
use bookie_breaker_agent.Core.Rerun.Spacing.{IsSpaced, RerunReachable-IsSpaced}

abbrev due : Rerun
due = record { now = 5; phase = sleeping 5; last_fired = none; starts = [] }

abbrev first_run : Rerun
first_run = record { now = 5; phase = idle; last_fired = some 5; starts = 5 ∷ [] }

abbrev due_again : Rerun
due_again = record first_run { now = 70; phase = sleeping 70 }

abbrev second_run : Rerun
second_run = record { now = 70; phase = idle; last_fired = some 70; starts = 70 ∷ 5 ∷ [] }

first_run-RerunReachable : RerunReachable true 5 60 first_run
unfolding request_rerun fire_rerun answered
first_run-RerunReachable =
    follows
      (follows
        (follows (follows begins (requested at_rest)) (clock_moves (record due { now = 0 }) 5))
        (wakes due 5 refl (omega arith)))
      (answers (record due { phase = starting 5 }) 5 run_started refl)

second_run-RerunReachable : RerunReachable true 5 60 second_run
unfolding request_rerun fire_rerun answered
second_run-RerunReachable =
    let waited = record first_run { now = 65 } in
    follows
      (follows
        (follows
          (follows (follows first_run-RerunReachable (clock_moves first_run 60)) (requested waited))
          (clock_moves (record waited { phase = sleeping 70 }) 5))
        (wakes due_again 70 refl (omega arith)))
      (answers (record due_again { phase = starting 70 }) 70 run_started refl)

RerunReachable-IsSpaced_example : IsSpaced 60 (70 ∷ 5 ∷ [])
RerunReachable-IsSpaced_example =
    RerunReachable-IsSpaced true 5 60 second_run second_run-RerunReachable

-- ===== src/Core/Pipeline/Start/Unique.antt =====
-- Two runs of one league never run at once, however the callers of `start_run` interleave.
use bookie_breaker_agent.Prelude.{
  ℕ, String, List, [], ◌∷◌, any, map, ◌≡◌, refl, sym, true, false, inl, inr, Option, none, some,
  some-injective, Bool-cases, eq_iff, ◌==◌, arith,
}
use mathlib.Core.Path.{subst}
use bookie_breaker_agent.Core.Pipeline.Run.{RunStatus, running}
use bookie_breaker_agent.Core.Pipeline.Start.{
  RunRow, Starts, is_running, is_active, indexed, has_active, create_running, set_status, finish,
  StartStep, passes_check, inserts, refused, finishes, StartsReachable, at_start, one_more,
}

-- A league has at most one RUNNING row.
abbrev pub OneRunning : List RunRow → Type 0
OneRunning [] = Unit
OneRunning (row ∷ rows) =
    ((league : String)
      → indexed (some league) row ≡ true
      → any (indexed (some league)) rows ≡ false)
    × OneRunning rows

create_running-OneRunning :
    (id : ℕ) (league : Option String) (rows after : List RunRow)
    → create_running id league rows ≡ some after
    → OneRunning rows
    → OneRunning after
unfolding create_running
create_running-OneRunning id none rows after e h = elim (Bool-cases (any (indexed none) rows)) [
  | inl t ↦ cc (rw t at e)
  | inr t ↦ subst OneRunning (some-injective _ after (rw t at e)) (λ league i. cc, h)
]
create_running-OneRunning id (some own) rows after e h =
    elim (Bool-cases (any (indexed (some own)) rows)) [
      | inl t ↦ cc (rw t at e)
      | inr t ↦ subst OneRunning (some-injective _ after (rw t at e)) (
        λ league i.
            subst (λ l. any (indexed (some l)) rows ≡ false) (sym ((eq_iff league own).0 i)) t,
        h,
      )
    ]

-- A terminal status takes a row off the index, and puts none on it.
set_status-indexed :
    (id : ℕ) (status : RunStatus) (league : String) (row : RunRow)
    → is_running status ≡ false
    → indexed (some league) (set_status id status row) ≡ true
    → indexed (some league) row ≡ true
set_status-indexed id status league row h i = elim (Bool-cases (row.id == id)) [
  | inl e ↦ cc (rw (e, h) at i)
  | inr e ↦ rw e at i
]

finish-unindexed :
    (id : ℕ) (status : RunStatus) (league : String) (rows : List RunRow)
    → is_running status ≡ false
    → any (indexed (some league)) rows ≡ false
    → any (indexed (some league)) (map (set_status id status) rows) ≡ false
finish-unindexed id status league [] h n = refl
finish-unindexed id status league (row ∷ rows) h n =
    ground
      (arith, set_status-indexed id status league row h, finish-unindexed id status league rows h)

finish-OneRunning :
    (id : ℕ) (status : RunStatus) (rows : List RunRow)
    → is_running status ≡ false
    → OneRunning rows
    → OneRunning (map (set_status id status) rows)
finish-OneRunning id status [] h d = tt
finish-OneRunning id status (row ∷ rows) h (d, ds) = (
  λ league i.
      finish-unindexed id status league rows h
        (d league (set_status-indexed id status league row h i)),
  finish-OneRunning id status rows h ds,
)

not_running : (status : RunStatus) → is_active status ≡ false → is_running status ≡ false
not_running RunStatus.queued h = refl
not_running running h = cc
not_running RunStatus.completed h = refl
not_running RunStatus.completed_with_errors h = refl
not_running RunStatus.run_failed h = refl

StartStep-OneRunning : (s t : Starts) → StartStep s t → OneRunning s.rows → OneRunning t.rows
unfolding finish
StartStep-OneRunning s t (passes_check _ league e) h = h
StartStep-OneRunning s t (inserts _ before after league id rows e c) h =
    create_running-OneRunning id league s.rows rows c h
StartStep-OneRunning s t (refused _ before after league id e c) h = h
StartStep-OneRunning s t (finishes _ id status e) h =
    finish-OneRunning id status s.rows (not_running status e) h

-- In every state that concurrent callers of start_run can reach, however they interleave, a
-- league has at most one RUNNING row.
pub StartsReachable-OneRunning : (s : Starts) → StartsReachable s → OneRunning s.rows
StartsReachable-OneRunning s at_start = tt
StartsReachable-OneRunning s (one_more t u r n) =
    StartStep-OneRunning t s n (StartsReachable-OneRunning t r)

running_active : (status : RunStatus) → is_running status ≡ true → is_active status ≡ true
running_active running h = refl
running_active RunStatus.queued h = cc
running_active RunStatus.completed h = cc
running_active RunStatus.completed_with_errors h = cc
running_active RunStatus.run_failed h = cc

unindexed_if_inactive :
    (league : Option String) (rows : List RunRow)
    → has_active league rows ≡ false
    → any (indexed league) rows ≡ false
unfolding has_active
unindexed_if_inactive league [] h = refl
unindexed_if_inactive none (row ∷ rows) h = ground (arith, unindexed_if_inactive none rows)
unindexed_if_inactive (some league) (row ∷ rows) h =
    ground (arith, running_active row.status, unindexed_if_inactive (some league) rows)

-- A caller whose insertion follows its check is not refused by the index.
pub create_running-has_active :
    (id : ℕ) (league : Option String) (rows : List RunRow)
    → has_active league rows ≡ false
    → (after : List RunRow) × (create_running id league rows ≡ some after)
unfolding create_running
create_running-has_active id league rows h = (
  record { id = id; league = league; status = running } ∷ rows,
  rw (unindexed_if_inactive league rows h) refl,
)

-- ===== src/Core/Pipeline/Start.antt =====
-- core/pipeline.py, `start_run`, over the table of runs of db/repository.py: the check for an active
-- run and the insertion are two steps, between which other callers take theirs. The partial unique
-- index of db/tables.py refuses a second RUNNING row of a league; rows without a league are
-- distinct to it.
pub mod Unique
use bookie_breaker_agent.Prelude.{
  ℕ, String, List, [], ◌∷◌, ◌++◌, any, Option, none, some, Bool, true, false, not, ◌&&◌, ◌||◌,
  str_eq, ◌≡◌, ◌==◌, map, if◌then◌else◌,
}
use bookie_breaker_agent.Core.Pipeline.Run.{
  RunStatus, queued, running, completed, completed_with_errors, run_failed,
}

-- A row of `pipeline_runs`; no league is that of all leagues.
pub record RunRow : Type 0 where
  pub id : ℕ
  pub league : Option String
  pub status : RunStatus

abbrev pub is_running : RunStatus → Bool
is_running running = true
is_running _ = false

-- `ACTIVE_RUN_STATUSES`
abbrev pub is_active : RunStatus → Bool
is_active queued = true
is_active running = true
is_active _ = false

abbrev pub same_league : Option String → Option String → Bool
same_league none none = true
same_league (some a) (some b) = str_eq a b
same_league _ _ = false

-- `pipeline_runs.c.league == league OR pipeline_runs.c.league IS NULL`, or any league for all of them
abbrev pub conflicts : Option String → RunRow → Bool
conflicts none row = is_active row.status
conflicts (some league) row =
    is_active row.status && (same_league (some league) row.league || same_league none row.league)

-- `get_active_for_league`: there is an active run for the league.
unfoldable pub has_active : Option String → List RunRow → Bool
has_active league rows = any (conflicts league) rows

-- The unique index holds a RUNNING row of the league.
abbrev pub indexed : Option String → RunRow → Bool
indexed none row = false
indexed (some league) row = is_running row.status && same_league (some league) row.league

-- `create_running`: the new row, or DuplicateRunningRunError.
unfoldable pub create_running : ℕ → Option String → List RunRow → Option (List RunRow)
create_running id league rows =
    if any (indexed league) rows
    then none
    else some (record { id = id; league = league; status = running } ∷ rows)

-- `finish`: the row of the id gets the status.
abbrev pub set_status : ℕ → RunStatus → RunRow → RunRow
set_status id status row = if row.id == id then record row { status = status } else row

unfoldable pub finish : ℕ → RunStatus → List RunRow → List RunRow
finish id status rows = map (set_status id status) rows

-- The table, and the callers that passed the check and have not inserted yet.
pub record Starts : Type 0 where
  pub rows : List RunRow
  pub checked : List (Option String)

-- The steps of concurrent callers of `start_run` and of the runs that they started.
pub data StartStep : Starts → Starts → Type 0 where
  -- The check found no active run; when it finds one, the caller gets a 409 and nothing changes.
  passes_check :
      (s : Starts) (league : Option String)
      → has_active league s.rows ≡ false
      → StartStep s (record s { checked = league ∷ s.checked })
  -- A caller that passed the check inserts its row.
  inserts :
      (s : Starts) (before after : List (Option String)) (league : Option String) (id : ℕ)
      (rows : List RunRow)
      → s.checked ≡ before ++ (league ∷ after)
      → create_running id league s.rows ≡ some rows
      → StartStep s (record { rows = rows; checked = before ++ after })
  -- The index refuses the row: the caller gets a 409.
  refused :
      (s : Starts) (before after : List (Option String)) (league : Option String) (id : ℕ)
      → s.checked ≡ before ++ (league ∷ after)
      → create_running id league s.rows ≡ none
      → StartStep s (record s { checked = before ++ after })
  -- A run reaches a terminal status.
  finishes :
      (s : Starts) (id : ℕ) (status : RunStatus)
      → is_active status ≡ false
      → StartStep s (record s { rows = finish id status s.rows })

pub data StartsReachable : Starts → Type 0 where
  at_start : StartsReachable (record { rows = []; checked = [] })
  one_more : (s t : Starts) → StartsReachable s → StartStep s t → StartsReachable t

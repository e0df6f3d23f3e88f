-- ===== src/Core/PipelineExamples.antt =====
-- A run over one game whose services reply, and two leagues that start runs.
use bookie_breaker_agent.Prelude.{
  ℕ, String, List, [], ◌∷◌, ◌≡◌, refl, true, false, Option, none, some, Result, ok, raise,
  api_error, value_error, dependency, status_code, Yields, AnyValue, str_eq, upper, if◌then◌else◌,
}
use bookie_breaker_agent.Prelude.Int.{pos}
use bookie_breaker_agent.Float.Fixed.{Fixed, fixed_float}
use bookie_breaker_agent.Float.Fixed.Laws.{Fixed-IsFloat}
use bookie_breaker_agent.Core.Detector.Candidates.{EdgeCandidate}
use bookie_breaker_agent.Core.Bettor.{plan}
use bookie_breaker_agent.Core.Bettor.Place.{EdgeRecord, World}
use bookie_breaker_agent.Core.Pipeline.{
  Services, Library, GameOutcome, new_outcome, with_error, simulation, simulate, process_game,
}
use bookie_breaker_agent.Core.Pipeline.Outcome.{Ends, process_game-Ends}
use bookie_breaker_agent.Core.Pipeline.Run.{running, run_status, bet_on}
use bookie_breaker_agent.Core.Pipeline.Run.Status.{StatusMeans, run_status-StatusMeans}
use bookie_breaker_agent.Core.Pipeline.Run.Total.{RunCause, bet_on-Yields}
use bookie_breaker_agent.Core.Pipeline.Start.{
  RunRow, Starts, has_active, create_running, passes_check, inserts, StartsReachable, at_start,
  one_more,
}
use bookie_breaker_agent.Core.Pipeline.Start.Unique.{OneRunning, StartsReachable-OneRunning}
use bookie_breaker_agent.Core.DetectorExamples.{
  game, lines, predictions, detector, same_text, parse_datetime, no_uuid, first_price,
}
use bookie_breaker_agent.Core.BettorExamples.{format, same_key, emulator, store}

abbrev services : Services Fixed
services = record {
  resolve = λ g. some "ext";
  latest_for_game = λ id. ok "run";
  run_simulation = λ id props. ok "run";
  create_predictions = λ id run. ok predictions;
  game_lines = λ id. ok lines;
  get_player_distributions = λ run. ok [];
  create_prop_predictions = λ id run requests. ok [];
}

abbrev library : Library
library = record {
  normalize = same_text;
  parse_datetime = parse_datetime;
  uuid_of = no_uuid;
  player_slug = same_text;
}

-- The predictions of the game are no JSON, and the simulation service is down for another.
abbrev failing : Services Fixed
failing = record services {
  latest_for_game =
      λ id. if str_eq id "game" then ok "run" else raise (api_error (dependency "unavailable"));
  create_predictions = λ id run. raise (value_error "no JSON");
}

process_game-Ends_example :
    Ends failing detector game (process_game failing library detector ("NBA" ∷ []) false game 0)
process_game-Ends_example =
    process_game-Ends Fixed-IsFloat failing library detector refl refl ("NBA" ∷ []) false game 0

-- A ValueError of the predictions is what the game raises, and a DependencyError is its error.
aborts :
    process_game failing library detector ("NBA" ∷ []) false game 0 ≡ raise (value_error "no JSON")
unfolding process_game simulate upper
aborts = refl

records :
    process_game failing library detector ("NBA" ∷ []) false (record game { id = "other" }) 0
    ≡ ok (with_error simulation "unavailable" (new_outcome (record game { id = "other" })))
unfolding process_game simulate upper status_code
records = refl

abbrev insert_edge : EdgeCandidate Fixed → Fixed → Result (EdgeRecord Fixed)
insert_edge c stake =
    ok (record { id = "row"; edge = c; recommended_stake = stake; paper_bet_id = none })

abbrev start_world : World (List (String × String))
start_world = record { emulator = []; paper_bets = [] }

bet_on-Yields_example : Yields (RunCause emulator store insert_edge) AnyValue (
    bet_on format same_key emulator store insert_edge
      (plan format (pos 150_000) (first_price ∷ []) (pos 100_000_000) (pos 0) true 0 none)
      (first_price ∷ [])
      start_world)
bet_on-Yields_example =
    bet_on-Yields format same_key emulator store insert_edge (pos 150_000) (first_price ∷ [])
      (pos 100_000_000) (pos 0) true 0 none start_world

-- One of two games failed.
abbrev outcomes : List (GameOutcome Fixed)
outcomes = new_outcome game ∷ with_error simulation "unavailable" (new_outcome game) ∷ []

run_status-StatusMeans_example : StatusMeans outcomes [] (run_status outcomes [])
run_status-StatusMeans_example = run_status-StatusMeans outcomes []

abbrev run_of : ℕ → Option String → RunRow
run_of id league = record { id = id; league = league; status = running }

-- Two callers for all leagues pass the check before either inserts.
abbrev both_checked : Starts
both_checked = record { rows = []; checked = none ∷ none ∷ [] }

abbrev both_running : Starts
both_running = record { rows = run_of 2 none ∷ run_of 1 none ∷ []; checked = [] }

two_all_league_runs : StartsReachable both_running
unfolding has_active create_running
two_all_league_runs =
    one_more (record { rows = run_of 1 none ∷ []; checked = none ∷ [] }) both_running
      (one_more both_checked _
        (one_more (record { rows = []; checked = none ∷ [] }) both_checked
          (one_more (record { rows = []; checked = [] }) _ at_start (passes_check _ none refl))
          (passes_check _ none refl))
        (inserts both_checked [] (none ∷ []) none 1 (run_of 1 none ∷ []) refl refl))
      (inserts _ [] [] none 2 _ refl refl)

StartsReachable-OneRunning_example : OneRunning both_running.rows
StartsReachable-OneRunning_example = StartsReachable-OneRunning both_running two_all_league_runs

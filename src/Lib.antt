-- ===== src/Lib.antt =====
-- bookie-breaker-agent: a betting agent. It turns simulated and calibrated probabilities into edges,
-- sizes bets on them, and decides when to act.
--
-- The program's parts. `src/agent/edges` is the pure betting mathematics, which `src/agent/core`
-- (pipeline, scheduler, edge detector, bettor, parlays, live evaluation) calls with what
-- `src/agent/clients` fetched from the other services and `src/agent/db` stored.
--
-- Which file models which part:
--   Float.antt         Python's float, a parameter: an operation record and the laws relied on
--   Float/Fixed.antt   six-decimal numbers that meet the laws, at which the examples run
--   Edges/Odds.antt    src/agent/edges/odds.py
--   Edges/Ev.antt      src/agent/edges/ev.py
--   Edges/Kelly.antt   src/agent/edges/kelly.py
--   Edges/Clv.antt     src/agent/edges/clv.py
--   Edges/Decay.antt   src/agent/edges/decay.py
--   Edges/Detect.antt  src/agent/edges/detect.py
--   Edges/Quality.antt src/agent/edges/quality.py
--   Edges/Devig.antt   src/agent/edges/devig.py
--   Edges/Correlation.antt  src/agent/edges/correlation.py
--   Clients/Retry.antt src/agent/clients/retry.py
--   Clients/Base.antt  src/agent/clients/base.py
--   Core/Live/State.antt      src/agent/core/live.py, derive_live_state
--   Core/Live/Debouncer.antt  src/agent/core/live.py, LiveDebouncer
--   Core/Scheduler.antt       src/agent/core/scheduler.py, _tick, _ensure_next_run and _fire
--   Core/Props.antt           src/agent/core/props.py
--   Core/Detector.antt        src/agent/core/edge_detector.py: Markets (_group_markets, _devig_group),
--                             Matching (_match_prediction), Candidates (_build_candidate), Detect
--   Core/Bettor.antt          src/agent/core/bettor.py, should_bet and plan; Bettor/Place, place_bet
--   Core/Pipeline.antt        src/agent/core/pipeline.py, _process_game; Pipeline/Run, _execute_inner;
--                             Pipeline/Start, start_run over the runs of src/agent/db/repository.py and
--                             the index of src/agent/db/tables.py
--   Core/Parlay.antt          src/agent/core/parlay.py, the checks and keys of legs; Parlay/Joint,
--                             their joint probability; Parlay/Evaluate, the price and the size
--   Core/Scanner.antt         src/agent/core/parlay_scanner.py, the candidates and their combinations
--   Events/Subscriber.antt    src/agent/events/subscriber.py, the handlers of messages
--   Events/Alerts.antt        src/agent/core/alerts.py, and edge_priority of src/agent/events/publisher.py
--   Clients/Payloads.antt     the payloads of src/agent/clients that the detector reads
--   Clients/Reconcile.antt    src/agent/clients/reconcile.py
--   Core/Rerun.antt           src/agent/core/rerun.py
-- The children of a module hold its theorems; the modules named Examples hold the runs.
-- Functions keep their names, a leading underscore dropped. An exception is a value of `Result`
-- (Prelude/Errors.antt); an int of American odds is an integer of Prelude/Int.antt; a dict with a
-- literal key set is an association list with `get` written out; text is compared and put in upper
-- case over ASCII.
--
-- Floats: every function is written over `Float F`. `IsFloat` holds what IEEE arithmetic guarantees
-- away from NaN (order, monotone operations, exact integers); `IsPower` what is relied on of
-- math.pow at a base in (0, 1]. Nothing is claimed of how close a rounded result is, nor of the sum of
-- rescaled bets, which under rounding to nearest may pass the cap by units in the last place. `sum`
-- is the plain fold from the left; the builtin of Python 3.12 compensates its rounding. A division
-- whose divisor can be 0 (Kelly's net odds, 1 plus the haircut) and odds too large for a float raise;
-- elsewhere a division is taken to have a divisor that is not 0.
--
-- Bounds and fuel: `find_high` doubles from 2 and stops above 1024, so ten rounds are
-- enough; `bisect` has the source's own bound of 200 rounds.
--
-- The awaited results of a retried request are a sequence that its calls read in order. The live
-- debouncer is one machine per game, whose `stop` is one step, and the re-runs are one per league: between its awaits a
-- coroutine runs alone, so that each operation is one step of a relation, in any order. A tick of the
-- scheduler works on the rows that list_enabled returned; an exception leaves the rows after it as
-- they are.
--
-- How the parts interact: Pipeline takes the other services as a record of calls, resolves a game
-- (Clients/Reconcile), asks for predictions and lines, bridges the props (Core/Props), runs the
-- detector, which composes Edges, and gives all candidates to the plan of the bettor, which scales
-- them by Edges/Kelly; the run stores the edges and places the plan's bets. The theorems of Pipeline
-- are about that composition.
--
-- Parameters: datetime.fromisoformat, uuid.UUID, uuid5, casefold and the formats of numbers in
-- f-strings; the services, the emulator and the writes of the database, which reply or raise whatever
-- they will. The steps of start_run are a relation: its check and its insertion are
-- apart, and other callers may take theirs between them.
--
-- Not modelled: the wire formats of the services and of the message bus, the REST layer, the language
-- models and the texts of log lines and reasonings; of core, the evaluation of parlays by the
-- services, dashboards and summaries; of the repository, all but the guard of runs.
pub mod Prelude
pub mod Float
pub mod Clients
pub mod Core
pub mod Events
pub mod Edges

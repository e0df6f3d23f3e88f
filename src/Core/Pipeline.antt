-- ===== src/Core/Pipeline.antt =====
-- core/pipeline.py: the processing of one game, with the errors of each step kept apart, and the
-- final status of a run. The other services are parameters: each call returns or raises.
pub mod Outcome
pub mod Run
pub mod Start
use bookie_breaker_agent.Prelude.{
  ℕ, String, List, [], ◌∷◌, map, ◌++◌, length, any, Option, none, some, Bool, true, false, not,
  Result, ok, raise, ApiError, Exception, api_error, value_error, other, status_code, message,
  ◌>>=◌, ◌==◌, str_eq, upper, if◌then◌else◌,
}
use bookie_breaker_agent.Float.{Float}
use bookie_breaker_agent.Float.Time.{DateTime}
use bookie_breaker_agent.Clients.Payloads.{Game, LineSnapshot, PredictionItem}
use bookie_breaker_agent.Core.Props.{
  Bridge, Distribution, PropRequest, prop_lines, build_player_bridge, build_prop_requests,
}
use bookie_breaker_agent.Core.Props.Rewrite.{rewrite_predictions_to_slugs}
use bookie_breaker_agent.Core.Detector.Candidates.{EdgeCandidate, Detector}
use bookie_breaker_agent.Core.Detector.Detect.{detect}

-- What the pipeline calls of the other services; a simulation run is known by its id, and the
-- flag of `run_simulation` asks for the players' distributions.
pub record Services {ℓ} (F : Type ℓ) : Type ℓ where
  pub resolve : Game → Option String
  pub latest_for_game : String → Result String
  pub run_simulation : String → Bool → Result String
  pub create_predictions : String → String → Result (List (PredictionItem F))
  pub game_lines : String → Result (List (LineSnapshot F))
  pub get_player_distributions : String → Result (List (String × Distribution))
  pub create_prop_predictions :
      String → String → List (PropRequest F) → Result (List (PredictionItem F))

-- The functions that the detector and the bridge take from Python's library.
pub record Library : Type 0 where
  pub normalize : String → String
  pub parse_datetime : String → Option DateTime
  pub uuid_of : String → Option String
  pub player_slug : String → String

-- The keys of `errors`.
pub data GameStep : Type 0 where
  simulation prediction edge_detection : GameStep

-- `_GameOutcome`; the set of market types is a list.
pub record GameOutcome {ℓ} (F : Type ℓ) : Type ℓ where
  pub game : Game
  pub candidates : List (EdgeCandidate F)
  pub predictions_count : ℕ
  pub market_types : List String
  pub errors : List (GameStep × String)

-- `bool(self.errors)`
abbrev pub is_nonempty : List (GameStep × String) → Bool
is_nonempty [] = false
is_nonempty (e ∷ es) = true

-- `except Exception: return []`
abbrev pub or_nothing {ℓ} : {A : Type ℓ} → Result (List A) → List A
or_nothing (ok xs) = xs
or_nothing (raise e) = []

-- The latest run, or a new one where there is none: a 404 is not an error.
abbrev pub or_run : Result String → Result String → Result String
or_run (ok run) fresh = ok run
or_run (raise (api_error e)) fresh = if status_code e == 404 then fresh else raise (api_error e)
or_run (raise (value_error m)) fresh = raise (value_error m)
or_run (raise (other m)) fresh = raise (other m)

module _ {ℓ} {F : Type ℓ} where
  abbrev pub failed : GameOutcome F → Bool
  failed outcome = is_nonempty outcome.errors

  abbrev pub new_outcome : Game → GameOutcome F
  new_outcome game = record {
    game = game;
    candidates = [];
    predictions_count = 0;
    market_types = [];
    errors = [];
  }

  abbrev pub with_error : GameStep → String → GameOutcome F → GameOutcome F
  with_error step reason outcome = record outcome { errors = (step, reason) ∷ outcome.errors }

  -- `except ApiError as exc: outcome.errors[step] = exc.message; return outcome`, else what follows
  abbrev pub or_record {κ} :
      {A : Type κ}
      → GameStep
      → GameOutcome F
      → Result A
      → (A → Result (GameOutcome F))
      → Result (GameOutcome F)
  or_record step outcome (ok a) rest = rest a
  or_record step outcome (raise (api_error e)) rest = ok (with_error step (message e) outcome)
  or_record step outcome (raise (value_error m)) rest = raise (value_error m)
  or_record step outcome (raise (other m)) rest = raise (other m)

  module _ ⦃f : Float F⦄ (services : Services F) (library : Library) (detector : Detector F) where
    -- Nothing is sent where no line can be asked for.
    abbrev pub send_requests :
        Game → String → Bridge → List (PropRequest F) → Result (List (PredictionItem F))
    send_requests game run bridge [] = ok []
    send_requests game run bridge (r ∷ rs) = do
      rows ← services.create_prop_predictions game.id run (r ∷ rs)
      ok (rewrite_predictions_to_slugs rows bridge)

    abbrev pub request_props :
        Game → String → List (LineSnapshot F) → Result (List (PredictionItem F))
    request_props game run [] = ok []
    request_props game run (line ∷ lines) = do
      distributions ← services.get_player_distributions run
      let bridge = build_player_bridge library.player_slug distributions []
      send_requests game run bridge (build_prop_requests bridge (line ∷ lines) [])

    unfoldable pub prop_predictions :
        Game → String → List (LineSnapshot F) → List (PredictionItem F)
    unfolding build_player_bridge build_prop_requests prop_lines rewrite_predictions_to_slugs
    prop_predictions game run lines = or_nothing (request_props game run (prop_lines lines))

    unfoldable pub simulate : Game → Bool → Bool → Result String
    simulate game force_refresh include_props =
        let fresh = services.run_simulation game.id include_props in
        if force_refresh then fresh else or_run (services.latest_for_game game.id) fresh

    -- The predictions with those of the props, where there are any.
    abbrev pub with_props :
        List (PredictionItem F) → List (PredictionItem F) → List (PredictionItem F)
    with_props predictions [] = predictions
    with_props predictions (row ∷ rows) = predictions ++ (row ∷ rows)

    -- From the lines on.
    unfoldable pub detect_edges :
        Game
        → String
        → String
        → Bool
        → DateTime
        → List (PredictionItem F)
        → List (LineSnapshot F)
        → GameOutcome F
        → Result (GameOutcome F)
    unfolding prop_predictions detect
    detect_edges game external_id run props_enabled now predictions lines outcome =
        let rows = if props_enabled then prop_predictions game run lines else [] in
        let all_predictions = with_props predictions rows in
        do
          candidates ←
              detect library.normalize library.parse_datetime library.uuid_of detector game
                external_id all_predictions lines (some run) now false
          ok (record outcome {
            predictions_count = length all_predictions;
            market_types = map (λ p. p.market_type) all_predictions;
            candidates = candidates;
          })

    abbrev pub no_game : String
    no_game = "no lines-service game matched this statistics-service game"

    -- From the predictions on.
    unfoldable pub find_lines :
        Game
        → Option String
        → String
        → Bool
        → DateTime
        → List (PredictionItem F)
        → GameOutcome F
        → Result (GameOutcome F)
    unfolding detect_edges
    find_lines game none run props_enabled now predictions outcome =
        ok (with_error edge_detection no_game outcome)
    find_lines game (some external_id) run props_enabled now predictions outcome =
        or_record edge_detection outcome (services.game_lines external_id)
          (λ lines. detect_edges game external_id run props_enabled now predictions lines outcome)

    unfoldable pub process_game : List String → Bool → Game → DateTime → Result (GameOutcome F)
    unfolding simulate find_lines
    process_game prop_leagues force_refresh game now =
        let external_id = services.resolve game in
        let props_enabled = any (str_eq (upper game.league)) prop_leagues in
        let outcome = new_outcome game in
        or_record simulation outcome (simulate game force_refresh props_enabled) (λ run.
          or_record prediction outcome (services.create_predictions game.id run) (λ predictions.
            find_lines game external_id run props_enabled now predictions (record outcome {
              predictions_count = length predictions;
              market_types = map (λ p. p.market_type) predictions;
            })))

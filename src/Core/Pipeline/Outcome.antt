-- ===== src/Core/Pipeline/Outcome.antt =====
-- The errors of a game: an ApiError of a step is kept in the game's outcome, and what else a step
-- raises, `_process_game` raises.
use bookie_breaker_agent.Prelude.{
  String, List, [], map, any, length, ◌≡◌, refl, true, false, inl, inr, ◌⊎◌, Option, none, some,
  Bool, All, Result, ok, raise, Exception, api_error, value_error, other, str_eq, upper,
  status_code, ◌==◌, Bool-cases, ◌>>=◌, Yields, yielded, failed_with, AnyValue, if◌then◌else◌,
}
use bookie_breaker_agent.Float.{Float, IsFloat, ◌≤◌, whole}
use bookie_breaker_agent.Float.Time.{DateTime}
use bookie_breaker_agent.Clients.Payloads.{Game, LineSnapshot, PredictionItem}
use bookie_breaker_agent.Core.Detector.Markets.{group_markets}
use bookie_breaker_agent.Core.Detector.Candidates.{EdgeCandidate, Detector}
use bookie_breaker_agent.Core.Detector.Detect.Sound.{IsFairBet, detect-IsFairBet}
use bookie_breaker_agent.Core.Detector.Detect.Total.{
  IsArithmetic, zero_division, overflow, detect-Yields,
}
use bookie_breaker_agent.Core.Pipeline.{
  Services, Library, GameOutcome, GameStep, simulation, prediction, edge_detection, failed,
  new_outcome, or_record, or_run, simulate, prop_predictions, with_props, detect_edges, find_lines,
  process_game,
}

-- An exception that is not an ApiError.
pub data IsUnexpected : Exception → Type 0 where
  unexpected_value : (m : String) → IsUnexpected (value_error m)
  unexpected_other : (m : String) → IsUnexpected (other m)

-- Where an exception of a game comes from: a call of a service, or the arithmetic of detection.
pub data Cause {ℓ} {F : Type ℓ} (services : Services F) (game : Game) (e : Exception) : Type ℓ where
  by_latest : services.latest_for_game game.id ≡ raise e → Cause services game e
  by_run : (props : Bool) → services.run_simulation game.id props ≡ raise e → Cause services game e
  by_predictions :
      (run : String) → services.create_predictions game.id run ≡ raise e → Cause services game e
  by_lines :
      (id : String)
      → services.resolve game ≡ some id
      → services.game_lines id ≡ raise e
      → Cause services game e
  by_arithmetic : IsArithmetic e → Cause services game e

or_run-raises :
    (latest fresh : Result String) (e : Exception)
    → or_run latest fresh ≡ raise e
    → (latest ≡ raise e) ⊎ (fresh ≡ raise e)
or_run-raises (ok run) fresh e h = cc
or_run-raises (raise (api_error a)) fresh e h = elim (Bool-cases (status_code a == 404)) [
  | inl t ↦ inr (rw t at h)
  | inr t ↦ inl (rw t at h)
]
or_run-raises (raise (value_error m)) fresh e h = inl h
or_run-raises (raise (other m)) fresh e h = inl h

IsArithmetic-IsUnexpected : (e : Exception) → IsArithmetic e → IsUnexpected e
IsArithmetic-IsUnexpected _ zero_division = unexpected_other _
IsArithmetic-IsUnexpected _ overflow = unexpected_other _

module _ {ℓ} {F : Type ℓ} ⦃f : Float F⦄ where
  -- No lines, or what the lines service replied for the game.
  pub data AreQuoted (services : Services F) (game : Game) : List (LineSnapshot F) → Type ℓ where
    no_lines : AreQuoted services game []
    replied :
        (id : String) (lines : List (LineSnapshot F))
        → services.resolve game ≡ some id
        → services.game_lines id ≡ ok lines
        → AreQuoted services game lines

  -- What the run uses of an outcome: fair bets on the lines, and none of a game that failed.
  pub record IsOutcome (services : Services F) (detector : Detector F) (game : Game)
      (outcome : GameOutcome F) : Type ℓ where
    pub lines : List (LineSnapshot F)
    pub quoted : AreQuoted services game lines
    pub fair_bets : All (IsFairBet detector game.league (group_markets lines)) outcome.candidates
    pub none_if_failed : failed outcome ≡ true → outcome.candidates ≡ []

  -- The game ends with an outcome, or aborts the run with an exception that is not an ApiError.
  pub data Ends (services : Services F) (detector : Detector F) (game : Game)
      : Result (GameOutcome F) → Type ℓ where
    ended :
        (outcome : GameOutcome F)
        → IsOutcome services detector game outcome
        → Ends services detector game (ok outcome)
    aborted :
        (e : Exception)
        → IsUnexpected e
        → Cause services game e
        → Ends services detector game (raise e)

  module _ (services : Services F) (detector : Detector F) (game : Game) where
    -- A step that fails ends the game with its error, or aborts.
    or_record-Ends {κ} :
        {A : Type κ} (step : GameStep) (outcome : GameOutcome F) (result : Result A)
        (rest : A → Result (GameOutcome F))
        → outcome.candidates ≡ []
        → ((e : Exception) → result ≡ raise e → Cause services game e)
        → ((a : A) → result ≡ ok a → Ends services detector game (rest a))
        → Ends services detector game (or_record step outcome result rest)
    or_record-Ends step outcome (ok a) rest h cause hs = hs a refl
    or_record-Ends step outcome (raise (api_error e)) rest h cause hs =
        ended _
          record { lines = []; quoted = no_lines; fair_bets = rw h tt; none_if_failed = λ t. h }
    or_record-Ends step outcome (raise (value_error m)) rest h cause hs =
        aborted _ (unexpected_value m) (cause _ refl)
    or_record-Ends step outcome (raise (other m)) rest h cause hs =
        aborted _ (unexpected_other m) (cause _ refl)

    -- The candidates are those of the detection, if it returns.
    detected-Ends :
        (lines : List (LineSnapshot F)) (outcome : GameOutcome F)
        (result : Result (List (EdgeCandidate F)))
        → outcome.errors ≡ []
        → AreQuoted services game lines
        → Yields IsArithmetic AnyValue result
        → ((edges : List (EdgeCandidate F))
            → result ≡ ok edges
            → All (IsFairBet detector game.league (group_markets lines)) edges)
        → Ends services detector game
            (result >>= λ edges. ok (record outcome { candidates = edges }))
    detected-Ends lines outcome result h quotes (yielded edges _) bets = ended _ record {
      lines = lines;
      quoted = quotes;
      fair_bets = bets edges refl;
      none_if_failed = λ t. cc;
    }
    detected-Ends lines outcome result h quotes (failed_with e a) bets =
        aborted e (IsArithmetic-IsUnexpected e a) (by_arithmetic a)

  module _ (laws : IsFloat F) (services : Services F) (library : Library) (detector : Detector F)
      (multiplier_nonneg : whole 0 ≤ detector.kelly_multiplier)
      (cap_nonneg : whole 0 ≤ detector.max_bet_pct) where
    simulate-Cause :
        (game : Game) (force props : Bool) (e : Exception)
        → simulate services library detector game force props ≡ raise e
        → Cause services game e
    unfolding simulate
    simulate-Cause game true props e h = by_run props h
    simulate-Cause game false props e h =
        elim (or_run-raises (services.latest_for_game game.id)
          (services.run_simulation game.id props) e h) [
            | inl l ↦ by_latest l
            | inr r ↦ by_run props r
          ]

    detect_edges-Ends :
        (game : Game) (external_id run : String) (props : Bool) (now : DateTime)
        (predictions : List (PredictionItem F)) (lines : List (LineSnapshot F))
        (outcome : GameOutcome F)
        → outcome.errors ≡ []
        → AreQuoted services game lines
        → Ends services detector game (
            detect_edges services library detector game external_id run props now predictions lines
              outcome)
    unfolding detect_edges
    detect_edges-Ends game external_id run props now predictions lines outcome h quotes =
        let rows =
          if props then prop_predictions services library detector game run lines else [] in
        let all_predictions = with_props services library detector predictions rows in
        detected-Ends services detector game lines
          (record outcome {
            predictions_count = length all_predictions;
            market_types = map (λ p. p.market_type) all_predictions;
          })
          _ h quotes
          (detect-Yields library.normalize library.parse_datetime library.uuid_of detector laws game
            external_id all_predictions lines (some run) now false)
          (detect-IsFairBet laws library.normalize library.parse_datetime library.uuid_of detector
            multiplier_nonneg cap_nonneg game external_id all_predictions lines (some run) now
            false)

    find_lines-Ends :
        (game : Game) (external_id : Option String) (run : String) (props : Bool) (now : DateTime)
        (predictions : List (PredictionItem F)) (outcome : GameOutcome F)
        → services.resolve game ≡ external_id
        → outcome.errors ≡ []
        → outcome.candidates ≡ []
        → Ends services detector game (
            find_lines services library detector game external_id run props now predictions outcome)
    unfolding find_lines
    find_lines-Ends game none run props now predictions outcome r h c =
        ended _
          record { lines = []; quoted = no_lines; fair_bets = rw c tt; none_if_failed = λ t. c }
    find_lines-Ends game (some id) run props now predictions outcome r h c =
        or_record-Ends services detector game edge_detection outcome (services.game_lines id) _ c
          (λ e. by_lines id r)
          (λ lines e.
            detect_edges-Ends game id run props now predictions lines outcome h
              (replied id lines r e))

    -- Whatever the services reply or raise, and for a Kelly multiplier and a cap that are not
    -- negative, an ApiError of a step of a game never escapes: the game ends with an outcome
    -- whose candidates are fair bets on its lines, of which there is none where a step failed,
    -- or it raises an exception that is not an ApiError and that a service raised for this game
    -- or the arithmetic of detection raised.
    pub process_game-Ends :
        (prop_leagues : List String) (force_refresh : Bool) (game : Game) (now : DateTime)
        → Ends services detector game
            (process_game services library detector prop_leagues force_refresh game now)
    unfolding process_game
    process_game-Ends prop_leagues force_refresh game now =
        let props = any (str_eq (upper game.league)) prop_leagues in
        or_record-Ends services detector game simulation (new_outcome game) _ _ refl
          (simulate-Cause game force_refresh props)
          (λ run u.
            or_record-Ends services detector game prediction (new_outcome game)
              (services.create_predictions game.id run) _ refl (λ e. by_predictions run)
              (λ predictions v.
                find_lines-Ends game (services.resolve game) run props now predictions _ refl refl
                  refl))

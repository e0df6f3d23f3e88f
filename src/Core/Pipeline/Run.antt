-- ===== src/Core/Pipeline/Run.antt =====
-- core/pipeline.py, `_execute_inner` from the outcomes of the games on: the edges are stored, the bets
-- of the plan are placed, and the run ends with a status. The insertion of a row is a parameter.
pub mod Total
pub mod Status
use bookie_breaker_agent.Prelude.{
  ℕ, suc, ◌+◌, String, List, [], ◌∷◌, ◌++◌, length, Option, none, some, Bool, true, false, not,
  ◌&&◌, ◌==◌, Result, ok, raise, ApiError, api_error, value_error, other, message, ◌>>=◌, insert,
  lookup, if◌then◌else◌,
}
use bookie_breaker_agent.Float.{Float}
use bookie_breaker_agent.Float.Time.{DateTime}
use bookie_breaker_agent.Core.Detector.Candidates.{EdgeCandidate}
use bookie_breaker_agent.Core.Bettor.{BetPlan, Format, candidate_key, plan}
use bookie_breaker_agent.Core.Bettor.Place.{EdgeRecord, Emulator, Store, World, place_bet}
use bookie_breaker_agent.Core.Pipeline.{GameOutcome, failed}

-- The `status` column of `pipeline_runs`.
pub data RunStatus : Type 0 where
  queued running completed completed_with_errors run_failed : RunStatus

-- `d[key]`
abbrev pub or_key_error {ℓ} : {V : Type ℓ} → Option V → Result V
or_key_error none = raise (other "KeyError")
or_key_error (some v) = ok v

abbrev pub get_item {ℓ} : {V : Type ℓ} → String → List (String × V) → Result V
get_item key d = or_key_error (lookup key d)

-- What the loop over the plan's bets leaves.
pub record Bets {κ} (S : Type κ) : Type κ where
  pub world : World S
  pub bets_placed : ℕ
  pub bet_errors : List (String × String)

module _ {ℓ} {F : Type ℓ} where
  -- `outcome.candidates` of all games
  unfoldable pub all_candidates : List (GameOutcome F) → List (EdgeCandidate F)
  all_candidates [] = []
  all_candidates (o ∷ outcomes) = o.candidates ++ all_candidates outcomes

  unfoldable pub games_processed : List (GameOutcome F) → ℕ
  games_processed [] = 0
  games_processed (o ∷ outcomes) =
      let rest = games_processed outcomes in if failed o then rest else suc rest

  unfoldable pub games_failed : List (GameOutcome F) → ℕ
  games_failed [] = 0
  games_failed (o ∷ outcomes) =
      let rest = games_failed outcomes in if failed o then suc rest else rest

  -- There is an outcome for each game: `games` is empty where the outcomes are.
  unfoldable pub run_status : List (GameOutcome F) → List (String × String) → RunStatus
  unfolding games_processed games_failed
  run_status outcomes bet_errors =
      if games_failed outcomes + length bet_errors == 0
      then completed
      else if (games_processed outcomes == 0) && not (length outcomes == 0)
      then run_failed
      else completed_with_errors

  module _ (format : Format F) (insert_edge : EdgeCandidate F → F → Result (EdgeRecord F)) where
    -- `records[key] = await self._edge_repo.insert(…)`
    unfoldable pub insert_edges :
        BetPlan F
        → List (EdgeCandidate F)
        → List (String × EdgeRecord F)
        → Result (List (String × EdgeRecord F))
    insert_edges plan [] records = ok records
    insert_edges plan (c ∷ candidates) records = do
      stake ← get_item (candidate_key format c) plan.stakes
      row ← insert_edge c stake
      insert_edges plan candidates (insert (candidate_key format c) row records)

  module _ {κ} {S : Type κ} (format : Format F) (uuid5 : String → String) (emulator : Emulator F S)
      (store : Store) where
    -- The `try` around `place_bet`: an ApiError is the game's, another exception ends the run.
    unfoldable pub record_bet :
        EdgeRecord F → Bets S → Result (Option String) × World S → Result (Bets S)
    record_bet row bets (ok none, world) = ok (record bets { world = world })
    record_bet row bets (ok (some bet_id), world) =
        ok (record bets { world = world; bets_placed = suc bets.bets_placed })
    record_bet row bets (raise (api_error e), world) = ok (record bets {
      world = world;
      bet_errors = insert row.edge.game_id (message e) bets.bet_errors;
    })
    record_bet row bets (raise (value_error m), world) = raise (value_error m)
    record_bet row bets (raise (other m), world) = raise (other m)

    unfoldable pub place_bets :
        BetPlan F → List (String × EdgeRecord F) → List String → Bets S → Result (Bets S)
    unfolding place_bet record_bet
    place_bets plan records [] bets = ok bets
    place_bets plan records (key ∷ keys) bets = do
      row ← get_item key records
      stake ← get_item key plan.stakes
      kelly ← get_item key plan.kelly
      bets' ← record_bet row bets (place_bet format uuid5 emulator store row stake kelly bets.world)
      place_bets plan records keys bets'

    -- Storing and betting, for the candidates of a run.
    unfoldable pub bet_on :
        (EdgeCandidate F → F → Result (EdgeRecord F))
        → BetPlan F
        → List (EdgeCandidate F)
        → World S
        → Result (Bets S)
    unfolding insert_edges place_bets
    bet_on insert_edge plan candidates world = do
      records ← insert_edges format insert_edge plan candidates []
      place_bets plan records plan.to_bet record { world = world; bets_placed = 0; bet_errors = [] }

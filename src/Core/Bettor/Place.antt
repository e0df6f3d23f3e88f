-- ===== src/Core/Bettor/Place.antt =====
-- core/bettor.py, `place_bet`: one paper bet for an edge. The emulator is a
-- parameter: a state, and its reply to a bet with an idempotency key. `uuid5` is a parameter too.
use bookie_breaker_agent.Prelude.{
  String, List, Option, none, some, Result, ok, raise, Exception, value_error, insert,
}
use bookie_breaker_agent.Core.Detector.Candidates.{EdgeCandidate}
use bookie_breaker_agent.Core.Bettor.{Format, candidate_key}

-- A row of the edges: what was detected, its id, its stake, and the paper bet linked to it.
pub record EdgeRecord {ℓ} (F : Type ℓ) : Type ℓ where
  pub id : String
  pub edge : EdgeCandidate F
  pub recommended_stake : F
  pub paper_bet_id : Option String

-- The body of the request: the edge, its row's id, the stake and the fraction.
pub record BetBody {ℓ} (F : Type ℓ) : Type ℓ where
  pub edge_id : String
  pub edge : EdgeCandidate F
  pub stake : F
  pub kelly : F

-- `POST /bets` with an X-Idempotency-Key.
pub record Emulator {ℓ κ} (F : Type ℓ) (S : Type κ) : Type (ℓ ⊔ κ) where
  pub post_bet : String → BetBody F → S → Result String × S

-- The emulator's bets, and the bets linked to the rows of the edges.
pub record World {κ} (S : Type κ) : Type κ where
  pub emulator : S
  pub paper_bets : List (String × String)

-- `uuid.UUID`, and what the transaction of `set_paper_bet` raises where it fails.
pub record Store : Type 0 where
  pub uuid_of : String → Option String
  pub write_error : String → String → Option Exception

-- The message of `uuid.UUID`.
abbrev pub bad_uuid : Exception
bad_uuid = value_error "badly formed hexadecimal UUID string"

module _ {ℓ κ} {F : Type ℓ} {S : Type κ} (format : Format F) (uuid5 : String → String)
    (emulator : Emulator F S) (store : Store) where
  unfoldable pub idempotency_key : EdgeCandidate F → String
  idempotency_key edge = uuid5 (candidate_key format edge)

  -- `set_paper_bet(edge.id, uuid.UUID(bet.id))`, with the UUID and the error of the write
  abbrev pub set_paper_bet :
      String
      → String
      → Option String
      → Option Exception
      → World S
      → Result (Option String) × World S
  set_paper_bet edge_id bet_id none e world = (raise bad_uuid, world)
  set_paper_bet edge_id bet_id (some paper_bet_id) (some e) world = (raise e, world)
  set_paper_bet edge_id bet_id (some paper_bet_id) none world =
      (ok (some bet_id), record world { paper_bets = insert edge_id paper_bet_id world.paper_bets })

  -- What follows the reply of the emulator.
  abbrev pub link : String → World S → Result String × S → Result (Option String) × World S
  link edge_id world (raise e, s) = (raise e, record world { emulator = s })
  link edge_id world (ok bet_id, s) =
      set_paper_bet edge_id bet_id (store.uuid_of bet_id) (store.write_error edge_id bet_id)
        (record world { emulator = s })

  abbrev pub place_unless :
      Option String → EdgeRecord F → F → F → World S → Result (Option String) × World S
  place_unless (some paper_bet_id) row stake kelly_used world = (ok none, world)
  place_unless none row stake kelly_used world = link row.id world (
      emulator.post_bet (idempotency_key row.edge)
        record { edge_id = row.id; edge = row.edge; stake = stake; kelly = kelly_used }
        world.emulator)

  unfoldable pub place_bet : EdgeRecord F → F → F → World S → Result (Option String) × World S
  unfolding idempotency_key
  place_bet row stake kelly_used world = place_unless row.paper_bet_id row stake kelly_used world

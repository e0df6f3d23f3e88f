-- ===== src/Core/BettorExamples.antt =====
-- A plan for one candidate, and an emulator that remembers its keys.
use bookie_breaker_agent.Prelude.{
  String, List, [], ◌∷◌, ◌≡◌, refl, true, Option, none, some, All, Any, Result, ok, lookup, insert,
  join,
}
use bookie_breaker_agent.Prelude.Int.{pos}
use bookie_breaker_agent.Float.Fixed.{Fixed, fixed_float}
use bookie_breaker_agent.Core.Detector.Candidates.{EdgeCandidate}
use bookie_breaker_agent.Core.Bettor.{Format, candidate_key, available_exposure, plan}
use bookie_breaker_agent.Core.Bettor.Plan.{IsGated, plan-IsGated}
use bookie_breaker_agent.Core.Bettor.Plan.Stakes.{share, IsStakedAt, wanted, plan-IsStakedAt}
use bookie_breaker_agent.Core.Bettor.Place.{
  EdgeRecord, Emulator, Store, World, idempotency_key, place_bet,
}
use bookie_breaker_agent.Core.DetectorExamples.{first_price}

abbrev pub format : Format Fixed
format = record { show_line = λ l. ""; show_odds = λ o. "-110" }

abbrev pub same_key : String → String
same_key text = text

-- A known key gets its bet again.
abbrev pub reply :
    String → List (String × String) → Option String → Result String × List (String × String)
reply key s (some bet_id) = (ok bet_id, s)
reply key s none = (ok "bet", insert key "bet" s)

abbrev pub emulator : Emulator Fixed (List (String × String))
emulator = record { post_bet = λ key body s. reply key s (lookup key s) }

-- Every id is a UUID, and every write succeeds.
abbrev pub store : Store
store = record { uuid_of = λ id. some id; write_error = λ edge_id bet_id. none }

abbrev candidates : List (EdgeCandidate Fixed)
candidates = first_price ∷ []

plan-IsGated_example :
    All
      (λ key. (true ≡ true) × Any (IsGated format 0 (some (pos 1_000_000)) key) candidates)
      (plan format
        (pos 150_000)
        candidates
        (pos 100_000_000)
        (pos 0)
        true
        0
        (some (pos 1_000_000))).to_bet
plan-IsGated_example =
    plan-IsGated format (pos 150_000) candidates (pos 100_000_000) (pos 0) true 0
      (some (pos 1_000_000))

plan-IsStakedAt_example :
    All
      (λ key.
        Any
          (λ c.
            IsGated format 0 none key c
            × IsStakedAt
                (plan format (pos 20_000) candidates (pos 100_000_000) (pos 0) true 0 none)
                (pos 100_000_000)
                key
                (share
                  (wanted format candidates 0 none)
                  (available_exposure (pos 20_000) (pos 100_000_000) (pos 0))
                  c.kelly))
          candidates)
      (plan format (pos 20_000) candidates (pos 100_000_000) (pos 0) true 0 none).to_bet
plan-IsStakedAt_example =
    plan-IsStakedAt format (pos 20_000) candidates (pos 100_000_000) (pos 0) true 0 none

abbrev row : EdgeRecord Fixed
row = record {
  id = "row";
  edge = first_price;
  recommended_stake = pos 4_000_000;
  paper_bet_id = none;
}

abbrev empty_world : World (List (String × String))
empty_world = record { emulator = []; paper_bets = [] }

abbrev bet_key : String
bet_key = "game:MONEYLINE:HOME:first::-110"

abbrev world_after : World (List (String × String))
world_after = record { emulator = (bet_key, "bet") ∷ []; paper_bets = ("row", "bet") ∷ [] }

placed :
    place_bet format same_key emulator store row (pos 4_000_000) (pos 40_000) empty_world
    ≡ (ok (some "bet"), world_after)
unfolding place_bet idempotency_key candidate_key join insert lookup
placed = refl

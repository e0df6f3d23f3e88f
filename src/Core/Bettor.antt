-- ===== src/Core/Bettor.antt =====
-- core/bettor.py: the gating and the sizing of a run's bets, and their placement. The bookie
-- emulator and the repository of edges are parameters, as are the formats of numbers in a key.
pub mod Plan
pub mod Place
use bookie_breaker_agent.Prelude.{
  String, List, [], ◌∷◌, map, select, Option, none, some, Bool, true, false, not, ◌&&◌, insert,
  join, Result, ok, raise, api_error, value_error, other, if◌then◌else◌,
}
use bookie_breaker_agent.Prelude.Int.{ℤ}
use bookie_breaker_agent.Float.{Float, ◌-◌, ◌*◌, ◌/◌, ◌≤?◌, ◌<?◌, whole, max}
use bookie_breaker_agent.Float.Time.{DateTime, total_seconds}
use bookie_breaker_agent.Edges.Kelly.{BetSizing, scale_simultaneous_bets}
use bookie_breaker_agent.Edges.Decay.{BetDecision, bet_now, wait, pass, should_bet_now}
use bookie_breaker_agent.Core.Detector.Candidates.{EdgeCandidate}

pub record BetPlan {ℓ} (F : Type ℓ) : Type ℓ where
  pub stakes : List (String × F)
  pub kelly : List (String × F)
  pub to_bet : List String

-- How Python prints numbers in an f-string.
pub record Format {ℓ} (F : Type ℓ) : Type ℓ where
  pub show_line : Option F → String
  pub show_odds : ℤ → String

-- `decision == "BET_NOW"`
abbrev pub is_bet_now : BetDecision → Bool
is_bet_now bet_now = true
is_bet_now wait = false
is_bet_now pass = false

module _ {ℓ} {F : Type ℓ} where
  -- The f-string, whose parts a colon separates.
  unfoldable pub candidate_key : Format F → EdgeCandidate F → String
  candidate_key format candidate = join ":" (
      candidate.game_id
      ∷ candidate.market_type
      ∷ candidate.selection
      ∷ candidate.sportsbook_key
      ∷ format.show_line candidate.line_value
      ∷ format.show_odds candidate.odds_american
      ∷ [])

  module _ ⦃f : Float F⦄ where
    abbrev pub fallback_bankroll_units : F
    fallback_bankroll_units = f.decimal 1000 1

    -- The reply of the emulator: the bankroll's units and the open exposure.
    unfoldable pub fetch_bankroll : Result (F × F) → Result (F × F)
    fetch_bankroll (ok bankroll) = ok bankroll
    fetch_bankroll (raise (api_error e)) = ok (fallback_bankroll_units, f.decimal 0 1)
    fetch_bankroll (raise (value_error m)) = raise (value_error m)
    fetch_bankroll (raise (other m)) = raise (other m)

    abbrev pub hours_until : DateTime → DateTime → F
    hours_until expires_at now = total_seconds expires_at now / whole 3600

    unfoldable pub should_bet : EdgeCandidate F → DateTime → Bool
    should_bet candidate now =
        let hours_until_game = hours_until candidate.expires_at now in
        if not candidate.meets_threshold
        then false
        else if hours_until_game ≤? whole 0
        then false
        else is_bet_now (
            should_bet_now candidate.edge_percentage candidate.confidence hours_until_game
              candidate.league candidate.market_type)

    -- `c.edge_percentage >= min_edge_threshold`, where one is given
    abbrev pub over_threshold : Option F → EdgeCandidate F → Bool
    over_threshold none candidate = true
    over_threshold (some threshold) candidate = threshold ≤? candidate.edge_percentage

    -- `bettable`
    abbrev pub bettable : List (EdgeCandidate F) → DateTime → Option F → List (EdgeCandidate F)
    bettable candidates now min_edge_threshold =
        select (λ c. over_threshold min_edge_threshold c)
          (select (λ c. should_bet c now) candidates)

    unfoldable pub available_exposure : F → F → F → F
    available_exposure max_total_exposure bankroll_units open_exposure_units =
        max
          (max_total_exposure
            - (if whole 0 <? bankroll_units
                then open_exposure_units / bankroll_units
                else f.decimal 10 1))
          (f.decimal 0 1)

    module _ (format : Format F) where
      -- `BetSizing(game_id=candidate_key(c), kelly_fraction=c.kelly_fraction)`
      abbrev pub sizing_of : EdgeCandidate F → BetSizing F
      sizing_of c = record {
        game_id = candidate_key format c;
        kelly = c.kelly;
        scaled = false;
        scale_factor = f.decimal 10 1;
      }

      -- The first loop: every candidate at its own fraction.
      unfoldable pub size_all : F → List (EdgeCandidate F) → BetPlan F → BetPlan F
      size_all bankroll_units [] plan = plan
      size_all bankroll_units (c ∷ candidates) plan =
          size_all bankroll_units candidates (record plan {
            stakes =
                insert (candidate_key format c) (f.round_to 2 (c.kelly * bankroll_units))
                  plan.stakes;
            kelly = insert (candidate_key format c) c.kelly plan.kelly;
          })

    -- The second loop: the bets at their scaled fractions.
    unfoldable pub add_bets : F → List (BetSizing F) → BetPlan F → BetPlan F
    add_bets bankroll_units [] plan = plan
    add_bets bankroll_units (sizing ∷ sizings) plan =
        let stake = f.round_to 2 (sizing.kelly * bankroll_units) in
        let rest = add_bets bankroll_units sizings (record plan {
          stakes = insert sizing.game_id stake plan.stakes;
          kelly = insert sizing.game_id sizing.kelly plan.kelly;
        }) in
        if whole 0 <? stake then record rest { to_bet = sizing.game_id ∷ rest.to_bet } else rest

    -- `sizings`
    unfoldable pub sizings :
        Format F → F → List (EdgeCandidate F) → F → F → DateTime → Option F → List (BetSizing F)
    unfolding available_exposure
    sizings format max_total_exposure candidates bankroll_units open_exposure_units now
          min_edge_threshold =
        scale_simultaneous_bets
          (map (sizing_of format) (bettable candidates now min_edge_threshold))
          (available_exposure max_total_exposure bankroll_units open_exposure_units)

    abbrev pub empty_plan : BetPlan F
    empty_plan = record { stakes = []; kelly = []; to_bet = [] }

    -- Nothing is added where no bet passes the gates.
    unfoldable pub plan :
        Format F → F → List (EdgeCandidate F) → F → F → Bool → DateTime → Option F → BetPlan F
    unfolding size_all add_bets sizings
    plan format max_total_exposure candidates bankroll_units open_exposure_units auto_bet now
          min_edge_threshold =
        let sized = size_all format bankroll_units candidates empty_plan in
        if not auto_bet
        then sized
        else add_bets bankroll_units
            (sizings format max_total_exposure candidates bankroll_units open_exposure_units now
              min_edge_threshold)
            sized

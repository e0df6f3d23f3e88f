-- ===== src/Core/Detector/Detect.antt =====
-- core/edge_detector.py, `EdgeDetector.detect`: the best-priced candidate of each market and side.
pub mod Best
pub mod Fair
pub mod Invariant
pub mod Sound
pub mod Total
pub mod Unique
use bookie_breaker_agent.Prelude.{
  String, List, [], ◌∷◌, map, length, Option, none, some, Bool, not, ◌&&◌, ◌||◌, Result, ok, ◌>>=◌,
  ◌>>◌, find, put, text_of, str_eq, ◌==◌, if◌then◌else◌,
}
use bookie_breaker_agent.Float.{Float, ◌+◌, ◌/◌, ◌<?◌, whole, check_divisor}
use bookie_breaker_agent.Float.Time.{DateTime}
use bookie_breaker_agent.Clients.Payloads.{Game, LineSnapshot, PredictionItem}
use bookie_breaker_agent.Edges.Odds.{american_to_implied_prob, american_to_decimal}
use bookie_breaker_agent.Core.Detector.Markets.{Sides, option_eq, group_markets, devig_group}
use bookie_breaker_agent.Core.Detector.Matching.{Maps, no_maps, prediction_maps, match_prediction}
use bookie_breaker_agent.Core.Detector.Candidates.{
  EdgeCandidate, Detector, Context, single_sided_confidence_penalty, build_candidate,
}

-- (market, side, line, player, stat)
pub record CandidateKey {ℓ} (F : Type ℓ) : Type ℓ where
  pub market : String
  pub side : String
  pub line : Option F
  pub player : String
  pub stat : String

-- A line with its fair probability.
abbrev pub Priced {ℓ} : Type ℓ → Type ℓ
Priced F = LineSnapshot F × F

-- `candidates`
abbrev pub Best {ℓ} : Type ℓ → Type ℓ
Best F = List (CandidateKey F × EdgeCandidate F)

-- `list(group.values())`
abbrev pub values {ℓ} : {F : Type ℓ} → Sides F → List (LineSnapshot F)
values group = map (λ e. e.1) group

module _ {ℓ} {F : Type ℓ} ⦃f : Float F⦄ where
  abbrev pub same_key : CandidateKey F → CandidateKey F → Bool
  same_key a b =
      str_eq a.market b.market
      && (str_eq a.side b.side
          && (option_eq a.line b.line && (str_eq a.player b.player && str_eq a.stat b.stat)))

  unfoldable pub candidate_key : EdgeCandidate F → CandidateKey F
  candidate_key c = record {
    market = c.market_type;
    side = text_of c.side;
    line = c.line_value;
    player = text_of c.player_external_id;
    stat = text_of c.stat_type;
  }

  unfoldable pub price_group :
      Detector F → List (LineSnapshot F) → Result (Option (List (Priced F)))
  price_group detector (only ∷ []) = do
    implied_raw ← american_to_implied_prob only.odds_american
    check_divisor (whole 1 + detector.single_sided_haircut)
    ok (some ((only, implied_raw / (whole 1 + detector.single_sided_haircut)) ∷ []))
  price_group detector lines = devig_group detector.devig_method lines

  -- `candidates[key] = candidate`, where there is none yet or the new one pays more.
  abbrev pub replace_if_better :
      EdgeCandidate F → Option (EdgeCandidate F) → Best F → Result (Best F)
  replace_if_better c none best = ok (put same_key (candidate_key c) c best)
  replace_if_better c (some existing) best = do
    pays ← american_to_decimal {F = F} c.odds_american
    paid ← american_to_decimal {F = F} existing.odds_american
    ok (if paid <? pays then put same_key (candidate_key c) c best else best)

  unfoldable pub keep_best : Option (EdgeCandidate F) → Best F → Result (Best F)
  unfolding candidate_key
  keep_best none best = ok best
  keep_best (some c) best = replace_if_better c (find same_key (candidate_key c) best) best

  module _ (normalize : String → String) (parse_datetime : String → Option DateTime)
      (uuid_of : String → Option String) (detector : Detector F) where
    -- `devig_method_override` and `confidence_multiplier` of a group
    abbrev pub override_of : Sides F → Option String
    override_of group = if length group == 1 then some "single_sided" else none

    abbrev pub multiplier_of : Sides F → F
    multiplier_of group =
        if length group == 1 then single_sided_confidence_penalty else f.decimal 10 1

    abbrev pub build_matched :
        Context
        → Sides F
        → Priced F
        → Option (F × PredictionItem F)
        → Result (Option (EdgeCandidate F))
    build_matched ctx group priced none = ok none
    build_matched ctx group (line, implied) (some (predicted, prediction)) =
        build_candidate parse_datetime uuid_of detector ctx line predicted implied prediction
          (override_of group) (multiplier_of group)

    -- The candidate of one line of a group.
    unfoldable pub offer : Context → Maps F → Sides F → Priced F → Result (Option (EdgeCandidate F))
    offer ctx maps group priced =
        build_matched ctx group priced (match_prediction normalize maps (priced.0) group)

    unfoldable pub add_lines :
        Context → Maps F → Sides F → List (Priced F) → Best F → Result (Best F)
    unfolding offer keep_best
    add_lines ctx maps group [] best = ok best
    add_lines ctx maps group (priced ∷ rest) best = do
      candidate ← offer ctx maps group priced
      kept ← keep_best candidate best
      add_lines ctx maps group rest kept

    abbrev pub add_priced :
        Context → Maps F → Sides F → Option (List (Priced F)) → Best F → Result (Best F)
    add_priced ctx maps group none best = ok best
    add_priced ctx maps group (some priced) best = add_lines ctx maps group priced best

    unfoldable pub add_groups : Context → Maps F → List (Sides F) → Best F → Result (Best F)
    unfolding add_lines price_group
    add_groups ctx maps [] best = ok best
    add_groups ctx maps (group ∷ groups) best = do
      devigged ← price_group detector (values group)
      kept ← add_priced ctx maps group devigged best
      add_groups ctx maps groups kept

    -- From an `expires_at` that was parsed.
    abbrev pub detect_until :
        Game
        → String
        → List (PredictionItem F)
        → List (LineSnapshot F)
        → Option String
        → DateTime
        → Bool
        → Option DateTime
        → Result (List (EdgeCandidate F))
    detect_until game external_id predictions lines run now mark_live none = ok []
    detect_until game external_id predictions lines run now mark_live (some expires_at) = do
      best ←
          add_groups
            record {
              game = game;
              game_external_id = external_id;
              simulation_run_id = run;
              expires_at = expires_at;
              now = now;
              is_live = mark_live;
            }
            (prediction_maps normalize predictions no_maps) (group_markets lines) []
      ok (map (λ e. e.1) best)

    unfoldable pub detect :
        Game
        → String
        → List (PredictionItem F)
        → List (LineSnapshot F)
        → Option String
        → DateTime
        → Bool
        → Result (List (EdgeCandidate F))
    unfolding add_groups
    detect game external_id predictions lines run now mark_live =
        detect_until game external_id predictions lines run now mark_live
          (parse_datetime game.scheduled_start)

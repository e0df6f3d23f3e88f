-- ===== src/Core/Detector/Detect/Total.antt =====
-- What detection can raise: every price that it converts is one of a group, and not 0, so that only
-- the arithmetic of floats is left to fail.
use bookie_breaker_agent.Prelude.{
  String, List, [], ◌∷◌, ◌≡◌, refl, false, not, ◌&&◌, ◌||◌, inl, inr, Option, none, some, Bool,
  zero, suc, Result, ok, Exception, other, Bool-cases, Yields, yielded, failed_with, >>=-Yields,
  AnyValue, All, find, find-All, put-All,
}
use bookie_breaker_agent.Prelude.Int.{ℤ, pos, negsuc}
use bookie_breaker_agent.Float.{Float, IsFloat, ◌+◌, ◌-◌, ◌≤?◌, ◌<?◌, whole, check_divisor}
use bookie_breaker_agent.Float.Time.{DateTime}
use bookie_breaker_agent.Clients.Payloads.{Game, LineSnapshot, PredictionItem}
use bookie_breaker_agent.Edges.Odds.{overflows, american_to_decimal}
use bookie_breaker_agent.Edges.Ev.{calculate_ev, calculate_ev_pct}
use bookie_breaker_agent.Edges.Kelly.{kelly_fraction}
use bookie_breaker_agent.Edges.Devig.{in_unit}
use bookie_breaker_agent.Core.Detector.Markets.{Sides, is_zero, group_markets}
use bookie_breaker_agent.Core.Detector.Markets.Total.{
  IsQuoted, PricedAll, american_to_implied_prob-ok, devig_group_total,
}
use bookie_breaker_agent.Core.Detector.Markets.Groups.{AllOf, IsMarket, group_markets-IsMarket}
use bookie_breaker_agent.Core.Detector.Matching.{Maps, no_maps, prediction_maps, match_prediction}
use bookie_breaker_agent.Core.Detector.Candidates.{
  EdgeCandidate, Detector, Context, candidate_of, build_candidate,
}
use bookie_breaker_agent.Core.Detector.Detect.{
  Best, Priced, values, same_key, candidate_key, price_group, replace_if_better, keep_best,
  build_matched, offer, add_lines, add_priced, add_groups, detect_until, detect,
}
use bookie_breaker_agent.Core.Detector.Detect.Sound.{AllBest}

-- The exceptions of the arithmetic of floats.
pub data IsArithmetic : Exception → Type 0 where
  zero_division : IsArithmetic (other "ZeroDivisionError")
  overflow : IsArithmetic (other "OverflowError")

module _ {ℓ} {F : Type ℓ} ⦃f : Float F⦄ where
  check_divisor-Yields : (d : F) → Yields IsArithmetic AnyValue (check_divisor d)
  check_divisor-Yields d = elim (Bool-cases ((d ≤? whole 0) && (whole 0 ≤? d))) [
    | inl e ↦ rw e (failed_with _ zero_division)
    | inr e ↦ rw e (yielded tt tt)
  ]

  american_to_decimal-Yields :
      (odds : ℤ)
      → is_zero odds ≡ false
      → Yields IsArithmetic AnyValue (american_to_decimal {F = F} odds)
  unfolding american_to_decimal
  american_to_decimal-Yields (pos zero) h = cc
  american_to_decimal-Yields (negsuc n) h = yielded _ tt
  american_to_decimal-Yields (pos (suc n)) h = elim (Bool-cases (overflows (suc n))) [
    | inl e ↦ rw e (failed_with _ overflow)
    | inr e ↦ rw e (yielded _ tt)
  ]

  calculate_ev-Yields :
      (p : F) (odds : ℤ) → is_zero odds ≡ false → Yields IsArithmetic AnyValue (calculate_ev p odds)
  unfolding calculate_ev
  calculate_ev-Yields p odds h =
      >>=-Yields (american_to_decimal-Yields odds h) (λ d u. yielded _ tt)

  calculate_ev_pct-Yields :
      (p : F) (odds : ℤ)
      → is_zero odds ≡ false
      → Yields IsArithmetic AnyValue (calculate_ev_pct p odds)
  unfolding calculate_ev_pct
  calculate_ev_pct-Yields p odds h = >>=-Yields (calculate_ev-Yields p odds h) (λ v u. yielded _ tt)

  kelly_fraction-Yields :
      (p : F) (odds : ℤ) (m c : F)
      → is_zero odds ≡ false
      → Yields IsArithmetic AnyValue (kelly_fraction p odds m c)
  unfolding kelly_fraction
  kelly_fraction-Yields p odds m c h =
      >>=-Yields (american_to_decimal-Yields odds h)
        (λ d u. >>=-Yields (check_divisor-Yields (d - whole 1)) (λ v w. yielded _ tt))

  abbrev HasOdds : EdgeCandidate F → Type 0
  HasOdds c = is_zero c.odds_american ≡ false

  abbrev OfferHasOdds : Option (EdgeCandidate F) → Type 0
  OfferHasOdds none = Unit
  OfferHasOdds (some c) = HasOdds c

  build_candidate-Yields :
      (parse_datetime : String → Option DateTime) (uuid_of : String → Option String)
      (detector : Detector F) (ctx : Context) (line : LineSnapshot F) (p q : F)
      (prediction : PredictionItem F) (override : Option String) (m : F)
      → IsQuoted line
      → Yields IsArithmetic OfferHasOdds
          (build_candidate parse_datetime uuid_of detector ctx line p q prediction override m)
  unfolding build_candidate candidate_of
  build_candidate-Yields parse_datetime uuid_of detector ctx line p q prediction override m h =
      elim (Bool-cases (not (in_unit p))) [
        | inl e ↦ rw e (yielded none tt)
        | inr e ↦ rw e (
            >>=-Yields (calculate_ev_pct-Yields p line.odds_american h) (λ v u.
              elim (Bool-cases ((p ≤? q) || (v ≤? whole 0))) [
                | inl g ↦ rw g (yielded none tt)
                | inr g ↦ rw g (
                    >>=-Yields
                      (kelly_fraction-Yields p line.odds_american detector.kelly_multiplier
                        detector.max_bet_pct h)
                      (λ k w. yielded _ h))
              ]))
      ]

  replace_if_better-Yields :
      (c : EdgeCandidate F) (old : Option (EdgeCandidate F)) (best : Best F)
      → HasOdds c
      → OfferHasOdds old
      → AllBest HasOdds best
      → Yields IsArithmetic (AllBest HasOdds) (replace_if_better c old best)
  replace_if_better-Yields c none best h h₀ hs =
      yielded _ (put-All same_key HasOdds (candidate_key c) c best h hs)
  replace_if_better-Yields c (some old) best h h₀ hs =
      >>=-Yields (american_to_decimal-Yields c.odds_american h) (λ pays u.
        >>=-Yields (american_to_decimal-Yields old.odds_american h₀) (λ paid v.
          elim (Bool-cases (paid <? pays)) [
            | inl t ↦ rw t (yielded _ (put-All same_key HasOdds (candidate_key c) c best h hs))
            | inr t ↦ rw t (yielded best hs)
          ]))

  found-HasOdds :
      (c : EdgeCandidate F) (best : Best F) (old : Option (EdgeCandidate F))
      → find same_key (candidate_key c) best ≡ old
      → AllBest HasOdds best
      → OfferHasOdds old
  found-HasOdds c best none e hs = tt
  found-HasOdds c best (some old) e hs = find-All same_key HasOdds (candidate_key c) best old e hs

  keep_best-Yields :
      (offered : Option (EdgeCandidate F)) (best : Best F)
      → OfferHasOdds offered
      → AllBest HasOdds best
      → Yields IsArithmetic (AllBest HasOdds) (keep_best offered best)
  unfolding keep_best
  keep_best-Yields none best h hs = yielded best hs
  keep_best-Yields (some c) best h hs =
      replace_if_better-Yields c (find same_key (candidate_key c) best) best h
        (found-HasOdds c best (find same_key (candidate_key c) best) refl hs) hs

  values-IsQuoted : (key : _) (sides : Sides F) → AllOf key sides → All IsQuoted (values sides)
  values-IsQuoted key [] h = tt
  values-IsQuoted key ((side, line) ∷ sides) (h, hs) = (h.quoted, values-IsQuoted key sides hs)

  devigged-Yields :
      (result : Result (Option (List (Priced F))))
      → (priced : Option (List (Priced F))) × (result ≡ ok priced) × PricedAll IsQuoted priced
      → Yields IsArithmetic (PricedAll IsQuoted) result
  devigged-Yields result (priced, e, h) = rw e (yielded priced h)

  price_group-Yields :
      (detector : Detector F) (lines : List (LineSnapshot F))
      → All IsQuoted lines
      → Yields IsArithmetic (PricedAll IsQuoted) (price_group detector lines)
  unfolding price_group
  price_group-Yields detector [] h =
      devigged-Yields _ (devig_group_total detector.devig_method [] h)
  price_group-Yields detector (only ∷ []) h =
      let (raw, e) = american_to_implied_prob-ok {F = F} only.odds_american (h.0) in
      rw e (
        >>=-Yields (check_divisor-Yields (whole 1 + detector.single_sided_haircut))
          (λ u v. yielded _ h))
  price_group-Yields detector (a ∷ b ∷ lines) h =
      devigged-Yields _ (devig_group_total detector.devig_method (a ∷ b ∷ lines) h)

  module _ (normalize : String → String) (parse_datetime : String → Option DateTime)
      (uuid_of : String → Option String) (detector : Detector F) where
    module _ (ctx : Context) (maps : Maps F) where
      build_matched-Yields :
          (group : Sides F) (priced : Priced F) (matched : Option (F × PredictionItem F))
          → IsQuoted (priced.0)
          → Yields IsArithmetic OfferHasOdds
              (build_matched normalize parse_datetime uuid_of detector ctx group priced matched)
      build_matched-Yields group priced none h = yielded none tt
      build_matched-Yields group (line, implied) (some (predicted, prediction)) h =
          build_candidate-Yields parse_datetime uuid_of detector ctx line predicted implied
            prediction _ _ h

      add_lines-Yields :
          (group : Sides F) (lines : List (Priced F)) (best : Best F)
          → All (λ e. IsQuoted (e.0)) lines
          → AllBest HasOdds best
          → Yields IsArithmetic
              (AllBest HasOdds)
              (add_lines normalize parse_datetime uuid_of detector ctx maps group lines best)
      unfolding add_lines offer
      add_lines-Yields group [] best h hs = yielded best hs
      add_lines-Yields group (priced ∷ lines) best (h, rest) hs =
          >>=-Yields
            (build_matched-Yields group priced (match_prediction normalize maps (priced.0) group) h)
            (λ c hc.
              >>=-Yields (keep_best-Yields c best hc hs)
                (λ mid hm. add_lines-Yields group lines mid rest hm))

      add_priced-Yields :
          (group : Sides F) (devigged : Option (List (Priced F))) (best : Best F)
          → PricedAll IsQuoted devigged
          → AllBest HasOdds best
          → Yields IsArithmetic
              (AllBest HasOdds)
              (add_priced normalize parse_datetime uuid_of detector ctx maps group devigged best)
      add_priced-Yields group none best h hs = yielded best hs
      add_priced-Yields group (some lines) best h hs = add_lines-Yields group lines best h hs

      add_groups-Yields :
          (groups : List (Sides F)) (best : Best F)
          → All IsMarket groups
          → AllBest HasOdds best
          → Yields IsArithmetic
              (AllBest HasOdds)
              (add_groups normalize parse_datetime uuid_of detector ctx maps groups best)
      unfolding add_groups
      add_groups-Yields [] best h hs = yielded best hs
      add_groups-Yields (group ∷ groups) best (h, rest) hs =
          >>=-Yields
            (price_group-Yields detector (values group) (values-IsQuoted h.key group h.lines_of))
            (λ devigged hd.
              >>=-Yields (add_priced-Yields group devigged best hd hs)
                (λ mid hm. add_groups-Yields groups mid rest hm))

    module _ (laws : IsFloat F) where
      detect_until-Yields :
          (game : Game) (external_id : String) (predictions : List (PredictionItem F))
          (lines : List (LineSnapshot F)) (run : Option String) (now : DateTime) (mark_live : Bool)
          (start : Option DateTime)
          → Yields IsArithmetic AnyValue (
              detect_until normalize parse_datetime uuid_of detector game external_id predictions
                lines run now mark_live start)
      detect_until-Yields game external_id predictions lines run now mark_live none = yielded [] tt
      detect_until-Yields game external_id predictions lines run now mark_live (some t) =
          >>=-Yields
            (add_groups-Yields
              record {
                game = game;
                game_external_id = external_id;
                simulation_run_id = run;
                expires_at = t;
                now = now;
                is_live = mark_live;
              }
              (prediction_maps normalize predictions no_maps) (group_markets lines) []
              (group_markets-IsMarket laws lines) tt)
            (λ best h. yielded _ tt)

      -- Whatever the lines, the predictions and the start of the game, detection returns, or
      -- raises a ZeroDivisionError or an OverflowError: no price that it converts is 0, no key
      -- is missing, and the ValueError of a de-vigging method is caught.
      pub detect-Yields :
          (game : Game) (external_id : String) (predictions : List (PredictionItem F))
          (lines : List (LineSnapshot F)) (run : Option String) (now : DateTime) (mark_live : Bool)
          → Yields IsArithmetic AnyValue (
              detect normalize parse_datetime uuid_of detector game external_id predictions lines
                run now mark_live)
      unfolding detect
      detect-Yields game external_id predictions lines run now mark_live =
          detect_until-Yields game external_id predictions lines run now mark_live
            (parse_datetime game.scheduled_start)

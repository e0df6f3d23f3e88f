-- ===== src/Core/Detector/Detect/Sound.antt =====
-- Every edge that `detect` returns is a value bet.
use bookie_breaker_agent.Prelude.{
  String, List, [], ◌∷◌, map, ◌≡◌, Option, none, some, Bool, ok, ok-injective, >>=-eq-ok, All, Any,
  here, there, refl, put, put-All,
}
use mathlib.Core.Path.{subst}
use bookie_breaker_agent.Float.{Float, IsFloat, ◌≤◌, whole}
use bookie_breaker_agent.Float.Time.{DateTime}
use bookie_breaker_agent.Clients.Payloads.{Game, LineSnapshot, PredictionItem}
use bookie_breaker_agent.Core.Detector.Markets.{Sides, group_markets}
use bookie_breaker_agent.Core.Detector.Matching.{Maps, match_prediction}
use bookie_breaker_agent.Core.Detector.Candidates.{EdgeCandidate, Detector, Context}
use bookie_breaker_agent.Core.Detector.Candidates.Sound.{
  IsValueBet, build_candidate-IsValueBet, build_candidate-line,
}
use bookie_breaker_agent.Core.Detector.Detect.Fair.{IsFair, price_group-IsFair}
use bookie_breaker_agent.Core.Detector.Detect.Invariant.{add_groups-keeps}
use bookie_breaker_agent.Core.Detector.Detect.{
  Best, Priced, values, same_key, candidate_key, build_matched, offer, add_groups, detect_until,
  detect,
}

All-there {ℓ} :
    {A : Type ℓ} (y : A) (ys xs : List A)
    → All (λ x. Any (λ g. g ≡ x) ys) xs
    → All (λ x. Any (λ g. g ≡ x) (y ∷ ys)) xs
All-there y ys [] h = tt
All-there y ys (x ∷ xs) (h, hs) = (there y ys h, All-there y ys xs hs)

All-here {ℓ} : {A : Type ℓ} (xs : List A) → All (λ x. Any (λ g. g ≡ x) xs) xs
All-here [] = tt
All-here (x ∷ xs) = (here x xs refl, All-there x xs xs (All-here xs))

module _ {ℓ} {F : Type ℓ} ⦃f : Float F⦄ where
  abbrev pub AllBest {κ} : (EdgeCandidate F → Type κ) → Best F → Type κ
  AllBest P best = All (λ e. P (e.1)) best

  All-values {κ} :
      (P : EdgeCandidate F → Type κ) (best : Best F) → AllBest P best → All P (map (λ e. e.1) best)
  All-values P [] h = tt
  All-values P (e ∷ best) (h, hs) = (h, All-values P best hs)

  -- The edge rests on a line of one of the groups: it beats the line's fair probability, at the
  -- line's own odds and book.
  pub record IsFairBet (detector : Detector F) (league : String) (groups : List (Sides F))
      (c : EdgeCandidate F) : Type ℓ where
    pub group : Sides F
    pub line : LineSnapshot F
    pub implied : F
    pub of_groups : Any (λ g. g ≡ group) groups
    pub fair : IsFair detector (values group) (line, implied)
    pub odds_of_line : c.odds_american ≡ line.odds_american
    pub book_of_line : c.sportsbook_key ≡ line.sportsbook_key
    pub value_bet : IsValueBet detector league implied c

  module _ (laws : IsFloat F) (normalize : String → String)
      (parse_datetime : String → Option DateTime) (uuid_of : String → Option String)
      (detector : Detector F) (multiplier_nonneg : whole 0 ≤ detector.kelly_multiplier)
      (cap_nonneg : whole 0 ≤ detector.max_bet_pct) where
    module _ (ctx : Context) (maps : Maps F) (groups : List (Sides F)) where
      abbrev Sound : EdgeCandidate F → Type ℓ
      Sound = IsFairBet detector ctx.game.league groups

      build_matched-IsFairBet :
          (group : Sides F) (priced : Priced F) (matched : Option (F × PredictionItem F))
          (c : EdgeCandidate F)
          → Any (λ g. g ≡ group) groups
          → IsFair detector (values group) priced
          → build_matched normalize parse_datetime uuid_of detector ctx group priced matched
            ≡ ok (some c)
          → Sound c
      build_matched-IsFairBet group priced none c g q h = cc
      build_matched-IsFairBet group (line, implied) (some (predicted, prediction)) c g q h =
          let (odds, book) =
            build_candidate-line parse_datetime uuid_of detector ctx line prediction _ predicted
              implied _ c h in
          record {
            group = group;
            line = line;
            implied = implied;
            of_groups = g;
            fair = q;
            odds_of_line = odds;
            book_of_line = book;
            value_bet =
                build_candidate-IsValueBet laws parse_datetime uuid_of detector ctx
                  multiplier_nonneg cap_nonneg line prediction _ predicted implied _ c h;
          }

      assigned-IsFairBet :
          (group : Sides F) (priced : Priced F) (c : EdgeCandidate F) (best : Best F)
          → Any (λ g. g ≡ group) groups
          → IsFair detector (values group) priced
          → offer normalize parse_datetime uuid_of detector ctx maps group priced ≡ ok (some c)
          → AllBest Sound best
          → AllBest Sound (put same_key (candidate_key c) c best)
      unfolding offer
      assigned-IsFairBet group priced c best g q o hs =
          put-All same_key Sound (candidate_key c) c best
            (build_matched-IsFairBet group priced (match_prediction normalize maps (priced.0) group)
              c g q o)
            hs

    detect_until-IsFairBet :
        (game : Game) (external_id : String) (predictions : List (PredictionItem F))
        (lines : List (LineSnapshot F)) (run : Option String) (now : DateTime) (mark_live : Bool)
        (start : Option DateTime) (edges : List (EdgeCandidate F))
        → detect_until normalize parse_datetime uuid_of detector game external_id predictions lines
            run now mark_live start
          ≡ ok edges
        → All (IsFairBet detector game.league (group_markets lines)) edges
    detect_until-IsFairBet game external_id predictions lines run now mark_live none edges h =
        subst (All (IsFairBet detector game.league (group_markets lines))) (ok-injective [] edges h)
          tt
    detect_until-IsFairBet game external_id predictions lines run now mark_live (some t) edges h =
        let (best, e, h₁) =
          >>=-eq-ok (add_groups normalize parse_datetime uuid_of detector _ _ _ _) _ h in
        let groups = group_markets lines in
        subst (All (IsFairBet detector game.league groups)) (ok-injective _ edges h₁) (
          All-values _ best (
            add_groups-keeps normalize parse_datetime uuid_of detector _ _
              (AllBest (IsFairBet detector game.league groups))
              (λ group. Any (λ g. g ≡ group) groups) (λ group. IsFair detector (values group))
              (λ group all d. price_group-IsFair detector (values group) all d)
              (assigned-IsFairBet _ _ groups) groups [] best (All-here groups) tt e))

    -- Every edge that detect returns stands for a line of a complete group, at that line's odds
    -- and book. It rests on a probability strictly between 0 and 1 and above the line's fair
    -- probability, which is the implied one over 1 plus the haircut for a line alone, and else
    -- the line's share of what the de-vigging method makes of the implied probabilities of the
    -- whole group. It has a positive expected value and a stake between 0 and the cap, and is
    -- marked actionable exactly when its value clears the league minimum, for a Kelly multiplier
    -- and a cap that are not negative.
    pub detect-IsFairBet :
        (game : Game) (external_id : String) (predictions : List (PredictionItem F))
        (lines : List (LineSnapshot F)) (run : Option String) (now : DateTime) (mark_live : Bool)
        (edges : List (EdgeCandidate F))
        → detect normalize parse_datetime uuid_of detector game external_id predictions lines run
            now mark_live
          ≡ ok edges
        → All (IsFairBet detector game.league (group_markets lines)) edges
    unfolding detect
    detect-IsFairBet game external_id predictions lines run now mark_live edges h =
        detect_until-IsFairBet game external_id predictions lines run now mark_live
          (parse_datetime game.scheduled_start) edges h

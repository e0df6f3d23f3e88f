-- ===== src/Core/Detector/Candidates/Sound.antt =====
-- What `_build_candidate` reports.
use bookie_breaker_agent.Prelude.{
  String, ◌≡◌, refl, true, false, not, ◌||◌, Option, some, ok, ok-injective, some-injective,
  >>=-eq-ok, passed-none, arith,
}
use mathlib.Core.Path.{subst}
use bookie_breaker_agent.Float.{Float, IsFloat, ◌-◌, ◌*◌, ◌/◌, ◌≤◌, ◌<◌, ◌≤?◌, whole}
use bookie_breaker_agent.Float.Time.{DateTime}
use bookie_breaker_agent.Float.Order.{
  lt_of_not_le, le_of_not_le, mul_nonneg, sub_nonneg, decimal_nonneg, round_nonneg, div_nonneg,
}
use bookie_breaker_agent.Clients.Payloads.{LineSnapshot, PredictionItem}
use bookie_breaker_agent.Edges.Ev.{calculate_ev_pct, min_ev_pct_for_league}
use bookie_breaker_agent.Edges.Kelly.{kelly_fraction}
use bookie_breaker_agent.Edges.Kelly.Bounds.{kelly_fraction_bounds}
use bookie_breaker_agent.Edges.Devig.{in_unit}
use bookie_breaker_agent.Core.Detector.Candidates.{
  EdgeCandidate, Detector, Context, build_candidate, candidate_of,
}

module _ {ℓ} {F : Type ℓ} ⦃f : Float F⦄ where
  -- What is true of a candidate: the probabilities and the value behind its rounded fields.
  pub record IsValueBet (detector : Detector F) (league : String) (implied : F)
      (c : EdgeCandidate F) : Type ℓ where
    pub predicted : F
    pub ev_pct : F
    pub above_zero : whole 0 < predicted
    pub below_one : predicted < whole 1
    pub beats_market : implied < predicted
    pub valued : calculate_ev_pct predicted c.odds_american ≡ ok ev_pct
    pub positive_ev : whole 0 < ev_pct
    pub records_predicted : c.predicted_probability ≡ f.round_to 5 predicted
    pub records_implied : c.implied_probability ≡ f.round_to 5 implied
    pub edge_nonneg : whole 0 ≤ c.edge_percentage
    pub value_nonneg : whole 0 ≤ c.expected_value
    pub kelly_nonneg : whole 0 ≤ c.kelly
    pub kelly_capped : c.kelly ≤ detector.max_bet_pct
    pub actionable : c.meets_threshold ≡ (min_ev_pct_for_league league ≤? ev_pct)

  module _ (laws : IsFloat F) (parse_datetime : String → Option DateTime)
      (uuid_of : String → Option String) (detector : Detector F) (ctx : Context)
      (multiplier_nonneg : whole 0 ≤ detector.kelly_multiplier)
      (cap_nonneg : whole 0 ≤ detector.max_bet_pct) (line : LineSnapshot F)
      (prediction : PredictionItem F) (override : Option String) where
    candidate_of-IsValueBet :
        (p q m v k : F)
        → in_unit p ≡ true
        → calculate_ev_pct p line.odds_american ≡ ok v
        → (p ≤? q) ≡ false
        → (v ≤? whole 0) ≡ false
        → kelly_fraction p line.odds_american detector.kelly_multiplier detector.max_bet_pct ≡ ok k
        → IsValueBet detector ctx.game.league q
            (candidate_of parse_datetime uuid_of detector ctx line p q prediction override m v k)
    unfolding candidate_of
    candidate_of-IsValueBet p q m v k inside ev np nv ek =
        let (kelly_low, kelly_high) =
          kelly_fraction_bounds laws p line.odds_american detector.kelly_multiplier
            detector.max_bet_pct k multiplier_nonneg cap_nonneg ek in
        record {
          predicted = p;
          ev_pct = v;
          above_zero = ground arith;
          below_one = ground arith;
          beats_market = lt_of_not_le laws p q np;
          valued = ev;
          positive_ev = lt_of_not_le laws v (whole 0) nv;
          records_predicted = refl;
          records_implied = refl;
          edge_nonneg = round_nonneg laws 3 ((p - q) * whole 100) (
              mul_nonneg laws (p - q) (whole 100) (sub_nonneg laws p q (le_of_not_le laws p q np))
                (decimal_nonneg laws 100 0));
          value_nonneg = round_nonneg laws 5 (v / whole 100) (
              div_nonneg laws v (whole 100) (laws.decimal_pos 100 0 (omega arith) (omega arith))
                (le_of_not_le laws v (whole 0) nv));
          kelly_nonneg = kelly_low;
          kelly_capped = kelly_high;
          actionable = refl;
        }

    -- A candidate that is built has a probability strictly between 0 and 1 and above the implied
    -- one, a positive expected value, and a stake between 0 and the cap.
    pub build_candidate-IsValueBet :
        (p q m : F) (c : EdgeCandidate F)
        → build_candidate parse_datetime uuid_of detector ctx line p q prediction override m
          ≡ ok (some c)
        → IsValueBet detector ctx.game.league q c
    unfolding build_candidate
    build_candidate-IsValueBet p q m c h =
        let (inside, h₁) = passed-none (not (in_unit p)) _ c h in
        let (v, ev, h₂) = >>=-eq-ok (calculate_ev_pct p line.odds_american) _ h₁ in
        let (worth, h₃) = passed-none ((p ≤? q) || (v ≤? whole 0)) _ c h₂ in
        let (k, ek, h₄) =
          >>=-eq-ok
            (kelly_fraction p line.odds_american detector.kelly_multiplier detector.max_bet_pct) _
            h₃ in
        subst (IsValueBet detector ctx.game.league q) (some-injective _ _ (ok-injective _ _ h₄))
          (candidate_of-IsValueBet p q m v k (ground arith) ev (ground arith) (ground arith) ek)

  -- A candidate that is built has the odds and the book of its line.
  pub build_candidate-line :
      (parse_datetime : String → Option DateTime) (uuid_of : String → Option String)
      (detector : Detector F) (ctx : Context) (line : LineSnapshot F)
      (prediction : PredictionItem F) (override : Option String) (p q m : F) (c : EdgeCandidate F)
      → build_candidate parse_datetime uuid_of detector ctx line p q prediction override m
        ≡ ok (some c)
      → (c.odds_american ≡ line.odds_american) × (c.sportsbook_key ≡ line.sportsbook_key)
  unfolding build_candidate candidate_of
  build_candidate-line parse_datetime uuid_of detector ctx line prediction override p q m c h =
      let (_, h₁) = passed-none (not (in_unit p)) _ c h in
      let (v, _, h₂) = >>=-eq-ok (calculate_ev_pct p line.odds_american) _ h₁ in
      let (_, h₃) = passed-none ((p ≤? q) || (v ≤? whole 0)) _ c h₂ in
      let (k, _, h₄) =
        >>=-eq-ok
          (kelly_fraction p line.odds_american detector.kelly_multiplier detector.max_bet_pct) _
          h₃ in
      subst (λ d. (d.odds_american ≡ line.odds_american) × (d.sportsbook_key ≡ line.sportsbook_key))
        (some-injective _ _ (ok-injective _ _ h₄)) (refl, refl)

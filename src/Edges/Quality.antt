-- ===== src/Edges/Quality.antt =====
-- edges/quality.py: the composite quality score and the staleness of a line.
pub mod Order
use bookie_breaker_agent.Prelude.{
  String, List, [], ◌∷◌, Bool, true, false, ◌&&◌, upper, if◌then◌else◌,
}
use bookie_breaker_agent.Float.{Float, ◌+◌, ◌-◌, ◌*◌, ◌/◌, ◌<?◌, whole, min, max}
use bookie_breaker_agent.Float.Time.{DateTime, total_seconds}
use bookie_breaker_agent.Edges.Ev.{get_or}
use bookie_breaker_agent.Edges.Decay.{lookup_pair}

-- The second component of `is_line_stale`, for the text that names the rule.
pub data StaleReason : Type 0 where
  max_age close_to_start imminent_start line_is_fresh : StaleReason

module _ {ℓ} {F : Type ℓ} ⦃f : Float F⦄ where
  abbrev pub market_efficiencies : List (String × String × F)
  market_efficiencies =
      ("NFL", "SPREAD", f.decimal 95 2)
      ∷ ("NBA", "SPREAD", f.decimal 93 2)
      ∷ ("MLB", "MONEYLINE", f.decimal 88 2)
      ∷ ("NCAA_BB", "SPREAD", f.decimal 70 2)
      ∷ ("NCAA_FB", "SPREAD", f.decimal 65 2)
      ∷ ("NCAA_BSB", "MONEYLINE", f.decimal 55 2)
      ∷ ("FIFA_WC", "MONEYLINE", f.decimal 92 2)
      ∷ ("FIFA_WC", "TOTAL", f.decimal 90 2)
      ∷ ("FIFA_WC", "SPREAD", f.decimal 88 2)
      ∷ ("EPL", "MONEYLINE", f.decimal 90 2)
      ∷ ("EPL", "TOTAL", f.decimal 88 2)
      ∷ ("EPL", "SPREAD", f.decimal 86 2)
      ∷ ("NHL", "MONEYLINE", f.decimal 82 2)
      ∷ ("NHL", "TOTAL", f.decimal 80 2)
      ∷ ("NHL", "SPREAD", f.decimal 78 2)
      ∷ ("NCAA_HKY", "MONEYLINE", f.decimal 70 2)
      ∷ ("NCAA_HKY", "TOTAL", f.decimal 70 2)
      ∷ ("NCAA_HKY", "SPREAD", f.decimal 70 2)
      ∷ []

  abbrev pub default_market_efficiency : F
  default_market_efficiency = f.decimal 75 2

  unfoldable pub market_efficiency : String → String → F
  market_efficiency league market_type =
      get_or default_market_efficiency
        (lookup_pair (upper league) (upper market_type) market_efficiencies)

  unfoldable pub edge_quality_score : F → F → F → F → F → F
  edge_quality_score ev_pct prediction_confidence market_efficiency line_freshness_hours
        model_calibration_error =
      let ev_score = min (ev_pct / f.decimal 100 1) (f.decimal 10 1) in
      let confidence_score =
        max (f.decimal 0 1) (f.decimal 10 1 - prediction_confidence / f.decimal 20 2) in
      let efficiency_penalty = f.decimal 10 1 - market_efficiency * f.decimal 3 1 in
      let freshness_score =
        max (f.decimal 0 1) (f.decimal 10 1 - line_freshness_hours / f.decimal 240 1) in
      let calibration_score =
        max (f.decimal 0 1) (f.decimal 10 1 - model_calibration_error / f.decimal 5 2) in
      f.round_to 3 (
        ev_score * f.decimal 30 2
        + confidence_score * f.decimal 25 2
        + efficiency_penalty * f.decimal 15 2
        + freshness_score * f.decimal 15 2
        + calibration_score * f.decimal 15 2)

  -- The three rules, by the age of the line and the time to the game in hours.
  unfoldable pub stale_by_hours : F → F → Bool × StaleReason
  stale_by_hours line_age_hours time_to_game_hours =
      if f.decimal 40 1 <? line_age_hours
      then (true, max_age)
      else if (time_to_game_hours <? f.decimal 20 1) && (f.decimal 5 1 <? line_age_hours)
      then (true, close_to_start)
      else if (time_to_game_hours <? f.decimal 5 1) && (f.decimal 83 3 <? line_age_hours)
      then (true, imminent_start)
      else (false, line_is_fresh)

module _ {ℓ} (F : Type ℓ) ⦃f : Float F⦄ where
  unfoldable pub is_line_stale : DateTime → DateTime → DateTime → Bool × StaleReason
  unfolding stale_by_hours
  is_line_stale line_timestamp game_start now =
      stale_by_hours (total_seconds {F = F} now line_timestamp / whole 3600)
        (total_seconds game_start now / whole 3600)

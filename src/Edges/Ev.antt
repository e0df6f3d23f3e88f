-- ===== src/Edges/Ev.antt =====
-- edges/ev.py: expected value and the league thresholds.
pub mod Order
use bookie_breaker_agent.Prelude.{
  String, List, [], ◌∷◌, Bool, Option, none, some, Result, ok, ◌>>=◌, upper, lookup,
}
use bookie_breaker_agent.Prelude.Int.{ℤ}
use bookie_breaker_agent.Float.{Float, ◌-◌, ◌*◌, ◌≤?◌, whole}
use bookie_breaker_agent.Edges.Odds.{american_to_decimal}

module _ {ℓ} {F : Type ℓ} ⦃f : Float F⦄ where
  abbrev pub min_ev_pct_by_league : List (String × F)
  min_ev_pct_by_league =
      ("NFL", f.decimal 30 1)
      ∷ ("NCAA_FB", f.decimal 20 1)
      ∷ ("NBA", f.decimal 30 1)
      ∷ ("NCAA_BB", f.decimal 20 1)
      ∷ ("MLB", f.decimal 25 1)
      ∷ ("NCAA_BSB", f.decimal 20 1)
      ∷ ("FIFA_WC", f.decimal 40 1)
      ∷ ("EPL", f.decimal 35 1)
      ∷ ("NHL", f.decimal 30 1)
      ∷ ("NCAA_HKY", f.decimal 20 1)
      ∷ []

  abbrev pub default_min_ev_pct : F
  default_min_ev_pct = f.decimal 30 1

  -- `d.get(k, default)`
  abbrev pub get_or : F → Option F → F
  get_or d none = d
  get_or d (some v) = v

  unfoldable pub calculate_ev : F → ℤ → Result F
  calculate_ev predicted_prob american_odds = do
    decimal_odds ← american_to_decimal american_odds
    ok (predicted_prob * decimal_odds - whole 1)

  unfoldable pub calculate_ev_pct : F → ℤ → Result F
  calculate_ev_pct predicted_prob american_odds = do
    ev ← calculate_ev predicted_prob american_odds
    ok (ev * whole 100)

  unfoldable pub min_ev_pct_for_league : String → F
  min_ev_pct_for_league league =
      get_or default_min_ev_pct (lookup (upper league) min_ev_pct_by_league)

  unfoldable pub meets_ev_threshold : F → String → Bool
  meets_ev_threshold ev_pct league = min_ev_pct_for_league league ≤? ev_pct

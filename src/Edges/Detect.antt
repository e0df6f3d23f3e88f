-- ===== src/Edges/Detect.antt =====
-- edges/detect.py: a calibrated probability against the raw market price.
use bookie_breaker_agent.Prelude.{
  String, Bool, not, ◌&&◌, ◌||◌, Option, none, some, Result, ok, ◌>>=◌, ◌>>◌, reject_if,
  if◌then◌else◌,
}
use bookie_breaker_agent.Prelude.Int.{ℤ}
use bookie_breaker_agent.Float.{Float, ◌-◌, ◌*◌, ◌≤?◌, ◌<?◌, whole}
use bookie_breaker_agent.Edges.Odds.{american_to_implied_prob}
use bookie_breaker_agent.Edges.Ev.{calculate_ev_pct, meets_ev_threshold}

pub record Edge {ℓ} (F : Type ℓ) : Type ℓ where
  pub league : String
  pub market_type : String
  pub selection : String
  pub predicted_prob : F
  pub implied_prob : F
  pub american_odds : ℤ
  pub edge_pct : F
  pub ev_pct : F
  pub meets_threshold : Bool

module _ {ℓ} {F : Type ℓ} ⦃f : Float F⦄ where
  -- `ev_pct >= min_ev_pct`, or the league's own minimum where none is given
  abbrev pub meets : Option F → F → String → Bool
  meets (some min_ev_pct) ev_pct league = min_ev_pct ≤? ev_pct
  meets none ev_pct league = meets_ev_threshold ev_pct league

  -- `Edge(…)`
  abbrev pub edge_of : F → F → ℤ → F → String → String → String → Option F → Edge F
  edge_of predicted_prob implied_prob american_odds ev_pct league market_type selection min_ev_pct =
      record {
        league = league;
        market_type = market_type;
        selection = selection;
        predicted_prob = predicted_prob;
        implied_prob = implied_prob;
        american_odds = american_odds;
        edge_pct = (predicted_prob - implied_prob) * whole 100;
        ev_pct = ev_pct;
        meets_threshold = meets min_ev_pct ev_pct league;
      }

  unfoldable pub detect_edge :
      F → ℤ → String → String → String → Option F → Result (Option (Edge F))
  detect_edge predicted_prob american_odds league market_type selection min_ev_pct = do
    reject_if (not ((whole 0 <? predicted_prob) && (predicted_prob <? whole 1)))
        "predicted_prob must be in (0, 1)"
    implied_prob ← american_to_implied_prob american_odds
    ev_pct ← calculate_ev_pct predicted_prob american_odds
    if (predicted_prob ≤? implied_prob) || (ev_pct ≤? whole 0)
        then ok none
        else ok (
            some (
              edge_of predicted_prob implied_prob american_odds ev_pct league market_type selection
                min_ev_pct))

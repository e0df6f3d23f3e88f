-- ===== src/Edges/Clv.antt =====
-- edges/clv.py: closing line value.
pub mod Sign
use bookie_breaker_agent.Prelude.{Result, ok, ◌>>=◌}
use bookie_breaker_agent.Prelude.Int.{ℤ}
use bookie_breaker_agent.Float.{Float, ◌-◌, ◌*◌, whole}
use bookie_breaker_agent.Edges.Odds.{american_to_implied_prob}

module _ {ℓ} {F : Type ℓ} ⦃f : Float F⦄ where
  unfoldable pub calculate_clv : ℤ → ℤ → Result F
  calculate_clv bet_odds closing_odds = do
    bet_implied ← american_to_implied_prob bet_odds
    closing_implied ← american_to_implied_prob closing_odds
    ok ((closing_implied - bet_implied) * whole 100)

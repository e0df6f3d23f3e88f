-- ===== src/Edges/Kelly.antt =====
-- edges/kelly.py: fractional Kelly sizing, and the scaling of simultaneous bets.
pub mod Bounds
pub mod Scaling
use bookie_breaker_agent.Prelude.{
  String, List, map, Bool, true, Result, ok, ◌>>=◌, ◌>>◌, if◌then◌else◌,
}
use bookie_breaker_agent.Prelude.Int.{ℤ}
use bookie_breaker_agent.Float.{Float, ◌-◌, ◌*◌, ◌/◌, ◌≤?◌, whole, min, sum, check_divisor}
use bookie_breaker_agent.Edges.Odds.{american_to_decimal}

-- `BetSizing`, a frozen dataclass.
pub record BetSizing {ℓ} (F : Type ℓ) : Type ℓ where
  pub game_id : String
  pub kelly : F
  pub scaled : Bool
  pub scale_factor : F

module _ {ℓ} {F : Type ℓ} ⦃f : Float F⦄ where
  -- What both sizing functions do with the full Kelly fraction.
  unfoldable pub capped : F → F → F → F
  capped full_kelly kelly_multiplier max_bet_pct =
      if full_kelly ≤? whole 0 then whole 0 else min (full_kelly * kelly_multiplier) max_bet_pct

  unfoldable pub full_kelly : F → F → F
  full_kelly b p = (b * p - (whole 1 - p)) / b

  unfoldable pub kelly_fraction : F → ℤ → F → F → Result F
  kelly_fraction predicted_prob american_odds kelly_multiplier max_bet_pct = do
    decimal_odds ← american_to_decimal american_odds
    let b = decimal_odds - whole 1
    check_divisor b
    ok (capped (full_kelly b predicted_prob) kelly_multiplier max_bet_pct)

  unfoldable pub correlated_kelly : F → F → F → F → F
  correlated_kelly joint_probability combined_decimal_odds kelly_multiplier max_bet_pct =
      let b = combined_decimal_odds - whole 1 in
      if b ≤? whole 0
      then whole 0
      else capped (full_kelly b joint_probability) kelly_multiplier max_bet_pct

  abbrev pub total_exposure : List (BetSizing F) → F
  total_exposure bets = sum (map (λ bet. bet.kelly) bets)

  -- `replace(bet, kelly_fraction=…, scaled=True, scale_factor=…)`
  abbrev pub rescale : F → BetSizing F → BetSizing F
  rescale s bet = record bet { kelly = bet.kelly * s; scaled = true; scale_factor = s }

  unfoldable pub scale_simultaneous_bets : List (BetSizing F) → F → List (BetSizing F)
  scale_simultaneous_bets bets max_total_exposure =
      if total_exposure bets ≤? max_total_exposure
      then bets
      else map (rescale (max_total_exposure / total_exposure bets)) bets

-- ===== src/Edges/Odds.antt =====
-- edges/odds.py: conversions between American odds, decimal odds and implied probabilities.
pub mod Order
use bookie_breaker_agent.Prelude.{
  ℕ, zero, suc, Bool, leb, ◌^◌, Result, ok, raise, value_error, other, if◌then◌else◌,
}
use Prim.Native.Nat
use bookie_breaker_agent.Prelude.Int.{ℤ, pos, negsuc}
use bookie_breaker_agent.Float.{Float, ◌+◌, ◌-◌, ◌*◌, ◌/◌, ◌≤?◌, whole}

-- The least odds whose quotient by 100 is not a float: it rounds to 2 ^ 1024.
abbrev pub overflow_odds : ℕ
overflow_odds = Nat.◌*◌ (Nat.◌-◌ (2 ^ 1024) (2 ^ 970)) 100

-- `odds / 100` raises an OverflowError.
unfoldable pub overflows : ℕ → Bool
overflows odds = leb overflow_odds odds

module _ {ℓ} {F : Type ℓ} ⦃f : Float F⦄ where
  -- The odds -n are `negsuc (n - 1)`, and `abs` of them is n.
  unfoldable pub american_to_implied_prob : ℤ → Result F
  american_to_implied_prob (pos zero) = raise (value_error "American odds cannot be 0")
  american_to_implied_prob (negsuc n) = ok (whole (suc n) / whole (Nat.◌+◌ (suc n) 100))
  american_to_implied_prob (pos (suc n)) = ok (whole 100 / whole (Nat.◌+◌ (suc n) 100))

  unfoldable pub american_to_decimal : ℤ → Result F
  unfolding overflows
  american_to_decimal (pos zero) = raise (value_error "American odds cannot be 0")
  american_to_decimal (negsuc n) = ok (whole 1 + whole 100 / whole (suc n))
  american_to_decimal (pos (suc n)) =
      if overflows (suc n)
      then raise (other "OverflowError")
      else ok (whole 1 + whole (suc n) / whole 100)

  unfoldable pub decimal_to_american : F → Result ℤ
  decimal_to_american decimal_odds =
      if decimal_odds ≤? whole 1
      then raise (value_error "Decimal odds must be greater than 1.0")
      else if whole 2 ≤? decimal_odds
      then ok (f.round_int ((decimal_odds - whole 1) * whole 100))
      else ok (f.round_int (f.of_ℤ (negsuc 99) / (decimal_odds - whole 1)))

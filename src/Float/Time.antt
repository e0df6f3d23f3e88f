-- ===== src/Float/Time.antt =====
-- Python's `datetime` and `timedelta`: an aware datetime is the number of microseconds since the
-- epoch, and a difference of two is turned into a float by `total_seconds`.
use bookie_breaker_agent.Prelude.{ℕ}
use bookie_breaker_agent.Prelude.Int.{pos, ◌-ℤ◌}
use bookie_breaker_agent.Float.{Float, ◌/◌, whole}

abbrev pub DateTime : Type 0
DateTime = ℕ

-- `(later - earlier).total_seconds()`
abbrev pub total_seconds {ℓ} : {F : Type ℓ} ⦃f : Float F⦄ → DateTime → DateTime → F
total_seconds ⦃f⦄ later earlier = f.of_ℤ (pos later -ℤ pos earlier) / whole 1_000_000

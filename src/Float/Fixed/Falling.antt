-- ===== src/Float/Fixed/Falling.antt =====
-- The stand-in for `math.pow` falls as its exponent grows.
use Prim.Native.Nat.{◌*◌, ◌≤◌}
use bookie_breaker_agent.Prelude.{
  ℕ, ◌≡◌, refl, ap, arith, inl, inr, leb, leb→le, le→leb, Bool-cases,
}
use bookie_breaker_agent.Prelude.Int.{ℤ, pos, negsuc, ◌≤ℤ◌}
use bookie_breaker_agent.Float.Fixed.{falling_ℕ, falling, fixed_float}
use bookie_breaker_agent.Float.Fixed.Arithmetic.{div_anti, ◌<ℤ◌}

pub falling_ℕ-le : (a z : ℕ) → falling_ℕ a z ≤ a
falling_ℕ-le a z = elim (Bool-cases (leb 1_000_000 z)) [
  | inl h ↦
      rw h
        (omega (arith, div_anti (a * 1_000_000) 1_000_000 z (omega arith) (leb→le 1_000_000 z h)))
  | inr h ↦ rw h (omega arith)
]

pub falling_ℕ-anti : (a z w : ℕ) → z ≤ w → falling_ℕ a w ≤ falling_ℕ a z
falling_ℕ-anti a z w h = elim (Bool-cases (leb 1_000_000 z)) [
  | inl k ↦
      let big : 1_000_000 ≤ z = leb→le 1_000_000 z k in
      rw (k, le→leb 1_000_000 w (omega arith)) (div_anti (a * 1_000_000) z w (omega arith) h)
  | inr k ↦ rw k (falling_ℕ-le a w)
]

pub falling_anti : (p z w : ℤ) → z ≤ℤ w → falling p w ≤ℤ falling p z
falling_anti (pos p) (pos z) (pos w) h = omega (arith, falling_ℕ-anti p z w (omega arith))
falling_anti (pos p) (pos z) (negsuc w) h = absurd (omega arith)
falling_anti (pos p) (negsuc z) (pos w) h = omega (arith, falling_ℕ-le p w)
falling_anti (pos p) (negsuc z) (negsuc w) h = omega arith
falling_anti (negsuc p) z w h = omega arith

pub falling_nonneg : (p z : ℤ) → pos 0 <ℤ p → pos 0 ≤ℤ falling p z
falling_nonneg (pos p) (pos z) h = omega arith
falling_nonneg (pos p) (negsuc z) h = omega arith
falling_nonneg (negsuc p) z h = absurd (omega arith)

pub falling-le : (p z : ℤ) → falling p z ≤ℤ p
falling-le (pos p) (pos z) = omega (arith, falling_ℕ-le p z)
falling-le (pos p) (negsuc z) = omega arith
falling-le (negsuc p) z = omega arith

pub falling_one : (p : ℤ) → falling p (pos 1_000_000) ≡ p
falling_one (pos p) = ap pos (omega arith)
falling_one (negsuc p) = refl

-- ===== src/Float/Fixed/Arithmetic.antt =====
-- Sums, products and quotients of fixed-point numbers: their order and their units.
use Prim.Native.Nat.{◌*◌, ◌/◌, ◌^◌, ◌+◌, ◌≤◌, ◌<◌}
use native.Mathlib.Nat.{
  div-zero, le-div_iff_mul-le, le_trans, div-mul-le_self, div-one, mul-le-mul_left,
  mul-le-mul_right, le_of_mul-le-mul_right, pow-suc, pow-le-pow_right, mul-le-mul, div-eq_of_lt,
  mul-zero, mul_comm, mul-div_cancel, mul-div_right, zero-add,
}
use bookie_breaker_agent.Prelude.{ℕ, zero, suc, ◌≡◌, ◌⊎◌, ap, true, not, arith}
use bookie_breaker_agent.Prelude.Int.{
  ℤ, pos, negsuc, neg, pos_part, neg_part, ◌+ℤ◌, ◌-ℤ◌, leb_ℤ, ◌≤ℤ◌,
}
use bookie_breaker_agent.Float.Fixed.{times, over, nearest, from_integer, fixed_float}

pub le_of_leb : (a b : ℤ) → leb_ℤ a b ≡ true → a ≤ℤ b
le_of_leb a b h = ground arith

pub leb_of_le : (a b : ℤ) → a ≤ℤ b → leb_ℤ a b ≡ true
leb_of_le a b h = ground arith

infix 50 ◌<ℤ◌
abbrev pub ◌<ℤ◌ : ℤ → ℤ → Type 0
a <ℤ b = pos_part a + neg_part b < pos_part b + neg_part a

pub neg-le-pos : (m n : ℕ) → neg m ≤ℤ pos n
neg-le-pos zero n = omega arith
neg-le-pos (suc m) n = omega arith

pub neg_anti : (m n : ℕ) → m ≤ n → neg n ≤ℤ neg m
neg_anti zero zero h = omega arith
neg_anti zero (suc n) h = omega arith
neg_anti (suc m) zero h = absurd (omega arith)
neg_anti (suc m) (suc n) h = omega arith

pub pow_pos : (k : ℕ) → 0 < 10 ^ k
pow_pos zero = omega arith
pow_pos (suc k) = rw (pow-suc 10 k) (omega (arith, pow_pos k))

pub div_mono : (a b d : ℕ) → a ≤ b → a / d ≤ b / d
div_mono a b zero h = omega (arith, div-zero a, div-zero b)
div_mono a b (suc d) h =
    (le-div_iff_mul-le (omega arith)).1 (le_trans (div-mul-le_self a (suc d)) h)

pub div_anti : (a d e : ℕ) → 0 < d → d ≤ e → a / e ≤ a / d
div_anti a d e p h =
    (le-div_iff_mul-le p).1 (le_trans (mul-le-mul_left (a / e) h) (div-mul-le_self a e))

pub decimal_le :
    (m n a b : ℕ) → 0 < a → 0 < b → m * b ≤ n * a → m * 1_000_000 / a ≤ n * 1_000_000 / b
decimal_le m n a b p q h =
    let t = m * 1_000_000 / a in
    let below : t * a ≤ m * 1_000_000 = div-mul-le_self (m * 1_000_000) a in
    (le-div_iff_mul-le q).1 (
      le_of_mul-le-mul_right {m = t * b} {n = n * 1_000_000} {k = a}
        (omega (arith, mul-le-mul_right b below)) p)

-- A product or a quotient with a factor that is not negative keeps the order.
pub times_mono : (x y z : ℤ) → pos 0 ≤ℤ z → x ≤ℤ y → times x z ≤ℤ times y z
times_mono (pos x) (pos y) (pos z) p h =
    omega (arith, div_mono (x * z) (y * z) 1_000_000 (mul-le-mul_right z (omega arith)))
times_mono (pos x) (negsuc y) (pos z) p h = absurd (omega arith)
times_mono (negsuc x) (pos y) (pos z) p h = neg-le-pos (suc x * z / 1_000_000) _
times_mono (negsuc x) (negsuc y) (pos z) p h =
    neg_anti _ _ (div_mono (suc y * z) (suc x * z) 1_000_000 (mul-le-mul_right z (omega arith)))
times_mono x y (negsuc z) p h = absurd (omega arith)

pub over_mono : (x y z : ℤ) → (pos 0 <ℤ z) → x ≤ℤ y → over x z ≤ℤ over y z
over_mono (pos x) (pos y) (pos z) p h =
    omega (arith, div_mono (x * 1_000_000) (y * 1_000_000) z (omega arith))
over_mono (pos x) (negsuc y) (pos z) p h = absurd (omega arith)
over_mono (negsuc x) (pos y) (pos z) p h = neg-le-pos (suc x * 1_000_000 / z) _
over_mono (negsuc x) (negsuc y) (pos z) p h =
    neg_anti _ _ (div_mono (suc y * 1_000_000) (suc x * 1_000_000) z (omega arith))
over_mono x y (negsuc z) p h = absurd (omega arith)

pub over_anti : (x z w : ℤ) → pos 0 ≤ℤ x → pos 0 <ℤ z → z ≤ℤ w → over x w ≤ℤ over x z
over_anti (pos x) (pos z) (pos w) p q h =
    omega (arith, div_anti (x * 1_000_000) z w (omega arith) (omega arith))
over_anti (pos x) (pos z) (negsuc w) p q h = absurd (omega arith)
over_anti (pos x) (negsuc z) w p q h = absurd (omega arith)
over_anti (negsuc x) z w p q h = absurd (omega arith)

pub nearest_mono : (d : ℕ) (x y : ℤ) → x ≤ℤ y → nearest d x ≤ℤ nearest d y
nearest_mono d (pos x) (pos y) h =
    omega (arith, mul-le-mul_right d (div_mono (x + d / 2) (y + d / 2) d (omega arith)))
nearest_mono d (pos x) (negsuc y) h = absurd (omega arith)
nearest_mono d (negsuc x) (pos y) h = neg-le-pos ((suc x + d / 2) / d * d) _
nearest_mono d (negsuc x) (negsuc y) h =
    neg_anti _ _ (mul-le-mul_right d (div_mono (suc y + d / 2) (suc x + d / 2) d (omega arith)))

pub half-div : (d : ℕ) → 0 < d → d / 2 / d ≡ 0
half-div d p = div-eq_of_lt (omega arith)

pub times_zero : (x : ℤ) → times x (pos 0) ≡ pos 0
times_zero (pos x) = rw (mul-zero x)
times_zero (negsuc x) = rw (mul-zero (suc x))

pub times_one : (x : ℤ) → times x (pos 1_000_000) ≡ x
times_one (pos x) = ap pos (omega arith)
times_one (negsuc x) = rw (mul-div_cancel (suc x) {n = 1_000_000} (omega arith))

pub times_comm : (x y : ℤ) → times x y ≡ times y x
times_comm (pos x) (pos y) = rw (mul_comm x y)
times_comm (pos x) (negsuc y) = rw (mul_comm x (suc y))
times_comm (negsuc x) (pos y) = rw (mul_comm (suc x) y)
times_comm (negsuc x) (negsuc y) = rw (mul_comm (suc x) (suc y))

pub over_one : (x : ℤ) → over x (pos 1_000_000) ≡ x
over_one (pos x) = ap pos (omega arith)
over_one (negsuc x) = rw (mul-div_cancel (suc x) {n = 1_000_000} (omega arith))

pub over_self : (x : ℤ) → pos 0 <ℤ x → over x x ≡ pos 1_000_000
over_self (pos x) h = ap pos (mul-div_right 1_000_000 (omega arith))
over_self (negsuc x) h = absurd (omega arith)

pub over_zero : (x : ℤ) → pos 0 <ℤ x → pos 0 ≤ℤ over (pos 0) x
over_zero (pos x) h = omega arith
over_zero (negsuc x) h = absurd (omega arith)

pub minus_self : (x : ℤ) → x -ℤ x ≡ pos 0
minus_self x = ground arith

pub minus_zero : (x : ℤ) → x -ℤ pos 0 ≡ x
minus_zero x = ground arith

pub leb_total : (x y : ℤ) → (leb_ℤ x y ≡ true) ⊎ (leb_ℤ y x ≡ true)
leb_total x y = ground arith

pub leb_trans : (x y z : ℤ) → leb_ℤ x y ≡ true → leb_ℤ y z ≡ true → leb_ℤ x z ≡ true
leb_trans x y z h k = ground arith

pub plus_mono : (x y z w : ℤ) → x ≤ℤ y → z ≤ℤ w → x +ℤ z ≤ℤ y +ℤ w
plus_mono x y z w h k = ground arith

pub from_integer_mono : (a b : ℤ) → a ≤ℤ b → from_integer a ≤ℤ from_integer b
from_integer_mono (pos a) (pos b) h = omega arith
from_integer_mono (pos a) (negsuc b) h = absurd (omega arith)
from_integer_mono (negsuc a) (pos b) h = neg-le-pos (suc a * 1_000_000) _
from_integer_mono (negsuc a) (negsuc b) h =
    neg_anti (suc b * 1_000_000) (suc a * 1_000_000) (omega arith)

pub whole_lt :
    (m n : ℕ)
    → m < n
    → n ≤ 2 ^ 53
    → not (leb_ℤ (pos (n * 1_000_000 / 10 ^ 0)) (pos (m * 1_000_000 / 10 ^ 0))) ≡ true
whole_lt m n h _ = ground arith

pub plus_zero : (x : ℤ) → (x +ℤ pos 0 ≤ℤ x) × (x ≤ℤ x +ℤ pos 0)
plus_zero x = ground arith

pub minus_mono : (x y z w : ℤ) → x ≤ℤ y → w ≤ℤ z → x -ℤ z ≤ℤ y -ℤ w
minus_mono x y z w h k = ground arith

pub minus_le : (x y : ℤ) → x -ℤ y ≤ℤ pos 0 → x ≤ℤ y
minus_le x y h = ground arith

pub lt_of_not_leb : (x y : ℤ) → not (leb_ℤ y x) ≡ true → x <ℤ y
lt_of_not_leb x y h = ground arith

pub nearest_zero : (d : ℕ) → 0 < d → nearest d (pos 0) ≡ pos 0
nearest_zero d p = ap pos (rw (zero-add, half-div d p) (omega arith))

pub decimal_pos : (m k : ℕ) → 0 < m → k ≤ 6 → 0 < m * 1_000_000 / 10 ^ k
decimal_pos m k h e =
    (le-div_iff_mul-le (pow_pos k)).1
      (omega (arith, mul-le-mul {n₁ = 1} {n₂ = m} h (pow-le-pow_right {n = 10} (omega arith) e)))

pub not_leb_of_lt : (x y : ℤ) → y <ℤ x → not (leb_ℤ x y) ≡ true
not_leb_of_lt x y h = ground arith

pub whole_pos : (b : ℕ) → 0 < b → 0 < b * 1_000_000 / 10 ^ 0
whole_pos b h = omega arith

pub whole_products :
    (a b c d : ℕ)
    → a * d ≤ c * b
    → (a * 1_000_000 / 10 ^ 0) * (d * 1_000_000 / 10 ^ 0)
      ≤ (c * 1_000_000 / 10 ^ 0) * (b * 1_000_000 / 10 ^ 0)
whole_products a b c d h = simp div-one (omega arith)

pub halfway :
    (x y : ℤ) → x ≤ℤ y → (x ≤ℤ over (x +ℤ y) (pos 2_000_000)) × (over (x +ℤ y) (pos 2_000_000) ≤ℤ y)
halfway x y h = ground arith

pub zero_plus : (x : ℤ) → pos 0 +ℤ x ≡ x
zero_plus x = ground arith

pub plus_pos : (x y : ℕ) → pos x +ℤ pos y ≡ pos (x + y)
plus_pos x y = ground arith

-- ===== src/Float/Order.antt =====
-- What follows from the laws of floats: bounds by `min` and `max`, literals in order, signs of
-- products and quotients.
use bookie_breaker_agent.Prelude.{ℕ, ◌≡◌, false, arith}
use Prim.Native.Nat
use mathlib.Core.Path.{subst}
use bookie_breaker_agent.Float.{
  Float, IsFloat, ◌+◌, ◌-◌, ◌*◌, ◌/◌, ◌≤◌, ◌<◌, ◌≤?◌, ◌<?◌, whole, min, max,
}

module _ {ℓ} {F : Type ℓ} ⦃f : Float F⦄ (laws : IsFloat F) where
  open laws use {
    le_refl, le_trans, le_total, lt-eq-not-le, decimal_mono, add_mono, add_zero, sub_mono, sub_self,
    mul_comm, mul_mono, mul_one, mul_zero, div_mono, div_one, zero_div, quotient_mono, div_anti,
    round_mono, round_zero,
  }

  pub le_of_not_lt : (x y : F) → (x <? y) ≡ false → y ≤ x
  le_of_not_lt x y h = ground (arith, lt-eq-not-le x y)

  pub le_of_lt : (x y : F) → x < y → x ≤ y
  le_of_lt x y h = ground (arith, lt-eq-not-le x y, le_total x y)

  pub not_le_of_lt : (x y : F) → x < y → (y ≤? x) ≡ false
  not_le_of_lt x y h = ground (arith, lt-eq-not-le x y)

  pub lt_of_not_le : (x y : F) → (x ≤? y) ≡ false → y < x
  lt_of_not_le x y h = ground (arith, lt-eq-not-le y x)

  pub le_of_not_le : (x y : F) → (x ≤? y) ≡ false → y ≤ x
  le_of_not_le x y h = ground (arith, le_total x y)

  pub not-le_mono : (x y z : F) → (x ≤? z) ≡ false → x ≤ y → (y ≤? z) ≡ false
  not-le_mono x y z h k = ground (arith, le_trans x y z)

  pub lt_of_le_of_lt : (x y z : F) → x ≤ y → y < z → x < z
  lt_of_le_of_lt x y z h k = ground (arith, lt-eq-not-le y z, lt-eq-not-le x z, le_trans z x y)

  pub lt_of_lt_of_le : (x y z : F) → x < y → y ≤ z → x < z
  lt_of_lt_of_le x y z h k = ground (arith, lt-eq-not-le x y, lt-eq-not-le x z, le_trans y z x)

  pub min-le_left : (x y : F) → min x y ≤ x
  min-le_left x y = ground (arith, lt-eq-not-le y x, le_refl x, le_total x y)

  pub min-le_right : (x y : F) → min x y ≤ y
  min-le_right x y = ground (arith, lt-eq-not-le y x, le_refl y)

  pub le-min : (x y z : F) → z ≤ x → z ≤ y → z ≤ min x y
  le-min x y z h k = ground arith

  pub le-max_left : (x y : F) → x ≤ max x y
  le-max_left x y = ground (arith, lt-eq-not-le x y, le_refl x, le_total x y)

  pub le-max_right : (x y : F) → y ≤ max x y
  le-max_right x y = ground (arith, lt-eq-not-le x y, le_refl y)

  pub max-le : (x y z : F) → x ≤ z → y ≤ z → max x y ≤ z
  max-le x y z h k = ground arith

  pub min_mono : (x y z w : F) → x ≤ y → z ≤ w → min x z ≤ min y w
  min_mono x y z w h k =
      le-min y w (min x z) (le_trans (min x z) x y (min-le_left x z) h)
        (le_trans (min x z) z w (min-le_right x z) k)

  pub max_mono : (x y z w : F) → x ≤ y → z ≤ w → max x z ≤ max y w
  max_mono x y z w h k =
      max-le x z (max y w) (le_trans x y (max y w) h (le-max_left y w))
        (le_trans z w (max y w) k (le-max_right y w))

  -- literals
  pub decimal_nonneg : (m k : ℕ) → whole 0 ≤ f.decimal m k
  decimal_nonneg m k = decimal_mono 0 0 m k (omega arith)

  pub mul_nonneg : (x y : F) → whole 0 ≤ x → whole 0 ≤ y → whole 0 ≤ x * y
  mul_nonneg x y h k =
      le_trans (whole 0) (y * whole 0) (x * y) (mul_zero y).1
        (rw (mul_comm y (whole 0)) (mul_mono (whole 0) x y k h))

  pub add_nonneg : (x y : F) → whole 0 ≤ x → whole 0 ≤ y → whole 0 ≤ x + y
  add_nonneg x y h k =
      le_trans (whole 0) (whole 0 + whole 0) (x + y) (add_zero (whole 0)).1
        (add_mono (whole 0) x (whole 0) y h k)

  pub sub_nonneg : (x y : F) → y ≤ x → whole 0 ≤ x - y
  sub_nonneg x y h = rw (← sub_self x) (sub_mono x x x y (le_refl x) h)

  -- The other factor moves as well.
  pub mul_mono_right : (x y z : F) → whole 0 ≤ z → x ≤ y → z * x ≤ z * y
  mul_mono_right x y z h k = rw (mul_comm z x, mul_comm z y) (mul_mono x y z h k)

  -- Scaling by at most 1 does not enlarge, and dividing by at least 1 does not either.
  pub mul-le_self : (x s : F) → whole 0 ≤ x → s ≤ whole 1 → x * s ≤ x
  mul-le_self x s h k =
      let below : x * s ≤ x * whole 1 = mul_mono_right s (whole 1) x h k in rw (mul_one x) at below

  pub round_nonneg : (n : ℕ) (x : F) → whole 0 ≤ x → whole 0 ≤ f.round_to n x
  round_nonneg n x h = subst (λ z. z ≤ f.round_to n x) (round_zero n) (round_mono n (whole 0) x h)

  pub le-add_nonneg : (x y : F) → whole 0 ≤ y → x ≤ x + y
  le-add_nonneg x y h =
      le_trans x (x + whole 0) (x + y) (add_zero x).1 (add_mono x x (whole 0) y (le_refl x) h)

  -- quotients of integers
  pub quotient_nonneg : (a b : ℕ) → Nat.◌<◌ 0 b → whole 0 ≤ f.decimal a 0 / f.decimal b 0
  quotient_nonneg a b h =
      rw (← div_one (whole 0)) (quotient_mono 0 1 a b (omega arith) h (omega arith))

  pub quotient-le_one :
      (a b : ℕ) → Nat.◌<◌ 0 b → Nat.◌≤◌ a b → f.decimal a 0 / f.decimal b 0 ≤ whole 1
  quotient-le_one a b h k =
      rw (← div_one (whole 1)) (quotient_mono a b 1 1 h (omega arith) (omega arith))

  -- Divided by a positive number, a number keeps its sign.
  pub div_nonneg : (x z : F) → whole 0 < z → whole 0 ≤ x → whole 0 ≤ x / z
  div_nonneg x z p h = le_trans (whole 0) (whole 0 / z) (x / z) (zero_div z p) (div_mono _ x z p h)

  pub sub_nonpos : (x y : F) → x ≤ y → x - y ≤ whole 0
  sub_nonpos x y h = rw (← sub_self y) (sub_mono x y y y h (le_refl y))

  pub mul_nonpos : (x y : F) → x ≤ whole 0 → whole 0 ≤ y → x * y ≤ whole 0
  mul_nonpos x y h k =
      le_trans (x * y) (whole 0 * y) (whole 0) (mul_mono x (whole 0) y k h)
        (rw (mul_comm (whole 0) y) (mul_zero y).0)

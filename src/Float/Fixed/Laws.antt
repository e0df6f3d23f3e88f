-- ===== src/Float/Fixed/Laws.antt =====
-- The fixed-point numbers meet every law that is asked of floats.
use Prim.Native.Nat.{◌*◌, ◌/◌, ◌^◌, ◌-◌}
use bookie_breaker_agent.Prelude.{refl, ap, arith}
use bookie_breaker_agent.Prelude.Int.{pos, ◌+ℤ◌, ◌-ℤ◌}
use bookie_breaker_agent.Float.{IsFloat, IsPower}
use bookie_breaker_agent.Float.Fixed.{
  Fixed, times, over, nearest, from_integer, falling, fixed_float,
}
use bookie_breaker_agent.Float.Fixed.Arithmetic.{
  le_of_leb, leb_of_le, pow_pos, decimal_le, times_mono, over_mono, over_anti, nearest_mono,
  times_zero, times_one, times_comm, over_one, over_self, over_zero, minus_self, minus_zero,
  leb_total, leb_trans, plus_mono, from_integer_mono, whole_lt, plus_zero, minus_mono, minus_le,
  lt_of_not_leb, nearest_zero, decimal_pos, not_leb_of_lt, whole_pos, whole_products, halfway,
  zero_plus,
}
use bookie_breaker_agent.Float.Fixed.Falling.{falling_anti, falling_nonneg, falling-le, falling_one}

pub Fixed-IsFloat : IsFloat Fixed
Fixed-IsFloat = record {
  le_refl = λ x. leb_of_le x x (omega arith);
  le_trans = leb_trans;
  le_total = leb_total;
  lt-eq-not-le = λ x y. refl;
  decimal_mono = λ m j n k h.
      leb_of_le (pos (m * 1_000_000 / 10 ^ j)) (pos (n * 1_000_000 / 10 ^ k))
        (omega (arith, decimal_le m n (10 ^ j) (10 ^ k) (pow_pos j) (pow_pos k) h));
  decimal_pos = λ m k h e.
      not_leb_of_lt (pos (m * 1_000_000 / 10 ^ k)) (pos 0) (omega (arith, decimal_pos m k h e));
  of_ℤ_mono = λ a b h. leb_of_le (from_integer a) (from_integer b) (from_integer_mono a b h);
  of_ℤ_pos = λ n. ap pos (omega arith);
  whole_lt = whole_lt;
  double = λ n _. ap pos (omega arith);
  quotient_mono = λ a b c d p q h.
      leb_of_le (over (pos (a * 1_000_000 / 10 ^ 0)) (pos (b * 1_000_000 / 10 ^ 0)))
        (over (pos (c * 1_000_000 / 10 ^ 0)) (pos (d * 1_000_000 / 10 ^ 0)))
        (omega (
          arith,
          decimal_le (a * 1_000_000 / 10 ^ 0) (c * 1_000_000 / 10 ^ 0) (b * 1_000_000 / 10 ^ 0)
              (d * 1_000_000 / 10 ^ 0) (whole_pos b p) (whole_pos d q) (whole_products a b c d h),
        ));
  midpoint = λ x y h.
      let (l, r) = halfway x y (le_of_leb x y h) in
      (
        leb_of_le x (over (x +ℤ y) (pos 2_000_000)) l,
        leb_of_le (over (x +ℤ y) (pos 2_000_000)) y r,
      );
  zero_add = λ x _. zero_plus x;
  add_mono = λ x y z w h k.
      leb_of_le (x +ℤ z) (y +ℤ w) (plus_mono x y z w (le_of_leb x y h) (le_of_leb z w k));
  add_zero = λ x. (leb_of_le _ x (plus_zero x).0, leb_of_le x _ (plus_zero x).1);
  sub_mono = λ x y z w h k.
      leb_of_le (x -ℤ z) (y -ℤ w) (minus_mono x y z w (le_of_leb x y h) (le_of_leb w z k));
  sub_zero = minus_zero;
  sub_self = minus_self;
  le_of_sub = λ x y h. leb_of_le x y (minus_le x y (le_of_leb (x -ℤ y) (pos 0) h));
  mul_comm = times_comm;
  mul_mono = λ x y z p h.
      leb_of_le (times x z) (times y z)
        (times_mono x y z (le_of_leb (pos 0) z p) (le_of_leb x y h));
  mul_one = times_one;
  mul_zero = λ x. rw (times_zero x) (refl, refl);
  div_mono = λ x y z p h.
      leb_of_le (over x z) (over y z)
        (over_mono x y z (lt_of_not_leb (pos 0) z p) (le_of_leb x y h));
  div_anti = λ x z w p q h.
      leb_of_le (over x w) (over x z)
        (over_anti x z w (le_of_leb (pos 0) x p) (lt_of_not_leb (pos 0) z q) (le_of_leb z w h));
  div_one = over_one;
  div_self = λ x h. over_self x (lt_of_not_leb (pos 0) x h);
  zero_div = λ x h. leb_of_le (pos 0) (over (pos 0) x) (over_zero x (lt_of_not_leb (pos 0) x h));
  round_mono = λ n x y h.
      leb_of_le (nearest (10 ^ (6 - n)) x) (nearest (10 ^ (6 - n)) y)
        (nearest_mono (10 ^ (6 - n)) x y (le_of_leb x y h));
  round_zero = λ n. nearest_zero (10 ^ (6 - n)) (pow_pos (6 - n));
}

pub Fixed-IsPower : IsPower Fixed
Fixed-IsPower = record {
  power_nonneg =
      λ p z h. leb_of_le (pos 0) (falling p z) (falling_nonneg p z (lt_of_not_leb (pos 0) p h));
  zero_add-power = λ p z _. zero_plus (falling p z);
  power_one = λ p _. falling_one p;
  power_anti =
      λ p z w _ _ k. leb_of_le (falling p w) (falling p z) (falling_anti p z w (le_of_leb z w k));
  power-le_one = λ p z _ h _.
      leb_trans (falling p z) p (pos 1_000_000) (leb_of_le (falling p z) p (falling-le p z)) h;
}

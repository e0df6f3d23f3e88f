-- ===== src/Float/Fixed.antt =====
-- Fixed-point numbers with six decimals, rounded towards zero: a concrete arithmetic, at which the
-- examples run.
mod Arithmetic
mod Falling
pub mod Laws
use Prim.Native.Nat.{◌*◌, ◌/◌, ◌^◌, ◌+◌, ◌≤◌, ◌<◌, ◌-◌}
use native.Mathlib.Nat.{
  div-zero, le-div_iff_mul-le, le_trans, div-mul-le_self, div-one, mul-le-mul_left,
  mul-le-mul_right, le_of_mul-le-mul_right, pow-suc, div-eq_of_lt, mul-zero, mul_comm,
  mul-div_cancel, mul-div_right, zero-add,
}
use bookie_breaker_agent.Prelude.{
  ℕ, zero, suc, ◌≡◌, ◌⊎◌, refl, ap, true, not, arith, inl, inr, leb, leb→le, le→leb, Bool-cases,
  if◌then◌else◌,
}
use bookie_breaker_agent.Prelude.Int.{
  ℤ, pos, negsuc, neg, nat_abs, pos_part, neg_part, ◌+ℤ◌, ◌-ℤ◌, leb_ℤ, ◌≤ℤ◌,
}
use bookie_breaker_agent.Float.{Float, IsFloat, IsPower}

-- millionths
abbrev pub Fixed : Type 0
Fixed = ℤ

-- magnitude operations with the sign of the product
abbrev signed : ℤ → ℤ → ℕ → ℤ
signed (pos _) (pos _) n = pos n
signed (pos _) (negsuc _) n = neg n
signed (negsuc _) (pos _) n = neg n
signed (negsuc _) (negsuc _) n = pos n

abbrev times : ℤ → ℤ → ℤ
times a b = signed a b (nat_abs a * nat_abs b / 1_000_000)

abbrev over : ℤ → ℤ → ℤ
over a b = signed a b (nat_abs a * 1_000_000 / nat_abs b)

-- the nearest multiple of `d`, a half away from zero
abbrev nearest : ℕ → ℤ → ℤ
nearest d (pos n) = pos ((n + d / 2) / d * d)
nearest d (negsuc n) = neg ((suc n + d / 2) / d * d)

abbrev to_integer : ℤ → ℤ
to_integer (pos n) = pos ((n + 500_000) / 1_000_000)
to_integer (negsuc n) = neg ((suc n + 500_000) / 1_000_000)

abbrev from_integer : ℤ → ℤ
from_integer (pos n) = pos (n * 1_000_000)
from_integer (negsuc n) = neg (suc n * 1_000_000)

-- A stand-in for `math.pow` that meets `IsPower`: p / z where z is at least 1.
abbrev falling_ℕ : ℕ → ℕ → ℕ
falling_ℕ a z = if leb 1_000_000 z then a * 1_000_000 / z else a

abbrev falling : ℤ → ℤ → ℤ
falling (pos a) (pos z) = pos (falling_ℕ a z)
falling a z = a

instance abbrev pub fixed_float : Float Fixed
fixed_float = record {
  decimal = λ m k. pos (m * 1_000_000 / 10 ^ k);
  of_ℤ = from_integer;
  plus = ◌+ℤ◌;
  minus = ◌-ℤ◌;
  times = times;
  over = over;
  is_le = leb_ℤ;
  is_lt = λ a b. not (leb_ℤ b a);
  power = falling;
  sqrt = λ a. a;
  round_to = λ n a. nearest (10 ^ (6 - n)) a;
  round_int = to_integer;
}

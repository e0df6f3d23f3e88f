-- ===== src/Float.antt =====
-- Python's `float`. The program computes with probabilities, odds and stakes in binary floating
-- point, which is not code of the repository: its type and operations are a parameter, and every
-- module that computes with floats is written over `Float F`.
pub mod Fixed
pub mod Order
pub mod Time
use bookie_breaker_agent.Prelude.{
  ℕ, ◌^◌, ◌≡◌, Bool, true, false, not, ◌⊎◌, inl, inr, List, [], ◌∷◌, arith, if◌then◌else◌, ◌&&◌,
  Result, ok, raise, other,
}
use Prim.Native.Nat
use bookie_breaker_agent.Prelude.Int.{ℤ, pos, ◌≤ℤ◌}

pub record Float {ℓ} (F : Type ℓ) : Type ℓ where
  -- the literal m / 10 ^ k: `decimal 5 2` is 0.05
  pub decimal : ℕ → ℕ → F
  pub of_ℤ : ℤ → F
  pub plus : F → F → F
  pub minus : F → F → F
  pub times : F → F → F
  pub over : F → F → F
  pub is_le : F → F → Bool
  pub is_lt : F → F → Bool
  -- `math.pow`, `math.sqrt`
  pub power : F → F → F
  pub sqrt : F → F
  -- `round(x, n)` and `round(x)`
  pub round_to : ℕ → F → F
  pub round_int : F → ℤ

-- m / 10 ^ j is at most n / 10 ^ k
abbrev pub DecimalLe : (m j n k : ℕ) → Type 0
DecimalLe m j n k = Nat.◌≤◌ (Nat.◌*◌ m (10 ^ k)) (Nat.◌*◌ n (10 ^ j))

module _ {ℓ} {F : Type ℓ} ⦃f : Float F⦄ where
  infixl 65 ◌+◌ ◌-◌
  infixl 70 ◌*◌ ◌/◌
  infix 50 ◌≤?◌ ◌<?◌ ◌≤◌ ◌<◌
  abbrev pub ◌+◌ : F → F → F
  ◌+◌ = f.plus

  abbrev pub ◌-◌ : F → F → F
  ◌-◌ = f.minus

  abbrev pub ◌*◌ : F → F → F
  ◌*◌ = f.times

  abbrev pub ◌/◌ : F → F → F
  ◌/◌ = f.over

  abbrev pub ◌≤?◌ : F → F → Bool
  ◌≤?◌ = f.is_le

  abbrev pub ◌<?◌ : F → F → Bool
  ◌<?◌ = f.is_lt

  abbrev pub ◌≤◌ : F → F → Type 0
  x ≤ y = f.is_le x y ≡ true

  abbrev pub ◌<◌ : F → F → Type 0
  x < y = f.is_lt x y ≡ true

  -- a literal with no fractional part, such as `0.0`, `1.0` or `100`
  abbrev pub whole : ℕ → F
  whole n = f.decimal n 0

  -- A division by 0 raises.
  abbrev pub check_divisor : F → Result (Unit {0})
  check_divisor d =
      if f.is_le d (f.decimal 0 0) && f.is_le (f.decimal 0 0) d
      then raise (other "ZeroDivisionError")
      else ok tt

  -- `min(a, b)` and `max(a, b)`: the first of equal arguments
  abbrev pub min : F → F → F
  min a b = if f.is_lt b a then b else a

  abbrev pub max : F → F → F
  max a b = if f.is_lt a b then b else a

  -- `sum(xs)` starts from 0 and adds from the left; `math.prod(xs)` starts from 1.
  abbrev pub sum_from : F → List F → F
  sum_from acc [] = acc
  sum_from acc (x ∷ xs) = sum_from (acc + x) xs

  abbrev pub sum : List F → F
  sum = sum_from (whole 0)

  abbrev pub prod_from : F → List F → F
  prod_from acc [] = acc
  prod_from acc (x ∷ xs) = prod_from (acc * x) xs

  abbrev pub prod : List F → F
  prod = prod_from (whole 1)

-- What IEEE arithmetic guarantees of values away from NaN: a total order, and operations that are
-- the exact ones rounded, so that they keep the order and are exact where the result is
-- representable. Nothing is assumed about how close a rounded result is.
pub record IsFloat {ℓ} (F : Type ℓ) ⦃f : Float F⦄ : Type ℓ where
  pub le_refl : (x : F) → x ≤ x
  pub le_trans : (x y z : F) → x ≤ y → y ≤ z → x ≤ z
  pub le_total : (x y : F) → (x ≤ y) ⊎ (y ≤ x)
  pub lt-eq-not-le : (x y : F) → (x <? y) ≡ not (y ≤? x)
  pub decimal_mono : (m j n k : ℕ) → DecimalLe m j n k → f.decimal m j ≤ f.decimal n k
  pub decimal_pos : (m k : ℕ) → Nat.◌<◌ 0 m → Nat.◌≤◌ k 6 → whole 0 < f.decimal m k
  pub of_ℤ_mono : (a b : ℤ) → a ≤ℤ b → f.of_ℤ a ≤ f.of_ℤ b
  pub of_ℤ_pos : (n : ℕ) → f.of_ℤ (pos n) ≡ f.decimal n 0
  -- integers below 2 ^ 53 are exact
  pub whole_lt : (m n : ℕ) → Nat.◌<◌ m n → Nat.◌≤◌ n (2 ^ 53) → f.decimal m 0 < f.decimal n 0
  pub double : (n : ℕ) → Nat.◌≤◌ n (2 ^ 52) → f.decimal n 0 * whole 2 ≡ f.decimal (Nat.◌*◌ n 2) 0
  -- a quotient of integers is the exact one, rounded
  pub quotient_mono :
      (a b c d : ℕ)
      → Nat.◌<◌ 0 b
      → Nat.◌<◌ 0 d
      → Nat.◌≤◌ (Nat.◌*◌ a d) (Nat.◌*◌ c b)
      → f.decimal a 0 / f.decimal b 0 ≤ f.decimal c 0 / f.decimal d 0
  pub midpoint : (x y : F) → x ≤ y → (x ≤ (x + y) / whole 2) × ((x + y) / whole 2 ≤ y)
  pub zero_add : (x : F) → whole 0 < x → whole 0 + x ≡ x
  pub add_mono : (x y z w : F) → x ≤ y → z ≤ w → x + z ≤ y + w
  pub add_zero : (x : F) → (x + whole 0 ≤ x) × (x ≤ x + whole 0)
  pub sub_mono : (x y z w : F) → x ≤ y → w ≤ z → x - z ≤ y - w
  pub sub_zero : (x : F) → x - whole 0 ≡ x
  pub sub_self : (x : F) → x - x ≡ whole 0
  pub le_of_sub : (x y : F) → x - y ≤ whole 0 → x ≤ y
  pub mul_comm : (x y : F) → x * y ≡ y * x
  pub mul_mono : (x y z : F) → whole 0 ≤ z → x ≤ y → x * z ≤ y * z
  pub mul_one : (x : F) → x * whole 1 ≡ x
  pub mul_zero : (x : F) → (x * whole 0 ≤ whole 0) × (whole 0 ≤ x * whole 0)
  pub div_mono : (x y z : F) → whole 0 < z → x ≤ y → x / z ≤ y / z
  pub div_anti : (x z w : F) → whole 0 ≤ x → whole 0 < z → z ≤ w → x / w ≤ x / z
  pub div_one : (x : F) → x / whole 1 ≡ x
  pub div_self : (x : F) → whole 0 < x → x / x ≡ whole 1
  pub zero_div : (x : F) → whole 0 < x → whole 0 ≤ whole 0 / x
  pub round_mono : (n : ℕ) (x y : F) → x ≤ y → f.round_to n x ≤ f.round_to n y
  pub round_zero : (n : ℕ) → f.round_to n (whole 0) ≡ whole 0

-- What is relied on of `math.pow` at a base in (0, 1]: it is positive, it is exact at the exponent
-- 1, and it falls as the exponent grows.
pub record IsPower {ℓ} (F : Type ℓ) ⦃f : Float F⦄ : Type ℓ where
  pub power_nonneg : (p z : F) → whole 0 < p → whole 0 ≤ f.power p z
  pub zero_add-power : (p z : F) → whole 0 < p → whole 0 + f.power p z ≡ f.power p z
  pub power_one : (p : F) → whole 0 < p → f.power p (whole 1) ≡ p
  pub power_anti : (p z w : F) → whole 0 < p → p ≤ whole 1 → z ≤ w → f.power p w ≤ f.power p z
  pub power-le_one : (p z : F) → whole 0 < p → p ≤ whole 1 → whole 0 ≤ z → f.power p z ≤ whole 1

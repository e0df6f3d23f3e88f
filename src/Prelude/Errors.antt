-- ===== src/Prelude/Errors.antt =====
-- Fallible code: a value, or the exception that was raised. The classes of api/errors.py are the
-- constructors of `ApiError`, each with its message; `value_error` is Python's ValueError.
use Prim.Native.Nat.{ℕ}
use Prim.Native.String.{String}
use mathlib.Core.Path.{◌≡◌, refl, ap}
use mathlib.Core.Logic.{◌⊎◌, inl, inr}
use mathlib.Core.Bool.{Bool, true, false}
use mathlib.Core.Option.{Option, none, some}
use bookie_breaker_agent.Prelude.Tests.{if◌then◌else◌}

pub data ApiError : Type 0 where
  invalid_parameter not_found duplicate_resource unprocessable : String → ApiError
  dependency dependency_timeout : String → ApiError

-- the class attribute `status_code`
unfoldable pub status_code : ApiError → ℕ
status_code (invalid_parameter _) = 400
status_code (not_found _) = 404
status_code (duplicate_resource _) = 409
status_code (unprocessable _) = 422
status_code (dependency _) = 502
status_code (dependency_timeout _) = 504

-- `exc.message`
abbrev pub message : ApiError → String
message (invalid_parameter m) = m
message (not_found m) = m
message (duplicate_resource m) = m
message (unprocessable m) = m
message (dependency m) = m
message (dependency_timeout m) = m

pub data Exception : Type 0 where
  value_error : String → Exception
  api_error : ApiError → Exception
  other : String → Exception

pub data Result {ℓ} (A : Type ℓ) : Type ℓ where
  ok : A → Result A
  raise : Exception → Result A

module _ {ℓ} {B : Type ℓ} where
  infixl 5 ◌>>=◌ ◌>>◌
  -- An exception that a step raises is what the block raises.
  abbrev pub ◌>>=◌ {κ} : {A : Type κ} → Result A → (A → Result B) → Result B
  raise e >>= next = raise e
  ok a >>= next = next a

  abbrev pub ◌>>◌ : Result (Unit {0}) → Result B → Result B
  check >> rest = check >>= λ _. rest

-- `if fails: raise ValueError(message)`
abbrev pub reject_if : Bool → String → Result (Unit {0})
reject_if true m = raise (value_error m)
reject_if false m = ok tt

module _ {ℓ κ} {A : Type ℓ} {B : Type κ} where
  -- A block that returned came through each of its steps.
  pub >>=-eq-ok :
      (step : Result A) (next : A → Result B) {out : B}
      → (step >>= next) ≡ ok out
      → (mid : A) × (step ≡ ok mid) × (next mid ≡ ok out)
  >>=-eq-ok (raise e) next h = cc
  >>=-eq-ok (ok mid) next h = (mid, refl, h)

abbrev pub from_ok {ℓ} : {A : Type ℓ} → A → Result A → A
from_ok d (ok a) = a
from_ok d (raise e) = d

pub ok-injective {ℓ} : {A : Type ℓ} (a b : A) → ok a ≡ ok b → a ≡ b
ok-injective a b h = ap (from_ok a) h

-- A test that was passed did not hold.
pub reject_if-passed : (t : Bool) (m : String) (u : Unit {0}) → reject_if t m ≡ ok u → t ≡ false
reject_if-passed true m u h = cc
reject_if-passed false m u h = refl

pub Result-cases {ℓ} :
    {A : Type ℓ} (m : Result A) → ((a : A) × (m ≡ ok a)) ⊎ ((e : Exception) × (m ≡ raise e))
Result-cases (ok a) = inl (a, refl)
Result-cases (raise e) = inr (e, refl)

-- A result that was not none came past the test that gives none.
pub passed-none {ℓ} :
    {A : Type ℓ} (t : Bool) (rest : Result (Option A)) (a : A)
    → (if t then ok none else rest) ≡ ok (some a)
    → (t ≡ false) × (rest ≡ ok (some a))
passed-none true rest a h = cc
passed-none false rest a h = (refl, h)

-- The call returns what `P` holds of, or raises what `Q` holds of.
pub data Yields {ℓ κ μ} {A : Type ℓ} (Q : Exception → Type κ) (P : A → Type μ)
    : Result A → Type (ℓ ⊔ κ ⊔ μ) where
  yielded : (a : A) → P a → Yields Q P (ok a)
  failed_with : (e : Exception) → Q e → Yields Q P (raise e)

pub >>=-Yields {ℓ κ μ ν π} :
    {A : Type ℓ} {B : Type κ} {Q : Exception → Type π} {P : A → Type μ} {R : B → Type ν}
    {step : Result A} {next : A → Result B}
    → Yields Q P step
    → ((a : A) → P a → Yields Q R (next a))
    → Yields Q R (step >>= next)
>>=-Yields (yielded a p) hs = hs a p
>>=-Yields (failed_with e q) hs = failed_with e q

pub Yields-mono {ℓ κ μ ν} :
    {A : Type ℓ} {Q : Exception → Type κ} {P : A → Type μ} {R : A → Type ν} {step : Result A}
    → Yields Q P step
    → ((a : A) → P a → R a)
    → Yields Q R step
Yields-mono (yielded a p) g = yielded a (g a p)
Yields-mono (failed_with e q) g = failed_with e q

abbrev pub AnyValue {ℓ} : {A : Type ℓ} → A → Type 0
AnyValue a = Unit

pub yields {ℓ κ} :
    {A : Type ℓ} (Q : Exception → Type κ) (step : Result A)
    → ((e : Exception) → step ≡ raise e → Q e)
    → Yields Q AnyValue step
yields Q (ok a) h = yielded a tt
yields Q (raise e) h = failed_with e (h e refl)

-- ===== src/Clients/Retry.antt =====
-- clients/retry.py: bounded retries with exponential backoff. The awaited function is the sequence
-- of the results that its calls give, and `random.random()` that of the numbers drawn.
pub mod Bounded
use Prim.Native.Nat.{◌^◌ as ◌^ℕ◌}
use bookie_breaker_agent.Prelude.{
  ℕ, zero, suc, ◌==◌, Bool, true, false, not, ◌&&◌, List, [], ◌∷◌, Exception, api_error, other,
  dependency, dependency_timeout, Result, ok, raise, if◌then◌else◌,
}
use bookie_breaker_agent.Float.{Float, ◌+◌, ◌*◌, ◌/◌, whole, min}

-- `except RETRIABLE_ERRORS`
unfoldable pub is_retriable : Exception → Bool
is_retriable (api_error (dependency _)) = true
is_retriable (api_error (dependency_timeout _)) = true
is_retriable _ = false

-- What a call of `with_retries` did: how it ended, how often the function was called, and how
-- long it slept between the calls.
pub record Attempted {ℓ κ} (F : Type ℓ) (A : Type κ) : Type (ℓ ⊔ κ) where
  pub result : Result A
  pub calls : ℕ
  pub slept : List F

module _ {ℓ} {F : Type ℓ} ⦃f : Float F⦄ where
  -- `min(base_delay * (2**attempt), max_delay) * (0.5 + random.random() / 2)`
  unfoldable pub delay : F → F → F → ℕ → F
  delay base_delay max_delay random attempt =
      min (base_delay * whole (2 ^ℕ attempt)) max_delay * (f.decimal 5 1 + random / whole 2)

  module _ {κ} {A : Type κ} (base_delay max_delay : F) (random : ℕ → F) (fn : ℕ → Result A) where
    -- The body of the loop: what a call gave, how many attempts are left after it, its number, and
    -- what the rest of the loop would do.
    unfoldable pub after_call : Result A → ℕ → ℕ → Attempted F A → Attempted F A
    unfolding is_retriable delay
    after_call (ok a) left attempt rest = record { result = ok a; calls = suc attempt; slept = [] }
    after_call (raise e) left attempt rest =
        if is_retriable e && not (left == 0)
        then record rest {
          slept = delay base_delay max_delay (random attempt) attempt ∷ rest.slept;
        }
        else record { result = raise e; calls = suc attempt; slept = [] }

    -- `for attempt in range(attempts)`, from `attempt` with so many left. With no attempts the
    -- assertion fails.
    unfoldable pub retry_from : ℕ → ℕ → Attempted F A
    unfolding after_call
    retry_from zero attempt = record {
      result = raise (other "AssertionError");
      calls = attempt;
      slept = [];
    }
    retry_from (suc left) attempt =
        after_call (fn attempt) left attempt (retry_from left (suc attempt))

    unfoldable pub with_retries : ℕ → Attempted F A
    unfolding retry_from
    with_retries attempts = retry_from attempts 0

-- ===== src/Clients/Base.antt =====
-- clients/base.py: the envelope-unwrapping HTTP client. What httpx gives back from a request is
-- `Reply`; the texts of messages that only quote the upstream are left out.
pub mod Outcome
use Prim.Native.Nat
use bookie_breaker_agent.Prelude.{
  ℕ, String, Bool, true, false, leb, ◌==◌, ◌||◌, [], Exception, api_error, not_found, unprocessable,
  dependency, dependency_timeout, value_error, Result, ok, raise, if◌then◌else◌,
}
use bookie_breaker_agent.Float.{Float}
use bookie_breaker_agent.Clients.Retry.{Attempted, with_retries}

-- `response.json()`: no JSON, an object without the key "data", or the value at "data".
pub data Body {ℓ} (V : Type ℓ) : Type ℓ where
  not_json without_data : Body V
  with_data : V → Body V

-- `httpx.TimeoutException`, another `httpx.HTTPError`, or a response.
pub data Reply {ℓ} (V : Type ℓ) : Type ℓ where
  timed_out unavailable : Reply V
  response : ℕ → Body V → Reply V

module _ {ℓ} {V : Type ℓ} where
  -- The last lines of `_get_once`; `json` raises a ValueError.
  unfoldable pub unwrap : Body V → Result V
  unwrap not_json = raise (value_error "JSONDecodeError")
  unwrap without_data = raise (api_error (dependency "returned a malformed envelope"))
  unwrap (with_data v) = ok v

  unfoldable pub get_once : Reply V → Result V
  unfolding unwrap
  get_once timed_out = raise (api_error (dependency_timeout "timed out fetching"))
  get_once unavailable = raise (api_error (dependency "is unavailable"))
  get_once (response status body) =
      if status == 404
      then raise (api_error (not_found "not found"))
      else if leb 500 status
      then raise (api_error (dependency "returned an error"))
      else unwrap body

  unfoldable pub post_once : Reply V → Result V
  unfolding unwrap
  post_once timed_out = raise (api_error (dependency_timeout "timed out creating"))
  post_once unavailable = raise (api_error (dependency "is unavailable"))
  post_once (response status body) =
      if (status == 200 || status == 201) || status == 202
      then unwrap body
      else if status == 404
      then raise (api_error (not_found "not found"))
      else if status == 422
      then raise (api_error (unprocessable "rejected"))
      else raise (api_error (dependency "returned an error"))

  -- `attempts=3, base_delay=0.5, max_delay=4.0`; `replies i` is what the i-th request gets.
  module _ {κ} {F : Type κ} ⦃f : Float F⦄ (random : ℕ → F) (replies : ℕ → Reply V) where
    unfoldable pub get_data : Attempted F V
    get_data = with_retries (f.decimal 5 1) (f.decimal 40 1) random (λ i. get_once (replies i)) 3

    unfoldable pub post_data : Bool → Attempted F V
    post_data true =
        with_retries (f.decimal 5 1) (f.decimal 40 1) random (λ i. post_once (replies i)) 3
    post_data false = record { result = post_once (replies 0); calls = 1; slept = [] }

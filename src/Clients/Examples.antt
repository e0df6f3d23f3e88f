-- ===== src/Clients/Examples.antt =====
-- A request that is answered at the second attempt.
use Prim.Native.Nat
use bookie_breaker_agent.Prelude.{
  ℕ, zero, suc, ◌≡◌, ok, refl, false, arith, Result, raise, api_error, dependency,
}
use bookie_breaker_agent.Prelude.Int.{pos}
use bookie_breaker_agent.Float.Fixed.{Fixed, fixed_float}
use bookie_breaker_agent.Clients.Retry.{with_retries, retry_from, after_call, is_retriable}
use bookie_breaker_agent.Clients.Retry.Bounded.{EndsAt, with_retries-EndsAt, IsTransient}
use bookie_breaker_agent.Clients.Base.{
  Reply, timed_out, response, with_data, get_data, post_data, get_once, unwrap,
}
use bookie_breaker_agent.Clients.Base.Outcome.{IsPayload, get_data-IsPayload, post_data-calls}

abbrev draws : ℕ → Fixed
draws i = pos 300_000

-- The first request times out, the second gives 7.
abbrev second_answers : ℕ → Reply ℕ
second_answers zero = timed_out
second_answers (suc i) = response 200 (with_data 7)

abbrev fails_once : ℕ → Result ℕ
fails_once zero = raise (api_error (dependency "down"))
fails_once (suc i) = ok 7

with_retries-EndsAt_example :
    EndsAt
      (pos 500_000)
      (pos 4_000_000)
      draws
      fails_once
      0
      3
      (with_retries (pos 500_000) (pos 4_000_000) draws fails_once 3)
with_retries-EndsAt_example =
    with_retries-EndsAt (pos 500_000) (pos 4_000_000) draws fails_once 3 (omega arith)

get_data-IsPayload_example :
    (last : ℕ) × (Nat.◌<◌ last 3)
    × IsPayload (second_answers last) 7
    × ((get_data draws second_answers).calls ≡ suc last)
    × ((i : ℕ) → Nat.◌≤◌ 0 i → Nat.◌<◌ i last → IsTransient (get_once (second_answers i)))
unfolding get_data with_retries retry_from after_call is_retriable get_once unwrap
get_data-IsPayload_example = get_data-IsPayload draws second_answers 7 refl

post_data-calls_example :
    (Nat.◌≤◌ 1 (post_data draws second_answers false).calls)
    × (Nat.◌≤◌ (post_data draws second_answers false).calls 1)
post_data-calls_example = post_data-calls draws second_answers false

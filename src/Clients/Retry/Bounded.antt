-- ===== src/Clients/Retry/Bounded.antt =====
-- How a retried call ends: at the first call that does not fail transiently, or at the last.
use Prim.Native.Nat
use mathlib.Core.Path.{subst}
use bookie_breaker_agent.Prelude.{
  ℕ, zero, suc, ◌≡◌, ◌⊎◌, inl, inr, refl, true, false, not, ◌&&◌, ◌==◌, List, [], Result, ok, raise,
  Exception, sym, Bool-cases, arith,
}
use bookie_breaker_agent.Float.{Float}
use bookie_breaker_agent.Clients.Retry.{
  after_call, is_retriable, Attempted, retry_from, with_retries,
}

eq_or_above : (n i : ℕ) → Nat.◌≤◌ n i → (n ≡ i) ⊎ Nat.◌≤◌ (suc n) i
eq_or_above n i h = grind arith

-- A failure that is retried.
abbrev pub IsTransient {κ} : {A : Type κ} → Result A → Type 0
IsTransient (ok a) = ⊥
IsTransient (raise e) = is_retriable e ≡ true

module _ {ℓ κ} {F : Type ℓ} ⦃f : Float F⦄ {A : Type κ} (base_delay max_delay : F) (random : ℕ → F)
    (fn : ℕ → Result A) where
  -- The calls first, …, last - 1 failed transiently; call `last` is what is returned, and only the
  -- last allowed call may be transient.
  pub record IsLastCall (first stop last : ℕ) (r : Attempted F A) : Type κ where
    pub in_range : Nat.◌≤◌ first last × Nat.◌<◌ last stop
    pub before : (i : ℕ) → Nat.◌≤◌ first i → Nat.◌<◌ i last → IsTransient (fn i)
    pub returned : r.result ≡ fn last
    pub counted : r.calls ≡ suc last
    pub settled : (suc last ≡ stop) ⊎ (¬ IsTransient (fn last))

  no_earlier : (n i : ℕ) → Nat.◌≤◌ n i → Nat.◌<◌ i n → IsTransient (fn i)
  no_earlier n i h k = absurd (omega arith)

  -- One more transient failure in front of the calls.
  one_earlier :
      (n last i : ℕ)
      → IsTransient (fn n)
      → ((j : ℕ) → Nat.◌≤◌ (suc n) j → Nat.◌<◌ j last → IsTransient (fn j))
      → Nat.◌≤◌ n i
      → Nat.◌<◌ i last
      → IsTransient (fn i)
  one_earlier n last i now later h k = elim (eq_or_above n i h) [
    | inl e ↦ subst (λ j. IsTransient (fn j)) e now
    | inr g ↦ later i g k
  ]

  stopped-IsLastCall :
      (r : Result A) (attempt stop : ℕ) (slept : List F)
      → fn attempt ≡ r
      → Nat.◌<◌ attempt stop
      → (suc attempt ≡ stop) ⊎ (¬ IsTransient r)
      → IsLastCall attempt stop attempt (record { result = r; calls = suc attempt; slept = slept })
  stopped-IsLastCall r attempt stop slept e h settled = record {
    in_range = (omega arith, h);
    before = no_earlier attempt;
    returned = sym e;
    counted = refl;
    settled = subst (λ x. (suc attempt ≡ stop) ⊎ (¬ IsTransient x)) (sym e) settled;
  }

  -- A failure that is not retried is the last allowed call, or not transient.
  settled_lem :
      (x : Exception) (left attempt stop : ℕ)
      → stop ≡ Nat.◌+◌ attempt (suc left)
      → is_retriable x && not (left == 0) ≡ false
      → (suc attempt ≡ stop) ⊎ (¬ (is_retriable x ≡ true))
  settled_lem x left attempt stop h g = elim (Bool-cases (is_retriable x)) [
    | inl k ↦ inl (ground arith)
    | inr k ↦ inr (λ t. cc)
  ]

  -- The loop ends at a call that its range holds.
  abbrev pub EndsAt : (first stop : ℕ) → Attempted F A → Type κ
  EndsAt first stop r = (last : ℕ) × IsLastCall first stop last r

  after_call-EndsAt :
      (r : Result A) (left attempt stop : ℕ) (rest : Attempted F A)
      → fn attempt ≡ r
      → stop ≡ Nat.◌+◌ attempt (suc left)
      → (Nat.◌<◌ 0 left → EndsAt (suc attempt) stop rest)
      → EndsAt attempt stop (after_call base_delay max_delay random fn r left attempt rest)
  unfolding after_call
  after_call-EndsAt (ok a) left attempt stop rest e h next =
      (attempt, stopped-IsLastCall (ok a) attempt stop [] e (omega arith) (inr (λ t. t)))
  after_call-EndsAt (raise x) left attempt stop rest e h next =
      elim (Bool-cases (is_retriable x && not (left == 0))) [
        | inr g ↦ rw g (
          attempt,
          stopped-IsLastCall (raise x) attempt stop [] e (omega arith)
              (settled_lem x left attempt stop h g),
        )
        | inl g ↦
            let (last, l) = next (ground arith) in
            rw g (
              last,
              record {
                in_range = (omega (arith, l.in_range), l.in_range.1);
                before = λ i.
                    one_earlier attempt last i (subst IsTransient (sym e) (ground arith)) l.before;
                returned = l.returned;
                counted = l.counted;
                settled = l.settled;
              },
            )
      ]

  retry_from-EndsAt :
      (left attempt : ℕ)
      → Nat.◌<◌ 0 left
      → EndsAt attempt
          (Nat.◌+◌ attempt left)
          (retry_from base_delay max_delay random fn left attempt)
  unfolding retry_from
  retry_from-EndsAt zero attempt h = absurd (omega arith)
  retry_from-EndsAt (suc left) attempt h =
      after_call-EndsAt (fn attempt) left attempt (Nat.◌+◌ attempt (suc left)) _ refl refl (λ k.
        subst
          (λ stop.
            EndsAt (suc attempt) stop
              (retry_from base_delay max_delay random fn left (suc attempt)))
          (omega arith) (retry_from-EndsAt left (suc attempt) k))

  -- Allowed at least one attempt, with_retries returns what one of the allowed calls gave: every
  -- call before it failed transiently, it is the last one made, and it did not fail transiently
  -- itself unless it was the last allowed.
  pub with_retries-EndsAt :
      (attempts : ℕ)
      → Nat.◌<◌ 0 attempts
      → EndsAt 0 attempts (with_retries base_delay max_delay random fn attempts)
  unfolding with_retries
  with_retries-EndsAt attempts h =
      subst (λ stop. EndsAt 0 stop (with_retries base_delay max_delay random fn attempts))
        (omega arith) (retry_from-EndsAt attempts 0 h)

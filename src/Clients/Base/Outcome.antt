-- ===== src/Clients/Base/Outcome.antt =====
-- What a client call makes of the replies: which are retried, and what a returned payload means.
use Prim.Native.Nat
use mathlib.Core.Path.{subst}
use bookie_breaker_agent.Prelude.{
  ℕ, suc, ◌≡◌, ◌≢◌, sym, ◌∙◌, Exception, if◌then◌else◌, inl, inr, true, false, Bool, leb, ◌==◌,
  ◌||◌, ok, raise, Bool-cases, arith, ok-injective,
}
use bookie_breaker_agent.Float.{Float}
use bookie_breaker_agent.Clients.Retry.Bounded.{with_retries-EndsAt, IsTransient}
use bookie_breaker_agent.Clients.Base.{
  Reply, Body, timed_out, unavailable, response, not_json, without_data, with_data, unwrap,
  get_once, post_once, get_data, post_data,
}

raise-ne-ok {ℓ} : {A : Type ℓ} (e : Exception) (a : A) → raise e ≢ ok a
raise-ne-ok e a h = cc

module _ {ℓ} {V : Type ℓ} where
  -- The service answered with the payload, under a status below 500 other than 404.
  pub data IsPayload : Reply V → V → Type ℓ where
    payload :
        {status : ℕ} {v : V}
        → Nat.◌<◌ status 500
        → (status == 404) ≡ false
        → IsPayload (response status (with_data v)) v

  unwrap-IsPayload :
      (status : ℕ) (body : Body V) (v : V)
      → Nat.◌<◌ status 500
      → (status == 404) ≡ false
      → unwrap body ≡ ok v
      → IsPayload (response status body) v
  unfolding unwrap
  unwrap-IsPayload status not_json v h k e = cc
  unwrap-IsPayload status without_data v h k e = cc
  unwrap-IsPayload status (with_data w) v h k e =
      subst (λ x. IsPayload (response status (with_data w)) x) (ok-injective w v e) (payload h k)

  get_once-IsPayload : (reply : Reply V) (v : V) → get_once reply ≡ ok v → IsPayload reply v
  unfolding get_once
  get_once-IsPayload timed_out v h = cc
  get_once-IsPayload unavailable v h = cc
  get_once-IsPayload (response status body) v h = elim (Bool-cases (status == 404)) [
    | inl e ↦ absurd (raise-ne-ok _ v (rw e at h))
    | inr e ↦ elim (Bool-cases (leb 500 status)) [
      | inl g ↦ absurd (raise-ne-ok _ v (rw (e, g) at h))
      | inr g ↦ unwrap-IsPayload status body v (ground arith) e (rw (e, g) at h)
    ]
  ]

  post_once-IsPayload : (reply : Reply V) (v : V) → post_once reply ≡ ok v → IsPayload reply v
  unfolding post_once
  post_once-IsPayload timed_out v h = cc
  post_once-IsPayload unavailable v h = cc
  post_once-IsPayload (response status body) v h =
      elim (Bool-cases ((status == 200 || status == 201) || status == 202)) [
        | inl e ↦ unwrap-IsPayload status body v (ground arith) (ground arith) (rw e at h)
        | inr e ↦ elim (Bool-cases (status == 404)) [
          | inl g ↦ absurd (raise-ne-ok _ v (rw (e, g) at h))
          | inr g ↦ elim (Bool-cases (status == 422)) [
            | inl k ↦ absurd (raise-ne-ok _ v (rw (e, g, k) at h))
            | inr k ↦ absurd (raise-ne-ok _ v (rw (e, g, k) at h))
          ]
        ]
      ]

  module _ {κ} {F : Type κ} ⦃f : Float F⦄ (random : ℕ → F) (replies : ℕ → Reply V) where
    -- A payload that get_data returns is the one of its last request, at most the third,
    -- answered under a status below 500 other than 404, and every request before it failed in a
    -- way that is retried.
    pub get_data-IsPayload :
        (v : V)
        → (get_data random replies).result ≡ ok v
        → (last : ℕ) × (Nat.◌<◌ last 3)
          × IsPayload (replies last) v
          × ((get_data random replies).calls ≡ suc last)
          × ((i : ℕ) → Nat.◌≤◌ 0 i → Nat.◌<◌ i last → IsTransient (get_once (replies i)))
    unfolding get_data
    get_data-IsPayload v h =
        let (last, l) =
          with_retries-EndsAt (f.decimal 5 1) (f.decimal 40 1) random (λ i. get_once (replies i)) 3
            (omega arith) in
        (
          last,
          l.in_range.1,
          get_once-IsPayload (replies last) v (sym l.returned ∙ h),
          l.counted,
          l.before,
        )

    -- A POST is sent once unless the caller declared it retriable, and then at most three times.
    pub post_data-calls :
        (retriable : Bool)
        → (Nat.◌≤◌ 1 (post_data random replies retriable).calls)
          × (Nat.◌≤◌ (post_data random replies retriable).calls (if retriable then 3 else 1))
    unfolding post_data
    post_data-calls false = (omega arith, omega arith)
    post_data-calls true =
        let (last, l) =
          with_retries-EndsAt (f.decimal 5 1) (f.decimal 40 1) random (λ i. post_once (replies i)) 3
            (omega arith) in
        (omega (arith, l.counted), omega (arith, l.counted, l.in_range.1))

    -- A payload that post_data returns is the one of the last request that it sent.
    pub post_data-IsPayload :
        (retriable : Bool) (v : V)
        → (post_data random replies retriable).result ≡ ok v
        → IsPayload (replies (Nat.◌-◌ (post_data random replies retriable).calls 1)) v
    unfolding post_data
    post_data-IsPayload false v h = post_once-IsPayload (replies 0) v h
    post_data-IsPayload true v h =
        let (last, l) =
          with_retries-EndsAt (f.decimal 5 1) (f.decimal 40 1) random (λ i. post_once (replies i)) 3
            (omega arith) in
        let same : last ≡ Nat.◌-◌ (post_data random replies true).calls 1 =
          omega (arith, l.counted) in
        subst (λ n. IsPayload (replies n) v) same
          (post_once-IsPayload (replies last) v (sym l.returned ∙ h))

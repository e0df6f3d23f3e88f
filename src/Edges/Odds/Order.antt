-- ===== src/Edges/Odds/Order.antt =====
-- Better American odds are a lower implied probability and a higher payout.
use bookie_breaker_agent.Prelude.{
  zero, suc, ◌≡◌, ◌≢◌, refl, arith, ok, raise, Exception, Bool, true, false, if◌then◌else◌,
  ok-injective, ◌+◌ as ◌+ℕ◌, ◌≤◌ as ◌≤ℕ◌,
}
use native.Mathlib.Nat.{mul-le-mul}
use bookie_breaker_agent.Prelude.Int.{ℤ, pos, negsuc, ◌≤ℤ◌}
use bookie_breaker_agent.Float.{Float, IsFloat, ◌≤◌, whole}
use bookie_breaker_agent.Float.Order.{quotient_nonneg, quotient-le_one, le-add_nonneg}
use bookie_breaker_agent.Edges.Odds.{american_to_implied_prob, american_to_decimal}

-- A price as bookmakers quote it: at least 100 from 0.
abbrev pub IsPrice : ℤ → Type 0
IsPrice (pos n) = ◌≤ℕ◌ 100 n
IsPrice (negsuc n) = ◌≤ℕ◌ 99 n

-- A test that raises was passed by what returned.
returned-else {ℓ} :
    {A : Type ℓ} (t : Bool) (e : Exception) {x a : A} → (if t then raise e else ok x) ≡ ok a → x ≡ a
returned-else true e h = cc
returned-else false e {x} {a} h = ok-injective x a h

module _ {ℓ} {F : Type ℓ} ⦃f : Float F⦄ (laws : IsFloat F) where
  open laws use {
    le_refl, le_trans, decimal_mono, add_mono, div_mono, quotient_mono, whole_lt, div_self,
  }

  -- Of two quoted prices the higher has at most the implied probability of the other.
  pub american_to_implied_prob_anti :
      (a b : ℤ) (p q : F)
      → IsPrice a
      → IsPrice b
      → a ≤ℤ b
      → american_to_implied_prob a ≡ ok p
      → american_to_implied_prob b ≡ ok q
      → q ≤ p
  unfolding american_to_implied_prob
  american_to_implied_prob_anti (negsuc m) (negsuc n) p q ha hb h ea eb =
      rw (← ok-injective _ p ea, ← ok-injective _ q eb)
        (quotient_mono (suc n) (◌+ℕ◌ (suc n) 100) (suc m) (◌+ℕ◌ (suc m) 100) (omega arith)
          (omega arith) (grind arith))
  american_to_implied_prob_anti (negsuc m) (pos (suc n)) p q ha hb h ea eb =
      rw (← ok-injective _ p ea, ← ok-injective _ q eb)
        (quotient_mono 100 (◌+ℕ◌ (suc n) 100) (suc m) (◌+ℕ◌ (suc m) 100) (omega arith) (omega arith)
          (omega
            (arith, mul-le-mul {n₁ = 100} {m₁ = 100} {n₂ = suc m} {m₂ = suc n} (omega arith) hb)))
  american_to_implied_prob_anti (pos (suc m)) (pos (suc n)) p q ha hb h ea eb =
      rw (← ok-injective _ p ea, ← ok-injective _ q eb)
        (quotient_mono 100 (◌+ℕ◌ (suc n) 100) 100 (◌+ℕ◌ (suc m) 100) (omega arith) (omega arith)
          (omega arith))
  american_to_implied_prob_anti (pos zero) b p q ha hb h ea eb = cc
  american_to_implied_prob_anti a (pos zero) p q ha hb h ea eb = cc
  american_to_implied_prob_anti (pos (suc m)) (negsuc n) p q ha hb h ea eb = absurd (omega arith)

  -- Of two quoted prices the higher pays at least what the other pays.
  pub american_to_decimal_mono :
      (a b : ℤ) (p q : F)
      → IsPrice a
      → IsPrice b
      → a ≤ℤ b
      → american_to_decimal a ≡ ok p
      → american_to_decimal b ≡ ok q
      → p ≤ q
  unfolding american_to_decimal
  american_to_decimal_mono (negsuc m) (negsuc n) p q ha hb h ea eb =
      rw (← ok-injective _ p ea, ← ok-injective _ q eb)
        (add_mono _ _ _ _ (le_refl (whole 1))
          (quotient_mono 100 (suc m) 100 (suc n) (omega arith) (omega arith) (omega arith)))
  american_to_decimal_mono (negsuc m) (pos (suc n)) p q ha hb h ea eb =
      rw (← ok-injective _ p ea, ← returned-else _ _ eb)
        (add_mono _ _ _ _ (le_refl (whole 1)) (
          quotient_mono 100 (suc m) (suc n) 100 (omega arith) (omega arith) (
            omega (
              arith,
              mul-le-mul {n₁ = 100} {m₁ = 100} {n₂ = suc n} {m₂ = suc m} hb (omega arith),
            ))))
  american_to_decimal_mono (pos (suc m)) (pos (suc n)) p q ha hb h ea eb =
      rw (← returned-else _ _ ea, ← returned-else _ _ eb)
        (add_mono _ _ _ _ (le_refl (whole 1))
          (quotient_mono (suc m) 100 (suc n) 100 (omega arith) (omega arith) (omega arith)))
  american_to_decimal_mono (pos zero) b p q ha hb h ea eb = cc
  american_to_decimal_mono a (pos zero) p q ha hb h ea eb = cc
  american_to_decimal_mono (pos (suc m)) (negsuc n) p q ha hb h ea eb = absurd (omega arith)

  -- Any odds but 0 convert to an implied probability in [0, 1].
  pub american_to_implied_prob_total :
      (a : ℤ)
      → a ≢ pos 0
      → (p : F) × (american_to_implied_prob a ≡ ok p) × (whole 0 ≤ p) × (p ≤ whole 1)
  unfolding american_to_implied_prob
  american_to_implied_prob_total (pos zero) h = absurd (h refl)
  american_to_implied_prob_total (negsuc n) h = (
    _,
    refl,
    quotient_nonneg laws (suc n) _ (omega arith),
    quotient-le_one laws (suc n) _ (omega arith) (omega arith),
  )
  american_to_implied_prob_total (pos (suc n)) h = (
    _,
    refl,
    quotient_nonneg laws 100 _ (omega arith),
    quotient-le_one laws 100 _ (omega arith) (omega arith),
  )

  pub one-le-american_to_decimal : (a : ℤ) (d : F) → american_to_decimal a ≡ ok d → whole 1 ≤ d
  unfolding american_to_decimal
  one-le-american_to_decimal (pos zero) d e = cc
  one-le-american_to_decimal (negsuc n) d e =
      rw (← ok-injective _ d e)
        (le-add_nonneg laws (whole 1) _ (quotient_nonneg laws 100 (suc n) (omega arith)))
  one-le-american_to_decimal (pos (suc n)) d e =
      rw (← returned-else _ _ e)
        (le-add_nonneg laws (whole 1) _ (quotient_nonneg laws (suc n) 100 (omega arith)))

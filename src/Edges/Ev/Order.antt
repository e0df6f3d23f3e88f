-- ===== src/Edges/Ev/Order.antt =====
-- Expected value grows with the probability and with the price.
use bookie_breaker_agent.Prelude.{◌≡◌, ok, ok-injective, >>=-eq-ok}
use bookie_breaker_agent.Prelude.Int.{ℤ, ◌≤ℤ◌}
use bookie_breaker_agent.Float.{Float, IsFloat, ◌-◌, ◌*◌, ◌≤◌, whole}
use bookie_breaker_agent.Float.Order.{decimal_nonneg, mul_mono_right}
use bookie_breaker_agent.Edges.Odds.{american_to_decimal}
use bookie_breaker_agent.Edges.Odds.Order.{
  IsPrice, american_to_decimal_mono, one-le-american_to_decimal,
}
use bookie_breaker_agent.Edges.Ev.{calculate_ev, calculate_ev_pct}

module _ {ℓ} {F : Type ℓ} ⦃f : Float F⦄ (laws : IsFloat F) where
  open laws use {le_refl, le_trans, mul_mono, sub_mono}

  -- At quoted prices the expected value does not fall when the probability or the price rises,
  -- for probabilities that are not negative.
  pub calculate_ev_pct_mono :
      (p q : F) (a b : ℤ) (v w : F)
      → whole 0 ≤ p
      → p ≤ q
      → IsPrice a
      → IsPrice b
      → a ≤ℤ b
      → calculate_ev_pct p a ≡ ok v
      → calculate_ev_pct q b ≡ ok w
      → v ≤ w
  unfolding calculate_ev_pct calculate_ev
  calculate_ev_pct_mono p q a b v w hp h ha hb k ev ew =
      let (x, ex, ev') = >>=-eq-ok (calculate_ev p a) _ ev in
      let (y, ey, ew') = >>=-eq-ok (calculate_ev q b) _ ew in
      let (c, ec, ex') = >>=-eq-ok (american_to_decimal a) _ ex in
      let (d, ed, ey') = >>=-eq-ok (american_to_decimal b) _ ey in
      let payout : c ≤ d = american_to_decimal_mono laws a b c d ha hb k ec ed in
      rw
        (
          ← ok-injective _ v ev',
          ← ok-injective _ w ew',
          ← ok-injective _ x ex',
          ← ok-injective _ y ey',
        )
        (mul_mono (p * c - whole 1) (q * d - whole 1) (whole 100) (decimal_nonneg laws 100 0) (
          sub_mono (p * c) (q * d) (whole 1) (whole 1)
            (le_trans (p * c) (p * d) (q * d) (mul_mono_right laws c d p hp payout) (
              mul_mono p q d
                (le_trans (whole 0) (whole 1) d (decimal_nonneg laws 1 0)
                  (one-le-american_to_decimal laws b d ed))
                h))
            (le_refl (whole 1))))

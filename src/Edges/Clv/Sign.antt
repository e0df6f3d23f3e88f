-- ===== src/Edges/Clv/Sign.antt =====
-- The sign of the closing line value says which price was better.
use bookie_breaker_agent.Prelude.{◌≡◌, ok, ok-injective, >>=-eq-ok}
use bookie_breaker_agent.Prelude.Int.{ℤ, ◌≤ℤ◌}
use bookie_breaker_agent.Float.{Float, IsFloat, ◌-◌, ◌≤◌, whole}
use bookie_breaker_agent.Float.Order.{
  decimal_nonneg, mul_nonneg, mul_nonpos, sub_nonneg, sub_nonpos,
}
use bookie_breaker_agent.Edges.Odds.{american_to_implied_prob}
use bookie_breaker_agent.Edges.Odds.Order.{IsPrice, american_to_implied_prob_anti}
use bookie_breaker_agent.Edges.Clv.{calculate_clv}

module _ {ℓ} {F : Type ℓ} ⦃f : Float F⦄ (laws : IsFloat F) where
  -- At quoted prices, a bet whose price is at least the closing price has a closing line value
  -- that is not negative.
  pub calculate_clv_nonneg :
      (bet closing : ℤ) (v : F)
      → IsPrice bet
      → IsPrice closing
      → closing ≤ℤ bet
      → calculate_clv bet closing ≡ ok v
      → whole 0 ≤ v
  unfolding calculate_clv
  calculate_clv_nonneg bet closing v hb hc h e =
      let (p, ep, e') = >>=-eq-ok (american_to_implied_prob bet) _ e in
      let (q, eq, e'') = >>=-eq-ok (american_to_implied_prob closing) _ e' in
      rw (← ok-injective _ v e'') (
        mul_nonneg laws (q - p) (whole 100)
          (sub_nonneg laws q p (american_to_implied_prob_anti laws closing bet q p hc hb h eq ep))
          (decimal_nonneg laws 100 0))

  -- At quoted prices, a bet whose price is at most the closing price has a value that is not
  -- positive.
  pub calculate_clv_nonpos :
      (bet closing : ℤ) (v : F)
      → IsPrice bet
      → IsPrice closing
      → bet ≤ℤ closing
      → calculate_clv bet closing ≡ ok v
      → v ≤ whole 0
  unfolding calculate_clv
  calculate_clv_nonpos bet closing v hb hc h e =
      let (p, ep, e') = >>=-eq-ok (american_to_implied_prob bet) _ e in
      let (q, eq, e'') = >>=-eq-ok (american_to_implied_prob closing) _ e' in
      rw (← ok-injective _ v e'') (
        mul_nonpos laws (q - p) (whole 100)
          (sub_nonpos laws q p (american_to_implied_prob_anti laws bet closing p q hb hc h ep eq))
          (decimal_nonneg laws 100 0))

-- ===== src/Edges/Quality/Order.antt =====
-- The quality score moves with each of its inputs, and staleness is closed under age.
use bookie_breaker_agent.Prelude.{ℕ, ◌≡◌, ◌≤◌ as ◌≤ℕ◌, true, arith}
use bookie_breaker_agent.Prelude.Int.{ -ℤ_mono}
use bookie_breaker_agent.Float.{Float, IsFloat, ◌-◌, ◌*◌, ◌/◌, ◌≤◌, ◌<◌, whole, max}
use bookie_breaker_agent.Float.Order.{
  lt_of_lt_of_le, lt_of_le_of_lt, min_mono, max_mono, decimal_nonneg,
}
use bookie_breaker_agent.Float.Time.{DateTime, total_seconds}
use bookie_breaker_agent.Edges.Quality.{edge_quality_score, stale_by_hours, is_line_stale}

module _ {ℓ} {F : Type ℓ} ⦃f : Float F⦄ (laws : IsFloat F) where
  open laws use {
    le_refl, le_trans, add_mono, sub_mono, mul_mono, div_mono, decimal_pos, decimal_mono,
    round_mono, of_ℤ_mono, lt-eq-not-le,
  }

  weight_mono : (x y : F) (m k : ℕ) → x ≤ y → x * f.decimal m k ≤ y * f.decimal m k
  weight_mono x y m k h = mul_mono x y (f.decimal m k) (decimal_nonneg laws m k) h

  -- `max(0.0, 1.0 - x / scale)` falls as x grows.
  shortfall_anti :
      (x y scale : F)
      → whole 0 < scale
      → y ≤ x
      → max (f.decimal 0 1) (f.decimal 10 1 - x / scale)
        ≤ max (f.decimal 0 1) (f.decimal 10 1 - y / scale)
  shortfall_anti x y scale p h =
      max_mono laws _ _ _ _ (le_refl (f.decimal 0 1))
        (sub_mono _ _ _ _ (le_refl (f.decimal 10 1)) (div_mono y x scale p h))

  -- The quality score does not fall when the expected value rises, or when the confidence
  -- interval, the market's efficiency, the age of the line or the calibration error shrinks.
  pub edge_quality_score_mono :
      (ev ev' ci ci' efficiency efficiency' age age' ece ece' : F)
      → ev ≤ ev'
      → ci' ≤ ci
      → efficiency' ≤ efficiency
      → age' ≤ age
      → ece' ≤ ece
      → edge_quality_score ev ci efficiency age ece
        ≤ edge_quality_score ev' ci' efficiency' age' ece'
  unfolding edge_quality_score
  edge_quality_score_mono ev ev' ci ci' efficiency efficiency' age age' ece ece' h₁ h₂ h₃ h₄ h₅ =
      round_mono 3 _ _ (
        add_mono _ _ _ _
          (add_mono _ _ _ _
            (add_mono _ _ _ _
              (add_mono _ _ _ _
                (weight_mono _ _ 30 2 (
                  min_mono laws _ _ _ _
                    (div_mono ev ev' (f.decimal 100 1)
                      (decimal_pos 100 1 (omega arith) (omega arith)) h₁)
                    (le_refl (f.decimal 10 1))))
                (weight_mono _ _ 25 2 (
                  shortfall_anti ci ci' (f.decimal 20 2)
                    (decimal_pos 20 2 (omega arith) (omega arith)) h₂)))
              (weight_mono _ _ 15 2 (
                sub_mono _ _ _ _ (le_refl (f.decimal 10 1))
                  (weight_mono efficiency' efficiency 3 1 h₃))))
            (weight_mono _ _ 15 2 (
              shortfall_anti age age' (f.decimal 240 1)
                (decimal_pos 240 1 (omega arith) (omega arith)) h₄)))
          (weight_mono _ _ 15 2 (
            shortfall_anti ece ece' (f.decimal 5 2) (decimal_pos 5 2 (omega arith) (omega arith))
              h₅)))

  hours_mono :
      (later earlier later' earlier' : DateTime)
      → ◌≤ℕ◌ later later'
      → ◌≤ℕ◌ earlier' earlier
      → total_seconds {F = F} later earlier / whole 3600
        ≤ total_seconds later' earlier' / whole 3600
  hours_mono later earlier later' earlier' h k =
      div_mono _ _ (whole 3600) (decimal_pos 3600 0 (omega arith) (omega arith)) (
        div_mono _ _ (whole 1_000_000) (decimal_pos 1_000_000 0 (omega arith) (omega arith))
          (of_ℤ_mono _ _ (-ℤ_mono later earlier later' earlier' h k)))

  stale_by_hours_mono :
      (age age' left left' : F)
      → age ≤ age'
      → left' ≤ left
      → (stale_by_hours age left).0 ≡ true
      → (stale_by_hours age' left').0 ≡ true
  unfolding stale_by_hours
  stale_by_hours_mono age age' left left' h k stale = ground (
    arith,
    lt_of_lt_of_le laws (f.decimal 40 1) age age',
    lt_of_lt_of_le laws (f.decimal 5 1) age age',
    lt_of_lt_of_le laws (f.decimal 83 3) age age',
    lt_of_le_of_lt laws left' left (f.decimal 20 1),
    lt_of_le_of_lt laws left' left (f.decimal 5 1),
  )

  -- An older line is stale where a younger one is, and a line that is stale is stale for a
  -- nearer game.
  pub is_line_stale_mono :
      (taken taken' start start' now : DateTime)
      → ◌≤ℕ◌ taken' taken
      → ◌≤ℕ◌ start' start
      → (is_line_stale F taken start now).0 ≡ true
      → (is_line_stale F taken' start' now).0 ≡ true
  unfolding is_line_stale
  is_line_stale_mono taken taken' start start' now h k stale =
      stale_by_hours_mono _ _ _ _ (hours_mono now taken now taken' (omega arith) h)
        (hours_mono start' now start now k (omega arith)) stale

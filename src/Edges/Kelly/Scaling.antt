-- ===== src/Edges/Kelly/Scaling.antt =====
-- The scaling of simultaneous bets: it keeps the bets, and never enlarges one.
use bookie_breaker_agent.Prelude.{
  ◌≡◌, refl, false, inl, inr, List, [], ◌∷◌, map, Bool-cases, All, All₂,
}
use bookie_breaker_agent.Float.{Float, IsFloat, ◌/◌, ◌≤◌, ◌<◌, ◌≤?◌, whole}
use bookie_breaker_agent.Float.Order.{
  mul-le_self, mul_nonneg, div_nonneg, lt_of_not_le, lt_of_le_of_lt, le_of_not_le,
}
use bookie_breaker_agent.Edges.Kelly.{BetSizing, total_exposure, rescale, scale_simultaneous_bets}

module _ {ℓ} {F : Type ℓ} ⦃f : Float F⦄ where
  -- `b'` is the bet `b`, at a size between 0 and that of `b`.
  abbrev pub IsReduced : BetSizing F → BetSizing F → Type 0
  IsReduced b b' = (b'.game_id ≡ b.game_id) × (whole 0 ≤ b'.kelly) × (b'.kelly ≤ b.kelly)

  abbrev pub IsSized : BetSizing F → Type 0
  IsSized b = whole 0 ≤ b.kelly

  module _ (laws : IsFloat F) where
    open laws use {le_refl, le_trans, add_mono, mul_zero, mul_comm, div_mono, div_self}

    IsReduced-refl : (bets : List (BetSizing F)) → All IsSized bets → All₂ IsReduced bets bets
    IsReduced-refl [] h = tt
    IsReduced-refl (b ∷ bets) (h, hs) = ((refl, h, le_refl b.kelly), IsReduced-refl bets hs)

    rescale-IsReduced :
        (s : F) (bets : List (BetSizing F))
        → whole 0 ≤ s
        → s ≤ whole 1
        → All IsSized bets
        → All₂ IsReduced bets (map (rescale s) bets)
    rescale-IsReduced s [] p q h = tt
    rescale-IsReduced s (b ∷ bets) p q (h, hs) = (
      (refl, mul_nonneg laws b.kelly s h p, mul-le_self laws b.kelly s h q),
      rescale-IsReduced s bets p q hs,
    )

    -- The factor lies in [0, 1].
    factor_bounds :
        (bets : List (BetSizing F)) (cap : F)
        → whole 0 ≤ cap
        → (total_exposure bets ≤? cap) ≡ false
        → (whole 0 ≤ cap / total_exposure bets) × (cap / total_exposure bets ≤ whole 1)
    factor_bounds bets cap hc e =
        let total = total_exposure bets in
        let over : cap < total = lt_of_not_le laws total cap e in
        let positive : whole 0 < total = lt_of_le_of_lt laws (whole 0) cap total hc over in
        (
          div_nonneg laws cap total positive hc,
          rw (← div_self total positive)
              (div_mono cap total total positive (le_of_not_le laws total cap e)),
        )

    -- The scaling of simultaneous bets keeps every bet in its place, and never makes one larger
    -- or negative, for a cap and sizes that are not negative.
    pub scale_simultaneous_bets-IsReduced :
        (bets : List (BetSizing F)) (cap : F)
        → whole 0 ≤ cap
        → All IsSized bets
        → All₂ IsReduced bets (scale_simultaneous_bets bets cap)
    unfolding scale_simultaneous_bets
    scale_simultaneous_bets-IsReduced bets cap hc h =
        elim (Bool-cases (total_exposure bets ≤? cap)) [
          | inl e ↦ rw e (IsReduced-refl bets h)
          | inr e ↦
              let (low, high) = factor_bounds bets cap hc e in
              rw e (rescale-IsReduced (cap / total_exposure bets) bets low high h)
        ]

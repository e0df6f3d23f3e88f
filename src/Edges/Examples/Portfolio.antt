-- ===== src/Edges/Examples/Portfolio.antt =====
-- Bet sizes and de-vigged markets at concrete prices.
use bookie_breaker_agent.Prelude.{◌≡◌, refl, [], ◌∷◌, List, All₂, ◌>>=◌, false}
use bookie_breaker_agent.Prelude.Int.{ℤ, pos, negsuc}
use bookie_breaker_agent.Float.{◌-◌, ◌≤◌, whole}
use bookie_breaker_agent.Float.Fixed.{Fixed, fixed_float}
use bookie_breaker_agent.Float.Fixed.Laws.{Fixed-IsFloat, Fixed-IsPower}
use bookie_breaker_agent.Edges.Odds.{american_to_decimal}
use bookie_breaker_agent.Edges.Kelly.Bounds.{kelly_fraction_bounds}
use bookie_breaker_agent.Edges.Kelly.{
  kelly_fraction, capped, full_kelly, BetSizing, scale_simultaneous_bets,
}
use bookie_breaker_agent.Edges.Kelly.Scaling.{IsReduced, scale_simultaneous_bets-IsReduced}
use bookie_breaker_agent.Edges.Devig.{
  multiplicative, shin, devig, devig_many, bisect, multiplicative_devig_n, validate_many, find_high,
  max_rounds, out_of_rounds,
}
use bookie_breaker_agent.Edges.Devig.Shares.{devig_many-IsLowered}
use bookie_breaker_agent.Edges.Devig.Two.{as_list, devig_many-eq-devig}
use bookie_breaker_agent.Edges.Devig.Root.{
  IsInside, bisect-IsInside, find_high-max_rounds-ne-out_of_rounds,
}

abbrev sized : ℤ → BetSizing Fixed
sized k = record { game_id = "game"; kelly = k; scaled = false; scale_factor = whole 1 }

-- Three bets of 0.04, 0.05 and 0.03 against an exposure of 0.06.
abbrev three_bets : List (BetSizing Fixed)
three_bets = sized (pos 40_000) ∷ sized (pos 50_000) ∷ sized (pos 30_000) ∷ []

scale_simultaneous_bets-IsReduced_example :
    All₂ IsReduced three_bets (scale_simultaneous_bets three_bets (pos 60_000))
scale_simultaneous_bets-IsReduced_example =
    scale_simultaneous_bets-IsReduced Fixed-IsFloat three_bets (pos 60_000) refl
      (refl, (refl, (refl, tt)))

kelly_fraction_bounds_example : (whole 0 ≤ pos 39_999) × (pos 39_999 ≤ pos 50_000)
unfolding kelly_fraction capped full_kelly american_to_decimal
kelly_fraction_bounds_example =
    kelly_fraction_bounds Fixed-IsFloat (pos 600_000) (negsuc 109) (pos 250_000) (pos 50_000)
      (pos 39_999) refl refl refl

-- Both sides at 0.525 become 0.5.
devig_many-IsLowered_example :
    (pos 500_000 ≤ pos 525_000) × ((pos 500_000 ≤ pos 525_000) × Unit {0})
unfolding devig_many multiplicative_devig_n validate_many
devig_many-IsLowered_example =
    devig_many-IsLowered Fixed-IsFloat Fixed-IsPower multiplicative (pos 525_000 ∷ pos 525_000 ∷ [])
      (pos 500_000 ∷ pos 500_000 ∷ []) refl

devig_many-eq-devig_example :
    devig_many shin (pos 525_000 ∷ pos 540_000 ∷ [])
    ≡ (devig shin (pos 525_000) (pos 540_000) >>= as_list)
devig_many-eq-devig_example =
    devig_many-eq-devig Fixed-IsFloat Fixed-IsPower shin (pos 525_000) (pos 540_000)

-- The line 1.5 - z on [1, 2].
abbrev falling_line : Fixed → Fixed
falling_line z = pos 1_500_000 - z

bisect-IsInside_example :
    IsInside falling_line (whole 1) (whole 2) (bisect 8 falling_line (pos 0) (whole 1) (whole 2))
bisect-IsInside_example =
    bisect-IsInside Fixed-IsFloat 8 falling_line (pos 0) (whole 1) (whole 2) (refl, refl, refl)

find_high-max_rounds-ne-out_of_rounds_example :
    ¬ (find_high max_rounds falling_line (whole 2) ≡ out_of_rounds)
find_high-max_rounds-ne-out_of_rounds_example =
    find_high-max_rounds-ne-out_of_rounds Fixed-IsFloat falling_line

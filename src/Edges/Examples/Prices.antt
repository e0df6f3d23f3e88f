-- ===== src/Edges/Examples/Prices.antt =====
-- Prices, values and reported edges: the odds -110, and odds that are too large for a float.
use bookie_breaker_agent.Prelude.{◌≡◌, refl, none, some, ok, raise, other, ◌^◌}
use bookie_breaker_agent.Prelude.Int.{ℤ, pos, negsuc}
use bookie_breaker_agent.Float.Fixed.{Fixed, fixed_float}
use bookie_breaker_agent.Edges.Odds.{american_to_implied_prob, overflows, american_to_decimal}
use bookie_breaker_agent.Edges.Ev.{calculate_ev, calculate_ev_pct}
use bookie_breaker_agent.Edges.Detect.{Edge, detect_edge, edge_of}

-- -110
abbrev favourite : ℤ
favourite = negsuc 109

-- A probability of 0.6 at -110, in the NFL.
abbrev reported : Edge Fixed
reported = edge_of (pos 600_000) (pos 523_809) favourite (pos 14_545_400) "NFL" "SPREAD" "HOME" none

detected : detect_edge (pos 600_000) favourite "NFL" "SPREAD" "HOME" none ≡ ok (some reported)
unfolding detect_edge calculate_ev_pct calculate_ev american_to_decimal american_to_implied_prob
detected = refl

too_large : american_to_decimal {F = Fixed} (pos (10 ^ 400)) ≡ raise (other "OverflowError")
unfolding american_to_decimal overflows
too_large = refl

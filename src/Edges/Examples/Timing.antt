-- ===== src/Edges/Examples/Timing.antt =====
-- Timing decisions, quality scores and stale lines at concrete edges.
use bookie_breaker_agent.Prelude.{◌≡◌, refl, false, ◌&&◌, upper}
use bookie_breaker_agent.Prelude.Int.{pos}
use bookie_breaker_agent.Float.{◌≤◌, ◌<◌, ◌≤?◌, whole}
use bookie_breaker_agent.Float.Fixed.{fixed_float}
use bookie_breaker_agent.Float.Fixed.Laws.{Fixed-IsFloat}
use bookie_breaker_agent.Edges.Decay.{should_bet_now, estimate_edge_remaining, expecting_new_info}
use bookie_breaker_agent.Edges.Decay.Timing.{should_bet_now-wait}
use bookie_breaker_agent.Edges.Quality.{edge_quality_score}
use bookie_breaker_agent.Edges.Quality.Order.{edge_quality_score_mono}

-- An edge of 9.0 of low quality, six hours before an NBA game.
should_bet_now-wait_example :
    (whole 3 < pos 6_000_000)
    × (pos 2_000_000
        ≤ estimate_edge_remaining (pos 9_000_000) (pos 6_000_000) (whole 0) "NBA" "TOTAL")
    × (((pos 5_000_000 ≤? pos 9_000_000) && (pos 700_000 ≤? pos 500_000)) ≡ false)
unfolding should_bet_now estimate_edge_remaining expecting_new_info upper
should_bet_now-wait_example =
    should_bet_now-wait Fixed-IsFloat (pos 9_000_000) (pos 500_000) (pos 6_000_000) "NBA" "TOTAL"
      refl

edge_quality_score_mono_example :
    edge_quality_score (pos 4_000_000) (pos 100_000) (pos 930_000) (pos 2_000_000) (pos 30_000)
    ≤ edge_quality_score (pos 6_000_000) (pos 50_000) (pos 750_000) (pos 1_000_000) (pos 20_000)
edge_quality_score_mono_example =
    edge_quality_score_mono Fixed-IsFloat (pos 4_000_000) (pos 6_000_000) (pos 100_000) (pos 50_000)
      (pos 930_000) (pos 750_000) (pos 2_000_000) (pos 1_000_000) (pos 30_000) (pos 20_000) refl
      refl refl refl refl

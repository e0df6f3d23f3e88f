-- ===== src/Edges/Examples.antt =====
-- Runs of edges/ at concrete prices, in the six-decimal arithmetic of `Float/Fixed.antt`.
mod Prices
mod Timing
mod Portfolio
mod Parlays

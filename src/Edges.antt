-- ===== src/Edges.antt =====
-- agent/edges: the pure betting mathematics, over any type of floats.
pub mod Odds
pub mod Ev
pub mod Kelly
pub mod Clv
pub mod Decay
pub mod Detect
pub mod Quality
pub mod Devig
pub mod Correlation
mod Examples

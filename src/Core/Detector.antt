-- ===== src/Core/Detector.antt =====
-- core/edge_detector.py: the edges of one game, from calibrated predictions and de-vigged prices.
pub mod Markets
pub mod Matching
pub mod Candidates
pub mod Detect

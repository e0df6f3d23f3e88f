-- ===== src/Core/Live.antt =====
-- core/live.py: the state of a game in progress, and the debouncer of its evaluations.
pub mod Debouncer
pub mod State

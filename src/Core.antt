-- ===== src/Core.antt =====
-- agent/core: what drives the betting mathematics.
pub mod Live
pub mod Scheduler
pub mod Props
pub mod Rerun
pub mod Detector
pub mod Bettor
pub mod Pipeline
pub mod Parlay
pub mod Scanner
pub mod DetectorExamples
mod BettorExamples
mod PipelineExamples
mod ParlayExamples
mod Examples
mod PropExamples
mod RerunExamples

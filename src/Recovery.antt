-- ===== src/Recovery.antt =====
-- src/agent/error_recovery.rs: the classification of failures and the guards that keep the agent
-- from repeating them. One module for each type with operations.
pub mod Failure
pub mod ContinueSite
pub mod Trials
pub mod Breaker
pub mod StuckGuard
pub mod LoopDetector
pub mod EditCycle

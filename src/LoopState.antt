-- ===== src/LoopState.antt =====
-- src/agent/agent_loop/state.rs: the detectors that the state of the loop holds.
pub mod TokenBudget
pub mod Stall

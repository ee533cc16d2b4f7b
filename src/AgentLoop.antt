-- ===== src/AgentLoop.antt =====
-- The loop of the agent: src/agent/middleware.rs and src/agent/agent_loop.
pub mod Middleware
pub mod Advisor
pub mod State
pub mod Inject
pub mod Critic
pub mod Outcome
pub mod Core
pub mod Answer
pub mod Dispatch
pub mod Step
mod Instances
mod Examples

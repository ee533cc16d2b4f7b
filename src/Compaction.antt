-- ===== src/Compaction.antt =====
-- src/agent/compaction.rs: the four levels that shrink a conversation to its token budget.
pub mod Config
pub mod Extract
pub mod Axes
pub mod Pruning
pub mod Levels

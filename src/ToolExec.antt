-- ===== src/ToolExec.antt =====
-- src/agent/tool_exec.rs, with what it uses of src/tools and src/safety.
pub mod Permission
pub mod Gate
pub mod Cache
pub mod Apply
pub mod Batch

-- ===== src/Core.antt =====
-- crates/taskfence-core/src/lib.rs: the shared domain types, and the orchestration of a task run.
pub mod Error
pub mod Task
pub mod Action
pub mod Event
pub mod Command
pub mod Budget
pub mod Blocking
pub mod Effect
pub mod Orchestrator
pub mod Validation

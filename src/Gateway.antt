-- ===== src/Gateway.antt =====
-- crates/taskfence-gateway/src/lib.rs: the mediation and the execution of tool calls.
pub mod Outcome
pub mod Normalize
pub mod Secrets
pub mod Egress
pub mod Mediator
pub mod Executor

-- ===== src/State.antt =====
-- crates/taskfence-state/src/lib.rs: team access control, the worker leases and the team task records.
pub mod Types
pub mod Validate
pub mod Access
pub mod Label
pub mod Leases
pub mod Service
pub mod Queue

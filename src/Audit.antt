-- ===== src/Audit.antt =====
-- crates/taskfence-audit/src/lib.rs: the audit logger and what it redacts.
pub mod Text
pub mod Value
pub mod Logger

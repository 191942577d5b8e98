-- ===== src/Policy.antt =====
-- crates/taskfence-policy/src/lib.rs: the built-in policy engine. The pattern compiler of the crate
-- `globset` is the parameter `glob`.
pub mod Matching
pub mod Candidates
pub mod Evaluate
pub mod Rules
pub mod Laws
pub mod Lookup
pub mod Closed

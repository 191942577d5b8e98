-- ===== src/Runner.antt =====
-- crates/taskfence-runner/src/lib.rs: the preparation of runs in Docker and over SSH, and the runners.
pub mod Capability
pub mod Gateway
pub mod Mounts
pub mod Docker
pub mod Ssh
pub mod Process
pub mod Runs
pub mod Fake

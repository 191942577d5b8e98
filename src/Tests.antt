-- ===== src/Tests.antt =====
-- Concrete tasks, worlds and rules, and the theorems applied to them.
mod Fixture
mod RunTests
mod PolicyTests
mod StateTests
mod ApprovalTests
mod GatewayTests
mod QueueTests
mod ValidationTests
mod ExternalTests
mod RunnerTests
mod AuditTests

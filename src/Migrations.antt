-- ===== src/Migrations.antt =====
-- The startup migrations (pkg/system/migrations/core).
pub mod State
pub mod Runner
pub mod Decisions
pub mod Queued
pub mod Constraints
pub mod Satisfied
mod Tests
pub mod ConstraintTests

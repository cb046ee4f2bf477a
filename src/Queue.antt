-- ===== src/Queue.antt =====
-- The job queue and the run loop of Dogeboxd (pkg/dogeboxd.go).
pub mod State
pub mod Dispatch
pub mod Orphans
pub mod Loop
pub mod Appends
pub mod Order
pub mod Reports
pub mod Tests

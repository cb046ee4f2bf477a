-- ===== src/Jobs/Restart.antt =====
-- What happens to system jobs when dogeboxd starts again (pkg/jobs.go).
pub mod Marking
pub mod Interrupted
pub mod Completing
pub mod Reconciled

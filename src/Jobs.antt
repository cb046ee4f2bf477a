-- ===== src/Jobs.antt =====
-- The job manager (pkg/jobs.go): job records, their cache of active jobs and their table.
pub mod Record
pub mod Display
pub mod Manager
pub mod Sweeps
pub mod Coherence
pub mod Swept
pub mod Effects
pub mod Restart
pub mod Ops
mod Tests

-- ===== src/Updater.antt =====
-- The system updater (pkg/system/updater.go and pkg/system/ssh.go).
pub mod Cases
pub mod Host
pub mod Install
pub mod Upgrade
pub mod View
pub mod Logic
pub mod Installed
pub mod Removed
pub mod Upgraded
pub mod RolledBack
pub mod Undone
pub mod Settings
pub mod Import
pub mod Toggled
pub mod Run
pub mod Answers
mod Tests
mod AnswersTests

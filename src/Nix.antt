-- ===== src/Nix.antt =====
-- The nix configuration of the host (pkg/system/nix).
pub mod Patch
pub mod Applied
mod Tests

-- ===== src/Pups.antt =====
-- Pups: their adoption, with the addresses and ports that they are given (pkg/pup).
pub mod Address
pub mod Ports
pub mod Adopt
pub mod Adopted
pub mod Health
pub mod Ready
pub mod Buffer
pub mod State
pub mod Manager
mod Status
mod Tests
mod HealthTests
mod BufferTests

-- ===== src/Web.antt =====
-- The web server (pkg/web).
pub mod Session

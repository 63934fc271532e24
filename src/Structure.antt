-- ===== src/Structure.antt =====
-- configuration.service.ts.
pub mod Service
pub mod Restart

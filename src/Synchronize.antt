-- ===== src/Synchronize.antt =====
-- synchronize.service.ts.
pub mod Devices
pub mod Slaves
mod Tests

-- ===== src/Sensors.antt =====
-- sensor.service.ts and value.repository.ts.
pub mod Service
pub mod Jobs
pub mod Com
mod Tests

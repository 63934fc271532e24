-- ===== src/Schedules.antt =====
-- services/schedule.service.ts: `ScheduleService`, over the registry of cron jobs of
-- `@nestjs/schedule`.
pub mod Defs
pub mod Service
pub mod Registry
pub mod Pausing
pub mod Tracking
mod Tests

-- ===== src/Startup.antt =====
-- init.service.ts, authentication.service.ts, global-settings.service.ts and sun-event.util.ts.
pub mod Sun
pub mod Order

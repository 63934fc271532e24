-- ===== src/Strategies.antt =====
-- device-strategies/inverter-device.strategy.ts and modbus-slave.strategy.ts.
pub mod Defs
pub mod Once
mod Tests

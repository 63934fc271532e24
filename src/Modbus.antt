-- ===== src/Modbus.antt =====
-- services/modbus.service.ts: `ModbusService`, the access to the shared bus.
pub mod Registers
pub mod Params
pub mod Monitors
pub mod Queue
pub mod Requests
pub mod Inverter
pub mod Readings
mod Tests

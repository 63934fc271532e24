-- ===== src/Bluetooth.antt =====
-- services/ble.service.ts: the networks that are read and the settings that are written over Bluetooth.
pub mod Defs
pub mod Entries
pub mod Networks
pub mod Writes
mod Tests

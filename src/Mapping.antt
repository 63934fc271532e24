-- ===== src/Mapping.antt =====
-- infrastructure/dto/synchronize.dto.ts and infrastructure/schemas/mappers: from a payload to the model that
-- is synchronized, from a model to the fields that are saved, and back.
pub mod Json
pub mod Types
pub mod Conditions
pub mod Requests
pub mod Sequences
pub mod SequenceDocuments
pub mod Schedules
pub mod ScheduleDocuments
pub mod Cycles
pub mod Sensors
pub mod Actuators
pub mod ActuatorDocuments
pub mod Devices
pub mod Kept
pub mod Saved
pub mod Equipment
pub mod Copies
pub mod Configs
pub mod Refused
mod Samples
mod Tests

-- ===== src/Engine/Quiet.antt =====
-- What a stop of execution.service.ts may do to the state.
pub mod Defs
pub mod Updates
pub mod Stops
pub mod Calls

-- ===== src/Actuators.antt =====
-- actuator-strategies/ctrl-actuator.strategy.ts and com-actuator.strategy.ts, and the overrides of requests.
pub mod Override
pub mod Valve
pub mod Bounds
pub mod Meter
pub mod Switches
mod Tests

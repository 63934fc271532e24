-- ===== src/Triggers.antt =====
-- trigger.service.ts, with the models and the mapper that it uses.
pub mod Defs
pub mod Service
pub mod Steps
pub mod Objects
pub mod Spent
pub mod Checks
pub mod Exclusive
pub mod Firing
mod Tests

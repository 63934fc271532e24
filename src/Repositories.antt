-- ===== src/Repositories.antt =====
-- infrastructure/repositories/*.ts: the documents of the database.
pub mod Collection
pub mod Sync
pub mod Within
pub mod Replace
pub mod Strict
pub mod Slots
pub mod Refines
mod Tests

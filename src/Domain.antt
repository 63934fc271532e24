-- ===== src/Domain.antt =====
-- The domain models: src/modules/process/domain/models and domain/interfaces.
mod Types
pub mod Cycle
pub use Types.*
unfoldable pub use Types.{get_actuator_ids}

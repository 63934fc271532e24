-- ===== src/Conditions.antt =====
-- condition.model.ts and evaluate-conditions.util.ts.
pub mod Defs
pub mod Order
mod Tests

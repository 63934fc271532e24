-- ===== src/Engine.antt =====
-- services/execution.service.ts: `ProcessService`, which starts, stops and orchestrates cycles.
pub mod State
pub mod Progress
pub mod Conflicts
pub mod Outcome
pub mod Awaits
pub mod Calls
pub mod Force
pub mod Runs
pub mod Modes
pub mod Execute
pub mod GroupStarts
pub mod Entry
pub mod Steps
pub mod Quiet
pub mod Stopping
pub mod Settling
pub mod GroupStops
pub mod Ending
pub mod Starting
pub mod Superseded
pub mod Conflicting
pub mod Precedence
mod Tests

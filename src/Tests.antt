-- ===== src/Tests.antt =====
-- Concrete runs of the definitions, and the theorems at concrete inputs.
pub mod World
pub mod Flow
pub mod Tasks
pub mod Tries
pub mod Runs
pub mod Services
pub mod Durations
pub mod Expressions
pub mod Schedules

-- ===== src/Engine/Tasks.antt =====
-- The task implementations: crates/ows-runtime/src/tasks.rs
pub mod Simple
pub mod Delay
pub mod For
pub mod Fork
pub mod Try
pub mod Dispatch

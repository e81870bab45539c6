-- ===== src/Engine.antt =====
-- crates/ows-runtime: the compiled workflow and the engine that runs it
pub mod Ir
pub mod State
pub mod Runtime
pub mod Eval
pub mod Scope
pub mod Tasks
pub mod Task
pub mod Run
pub mod Keeps
pub mod Frame

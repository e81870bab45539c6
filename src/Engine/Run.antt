-- ===== src/Engine/Run.antt =====
-- A whole execution: `execute_with` of crates/ows-runtime/src/engine.rs with its persistence, and
-- `resume` of crates/ows-runtime/src/runtime.rs.
pub mod Persist
pub mod Execute
pub mod Resume
pub mod Conclusion
pub mod Recovery

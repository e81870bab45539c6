-- ===== src/Core.antt =====
-- crates/ows-runtime-core
pub mod Phase
pub mod Error
pub mod Text
pub mod Policy
pub mod Store

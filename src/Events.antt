-- ===== src/Events.antt =====
-- crates/ows-runtime-events/src/lib.rs
pub mod CloudEvent
pub mod Matcher
pub mod Broker
pub mod Delivery

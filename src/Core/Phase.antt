-- ===== src/Core/Phase.antt =====
-- crates/ows-runtime-core/src/phase.rs
use ows_runtime_rust.Prelude.{String, Bool, true, false}

pub data Phase : Type 0 where
  pending running waiting suspended cancelled faulted completed : Phase

unfoldable pub is_terminal : Phase → Bool
is_terminal cancelled = true
is_terminal faulted = true
is_terminal completed = true
is_terminal _ = false

-- the `Display` of a phase
unfoldable pub show_phase : Phase → String
show_phase pending = "pending"
show_phase running = "running"
show_phase waiting = "waiting"
show_phase suspended = "suspended"
show_phase cancelled = "cancelled"
show_phase faulted = "faulted"
show_phase completed = "completed"

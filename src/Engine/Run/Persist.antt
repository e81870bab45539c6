-- ===== src/Engine/Run/Persist.antt =====
-- The records and events that an execution leaves in the store: `persist_started` and
-- `persist_terminal` of crates/ows-runtime/src/engine.rs. A failing store is only logged.
use ows_runtime_rust.Prelude.{ℕ, String, Option, none, some}
use ows_runtime_rust.Json.{Value, null, number, object, end, insert}
use ows_runtime_rust.Core.Phase.{Phase, running, cancelled, faulted, completed}
use ows_runtime_rust.Core.Store.{ExecutionRecord, StoredEvent}
use ows_runtime_rust.Core.Error.{WorkflowError, ErrorKind, to_problem_json}
use ows_runtime_rust.Engine.Ir.{CompiledWorkflow}
use ows_runtime_rust.Engine.State.{Execution, Exec, pure, observe, ◌>>=◌}
use ows_runtime_rust.Engine.Runtime.{Runtime}
use ows_runtime_rust.Engine.Eval.{context_value_sync}
use ows_runtime_rust.Engine.Scope.{pointer_of, workflow_key}

-- `Cancelled` for a cancellation, else `Faulted`
unfoldable pub phase_of_kind : ErrorKind → Phase
phase_of_kind ErrorKind.cancelled = cancelled
phase_of_kind _ = faulted

unfoldable pub terminal_event_type : Phase → String
terminal_event_type completed = "workflow.completed"
terminal_event_type cancelled = "workflow.cancelled"
terminal_event_type _ = "workflow.faulted"

module _ {N W : Type 0} (rt : Runtime N W) (wf : CompiledWorkflow N) (ex : Execution N) where
  unfoldable pub execution_record :
      Value N → Value N → Phase → Option (Value N) → ℕ → ExecutionRecord N
  unfolding workflow_key
  execution_record context pointer phase error started_at = record {
    execution_id = ex.execution_id;
    workflow = workflow_key wf;
    namespace = wf.namespace;
    name = wf.name;
    version = wf.version;
    phase = phase;
    context = context;
    pointer = pointer;
    error = error;
    started_at = started_at;
  }

  abbrev event_of : ℕ → String → Value N → ℕ → StoredEvent N
  event_of sequence event_type payload timestamp = record {
    execution_id = ex.execution_id;
    sequence = sequence;
    event_type = event_type;
    payload = payload;
    timestamp = timestamp;
  }

  -- `{ key: seconds }`
  abbrev time_payload : String → ℕ → Value N
  time_payload key seconds = object (insert key (number (rt.number_of seconds)) end)

  unfoldable pub persist_started : ℕ → Exec N W (Unit {0})
  unfolding execution_record pointer_of context_value_sync observe pure ◌>>=◌
  persist_started started_at = do
    context ← context_value_sync rt
    input ← context_value_sync rt
    created ← observe (
        rt.store_create
          (execution_record context (pointer_of rt wf ex 0 input) running none started_at))
    appended ← observe (
        rt.store_append_event
          (event_of 1 "workflow.started" (time_payload "startedAt" started_at) started_at))
    pure tt

  abbrev pub error_value : Option (WorkflowError N) → Option (Value N)
  error_value none = none
  error_value (some e) = some (to_problem_json rt.number_of e)

  abbrev terminal_payload : Option (WorkflowError N) → ℕ → Value N
  terminal_payload none timestamp = time_payload "completedAt" timestamp
  terminal_payload (some e) timestamp = to_problem_json rt.number_of e

  unfoldable pub persist_terminal : Phase → Option (WorkflowError N) → ℕ → Exec N W (Unit {0})
  unfolding execution_record terminal_event_type context_value_sync observe pure ◌>>=◌
  persist_terminal phase error started_at = do
    context ← context_value_sync rt
    updated ←
        observe
          (rt.store_update (execution_record context null phase (error_value error) started_at))
    timestamp ← observe rt.epoch_seconds
    appended ← observe (
        rt.store_append_event
          (event_of 2 (terminal_event_type phase) (terminal_payload error timestamp) timestamp))
    pure tt

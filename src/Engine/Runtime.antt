-- ===== src/Engine/Runtime.antt =====
-- What the engine takes from elsewhere: numbers, the expression engine, the schema validator, the
-- clock, the cancellation token, tokio's timers and task sets, and the adapters of the tasks that
-- talk to the outside. Each is a field, so that a theorem holds for every such environment.
use ows_runtime_rust.Prelude.{ℕ, String, Bool, Option, List, Result}
use ows_runtime_rust.Json.{Value, Fields}
use ows_runtime_rust.Core.Error.{WorkflowError}
use ows_runtime_rust.Core.Store.{ExecutionRecord, StoredEvent}
use ows_runtime_rust.Engine.Ir.{CompiledTask, Tasks}
use ows_runtime_rust.Engine.State.{State, Outcome, Exec, TaskExec}

-- what `JoinSet::join_next` yields for a branch: its index and result, or a panic
pub data Joined (N : Type 0) : Type 0 where
  joined : ℕ → Outcome N (Value N) → Joined N
  panicked : String → Joined N

pub record Runtime (N W : Type 0) : Type 0 where
  -- `policy.max_loop_iterations`
  pub max_loop_iterations : ℕ
  -- `json!(n)` of an unsigned integer
  pub number_of : ℕ → N
  -- `x.as_f64() == y.as_f64()`
  pub number_eq : N → N → Bool
  -- `as_u64` of a number
  pub as_u64 : N → Option ℕ
  -- the text of a value in an error message
  pub display : Value N → String
  -- `compiled_expression` and then `evaluate`; an error is its text
  pub evaluate : String → Value N → Fields N → Result String (Value N)
  pub evaluate_interpolation : String → Value N → Fields N → Result String (Value N)
  -- the errors of a value against a schema document, if any
  pub validate : Value N → Value N → Option (List String)
  -- whether `try_lock` on the context succeeds now
  pub lock_is_free : W → Bool × W
  pub is_cancelled : W → Bool × W
  -- a new cancellation token takes the place of the old one
  pub new_token : W → W
  -- the clock's sleep raced with the cancellation: whether the cancellation came first
  pub sleep_or_cancel : ℕ → W → Bool × W
  -- `(millis as f64 * random.next_f64()) as u64`
  pub scale_random : ℕ → W → ℕ × W
  pub epoch_seconds : W → ℕ × W
  pub new_uuid : W → String × W
  -- `SecretResolver::resolve`
  pub resolve_secret : String → Option String
  -- the lifecycle events, published with the execution id and the time; failures are ignored
  pub publish_started : String → ℕ → W → W
  pub publish_completed : String → ℕ → W → W
  -- the execution store; an `err` of the writes is only logged
  pub store_create : ExecutionRecord N → W → Result (WorkflowError N) (Unit {0}) × W
  pub store_update : ExecutionRecord N → W → Result (WorkflowError N) (Unit {0}) × W
  pub store_append_event : StoredEvent N → W → Result (WorkflowError N) (Unit {0}) × W
  pub store_load : String → W → Result (WorkflowError N) (Option (ExecutionRecord N)) × W
  -- `tokio::time::timeout` around a task; `none` when it elapsed, whatever the task had done
  pub with_timeout :
      ℕ → Exec N W (TaskExec N) → State N W → Option (Outcome N (TaskExec N)) × State N W
  -- all branches of a task set, in the order in which they finish
  pub join_all : List (Exec N W (Value N)) → State N W → List (Joined N) × State N W
  -- the first branch to finish; the others are shut down
  pub join_first : List (Exec N W (Value N)) → State N W → Option (Joined N) × State N W
  -- the bodies of `emit`, `listen`, `call` and `run`, which may run scopes of their own
  pub perform :
      CompiledTask N
      → Fields N
      → (Tasks N → Value N → Exec N W (Value N))
      → Value N
      → Exec N W (Value N)

-- ===== src/Engine/Run/Resume.antt =====
-- `Runtime::resume` of crates/ows-runtime/src/runtime.rs: an execution goes on from its checkpoint.
use ows_runtime_rust.Prelude.{
  ℕ, String, Option, none, some, List, [], ◌∷◌, Result, ok, err, unwrap_or, str_eq, ◌<>◌,
  if◌then◌else◌,
}
use ows_runtime_rust.Json.{Value, null, number, object, get}
use ows_runtime_rust.Core.Phase.{Phase, is_terminal, show_phase}
use ows_runtime_rust.Core.Store.{ExecutionRecord}
use ows_runtime_rust.Core.Error.{WorkflowError, runtime_error}
use ows_runtime_rust.Engine.Ir.{CompiledWorkflow}
use ows_runtime_rust.Engine.State.{State, Outcome, fail}
use ows_runtime_rust.Engine.Runtime.{Runtime}
use ows_runtime_rust.Engine.Run.Execute.{ResumeState, execute_with, fresh_state}

module _ {N W : Type 0} (rt : Runtime N W) where
  -- `value.get(key)`
  abbrev member : String → Value N → Option (Value N)
  member key (object m) = get key m
  member key _ = none

  abbrev as_u64 : Option (Value N) → Option ℕ
  as_u64 (some (number n)) = rt.as_u64 n
  as_u64 _ = none

  unfoldable pub resume_state : ExecutionRecord N → ResumeState N
  resume_state r = record {
    next_index = unwrap_or (as_u64 (member "next" r.pointer)) 0;
    input = unwrap_or (member "input" r.pointer) r.context;
    context = r.context;
  }

  unfoldable pub find_workflow :
      String → List (String × CompiledWorkflow N) → Option (CompiledWorkflow N)
  find_workflow key [] = none
  find_workflow key ((k, wf) ∷ rest) = if str_eq k key then some wf else find_workflow key rest

  unfoldable pub unknown_execution : String → WorkflowError N
  unfolding runtime_error
  unknown_execution id = runtime_error ("unknown execution `" <> id <> "`")

  unfoldable pub not_resumable : String → Phase → WorkflowError N
  unfolding runtime_error show_phase
  not_resumable id phase =
      runtime_error
        ("execution `" <> id <> "` is already " <> show_phase phase <> " and cannot be resumed")

  unfoldable pub not_registered : String → WorkflowError N
  unfolding runtime_error
  not_registered key =
      runtime_error ("workflow `" <> key <> "` is not registered; register it before resuming")

  module _ (registry : List (String × CompiledWorkflow N)) (runtime_info : Value N) (fuel : ℕ)
      (task_order : List String) where
    abbrev stop : WorkflowError N → W → Outcome N (Value N) × State N W
    stop e w = (fail e, fresh_state task_order w)

    unfoldable pub resume_found :
        ExecutionRecord N → Option (CompiledWorkflow N) → W → Outcome N (Value N) × State N W
    unfolding execute_with not_registered resume_state
    resume_found r none w = stop (not_registered r.workflow) w
    resume_found r (some wf) w =
        execute_with rt wf fuel runtime_info null
          (record { execution_id = some r.execution_id; resume = some (resume_state r) }) task_order
          (rt.new_token w)

    unfoldable pub resume_record : String → ExecutionRecord N → W → Outcome N (Value N) × State N W
    unfolding resume_found not_resumable find_workflow is_terminal
    resume_record id r w =
        if is_terminal r.phase
        then stop (not_resumable id r.phase) w
        else resume_found r (find_workflow r.workflow registry) w

    unfoldable pub resume_loaded :
        String
        → Result (WorkflowError N) (Option (ExecutionRecord N))
        → W
        → Outcome N (Value N) × State N W
    unfolding resume_record unknown_execution
    resume_loaded id (err e) w = stop e w
    resume_loaded id (ok none) w = stop (unknown_execution id) w
    resume_loaded id (ok (some r)) w = resume_record id r w

    unfoldable pub resume : String → W → Outcome N (Value N) × State N W
    unfolding resume_loaded
    resume id w = let (loaded, w') = rt.store_load id w in resume_loaded id loaded w'

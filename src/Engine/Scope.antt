-- ===== src/Engine/Scope.antt =====
-- Flow directives and `exec_scope` of crates/ows-runtime/src/engine.rs. The loop takes fuel: a
-- `goto` may run forever. A task is run by the argument `run_task`.
pub mod Halting
pub mod Rounds
use ows_runtime_rust.Prelude.{
  ℕ, zero, suc, ◌+◌, String, Bool, true, false, Option, none, some, List, [], ◌∷◌, get_elem?,
  unwrap_or, or_else, str_eq, if◌then◌else◌, ◌<>◌,
}
use ows_runtime_rust.Json.{Value, number, object, end, insert}
use ows_runtime_rust.Core.Phase.{running}
use ows_runtime_rust.Core.Store.{ExecutionRecord}
use ows_runtime_rust.Core.Error.{
  WorkflowError, semantic_error, cancelled_error, timeout_error, with_execution,
}
use ows_runtime_rust.Engine.Ir.{CompiledTask, head, TaskHead, CompiledWorkflow}
use ows_runtime_rust.Engine.State.{
  FlowDirective, continue, exit, goto, TaskExec, Execution, Outcome, Exec, pure, throw, diverge,
  gets, modify, observe, ◌>>=◌, ◌>>◌,
}
use ows_runtime_rust.Engine.Runtime.{Runtime}
use ows_runtime_rust.Engine.Eval.{context_value_sync}

unfoldable pub parse_directive : String → FlowDirective
parse_directive s =
    if str_eq s "continue"
    then continue
    else if str_eq s "exit"
    then exit
    else if str_eq s "end"
    then FlowDirective.end
    else goto s

abbrev parse_then : Option String → Option FlowDirective
parse_then none = none
parse_then (some s) = some (parse_directive s)

-- The task's own directive, else its `then`, else `continue`.
unfoldable pub final_directive : Option FlowDirective → Option String → FlowDirective
unfolding parse_directive
final_directive own then_ = unwrap_or (or_else own (parse_then then_)) continue

module _ {N : Type 0} where
  -- `tasks.iter().position(|t| t.name == name)`, counted from `i`
  unfoldable pub position_from : ℕ → String → List (CompiledTask N) → Option ℕ
  position_from i name [] = none
  position_from i name (t ∷ ts) =
      if str_eq (head t).name name then some i else position_from (i + 1) name ts

  unfoldable pub cancelled_in : Execution N → WorkflowError N
  unfolding cancelled_error with_execution
  cancelled_in ex = with_execution cancelled_error ex.execution_id

  unfoldable pub unknown_target : Execution N → String → WorkflowError N
  unfolding semantic_error with_execution
  unknown_target ex name =
      with_execution
        (semantic_error ("flow directive targets unknown task `" <> name <> "` in scope"))
        ex.execution_id

  unfoldable pub elapsed_in : Execution N → TaskHead N → WorkflowError N
  unfolding timeout_error with_execution
  elapsed_in ex t = with_execution (timeout_error (some t.reference)) ex.execution_id

  unfoldable pub workflow_key : CompiledWorkflow N → String
  workflow_key wf = wf.namespace <> "/" <> wf.name <> "/" <> wf.version

pub record ScopeCheckpoint : Type 0 where
  pub start_index : ℕ
  pub started_at : ℕ

abbrev pub start_of : Option ScopeCheckpoint → ℕ
start_of none = 0
start_of (some cp) = cp.start_index

module _ {N W : Type 0} (rt : Runtime N W) (wf : CompiledWorkflow N) (ex : Execution N) where
  -- `json!({ "next": next_index, "input": input })`
  unfoldable pub pointer_of : ℕ → Value N → Value N
  pointer_of next_index input =
      object (insert "next" (number (rt.number_of next_index)) (insert "input" input end))

  unfoldable pub checkpoint_record : ℕ → ℕ → Value N → Value N → ExecutionRecord N
  unfolding pointer_of workflow_key
  checkpoint_record started_at next_index input context = record {
    execution_id = ex.execution_id;
    workflow = workflow_key wf;
    namespace = wf.namespace;
    name = wf.name;
    version = wf.version;
    phase = running;
    context = context;
    pointer = pointer_of next_index input;
    error = none;
    started_at = started_at;
  }

  -- A failing store is only logged.
  unfoldable pub persist_checkpoint : ℕ → ℕ → Value N → Exec N W (Unit {0})
  unfolding checkpoint_record context_value_sync observe pure ◌>>=◌
  persist_checkpoint started_at next_index input = do
    context ← context_value_sync rt
    result ← observe (rt.store_update (checkpoint_record started_at next_index input context))
    pure tt

  unfoldable pub save_progress : Option ScopeCheckpoint → ℕ → Value N → Exec N W (Unit {0})
  unfolding persist_checkpoint pure
  save_progress none index input = pure tt
  save_progress (some cp) index input = persist_checkpoint cp.started_at index input

  -- the task's timeout, or else the workflow's, around the task
  unfoldable pub finish_timed : TaskHead N → Option (Outcome N (TaskExec N)) → Exec N W (TaskExec N)
  unfolding elapsed_in throw
  finish_timed t none s = throw (elapsed_in ex t) s
  finish_timed t (some outcome) s = (outcome, s)

  unfoldable pub timed : TaskHead N → Option ℕ → Exec N W (TaskExec N) → Exec N W (TaskExec N)
  unfolding finish_timed
  timed t none m s = m s
  timed t (some duration) m s = let (r, s') = rt.with_timeout duration m s in finish_timed t r s'

  module _ (tasks : List (CompiledTask N)) (cp : Option ScopeCheckpoint) where
    -- the next round of the loop, after the progress is saved
    unfoldable pub proceed : (ℕ → Value N → Exec N W (Value N)) → ℕ → Value N → Exec N W (Value N)
    unfolding save_progress ◌>>=◌
    proceed loop index input = do save_progress cp index input; loop index input

    unfoldable pub jump :
        (ℕ → Value N → Exec N W (Value N)) → String → Option ℕ → Value N → Exec N W (Value N)
    unfolding proceed unknown_target throw
    jump loop name (some index) input = proceed loop index input
    jump loop name none input = throw (unknown_target ex name)

    unfoldable pub follow :
        (ℕ → Value N → Exec N W (Value N)) → ℕ → Value N → FlowDirective → Exec N W (Value N)
    unfolding proceed jump position_from pure modify ◌>>=◌
    follow loop index input continue = proceed loop (index + 1) input
    follow loop index input (goto name) = jump loop name (position_from 0 name tasks) input
    follow loop index input exit = do modify (λ s. record s { scope_exited = true }); pure input
    follow loop index input FlowDirective.end = do
      modify (λ s. record s { ended = true })
      pure input

    module _ (run_task : CompiledTask N → Value N → Exec N W (TaskExec N)) where
      unfoldable pub run_at :
          (ℕ → Value N → Exec N W (Value N))
          → ℕ
          → Value N
          → Option (CompiledTask N)
          → Exec N W (Value N)
      unfolding timed final_directive follow pure ◌>>=◌
      run_at loop index input none = pure input
      run_at loop index input (some t) = do
        exec ← timed (head t) (or_else (head t).timeout ex.timeout) (run_task t input)
        follow loop index exec.output (final_directive exec.directive (head t).then_)

      unfoldable pub unless_ended :
          (ℕ → Value N → Exec N W (Value N)) → ℕ → Value N → Bool → Exec N W (Value N)
      unfolding run_at pure
      unless_ended loop index input true = pure input
      unless_ended loop index input false = run_at loop index input (get_elem? tasks index)

      unfoldable pub unless_cancelled :
          (ℕ → Value N → Exec N W (Value N)) → ℕ → Value N → Bool → Exec N W (Value N)
      unfolding unless_ended cancelled_in throw gets ◌>>=◌
      unless_cancelled loop index input true = throw (cancelled_in ex)
      unless_cancelled loop index input false = do
        ended ← gets (λ s. s.ended)
        unless_ended loop index input ended

      -- one round of the loop
      unfoldable pub scope_round :
          (ℕ → Value N → Exec N W (Value N)) → ℕ → Value N → Exec N W (Value N)
      unfolding unless_cancelled observe ◌>>=◌
      scope_round loop index input = do
        cancelled ← observe rt.is_cancelled
        unless_cancelled loop index input cancelled

      unfoldable pub scope_loop : ℕ → ℕ → Value N → Exec N W (Value N)
      unfolding scope_round diverge
      scope_loop zero index input = diverge
      scope_loop (suc fuel) index input = scope_round (scope_loop fuel) index input

      unfoldable pub exec_scope : ℕ → Value N → Exec N W (Value N)
      unfolding scope_loop
      exec_scope fuel input = scope_loop fuel (start_of cp) input

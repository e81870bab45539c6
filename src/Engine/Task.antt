-- ===== src/Engine/Task.antt =====
-- `exec_task` of crates/ows-runtime/src/engine.rs: the data-flow pipeline around a task's body, with
-- the workflow's extensions.
use ows_runtime_rust.Prelude.{
  ℕ, String, Bool, true, false, Option, none, some, List, [], ◌∷◌, str_eq, if◌then◌else◌, push,
}
use ows_runtime_rust.Json.{Value, null, Fields}
use ows_runtime_rust.Engine.Ir.{
  CompiledTask, head, kind, TaskHead, Tasks, no_tasks, more, CompiledTaskKind, CompiledExtension,
  CompiledWorkflow, type_name,
}
use ows_runtime_rust.Engine.State.{
  State, Execution, TaskExec, Exec, continue_with, pure, lift, gets, modify, ◌>>=◌, ◌>>◌,
}
use ows_runtime_rust.Engine.Runtime.{Runtime}
use ows_runtime_rust.Engine.Eval.{
  ExpressionContext, as_variable_map_updated, is_truthy, eval_expr, validate_schema, eval_in,
  transform_in,
}
use ows_runtime_rust.Engine.Tasks.Dispatch.{Dispatched, dispatch}

module _ {N : Type 0} where
  abbrev called_function : CompiledTaskKind N → String → Bool
  called_function (CompiledTaskKind.call def) extend = str_eq extend def.call
  called_function _ extend = false

  unfoldable pub extension_targets : CompiledExtension N → CompiledTask N → Bool
  unfolding type_name
  extension_targets ext t =
      if str_eq ext.extend (type_name (kind t)) then true else called_function (kind t) ext.extend

  -- the variables after the body: the input and output of the stage
  abbrev pub stage_vars : ExpressionContext N → Value N → Value N → Fields N
  stage_vars = as_variable_map_updated

module _ {N W : Type 0} (rt : Runtime N W) (wf : CompiledWorkflow N) (ex : Execution N) where
  unfoldable pub record_task : String → State N W → State N W
  record_task name s = record s { task_order = push s.task_order name }

  -- an `if` or `when` guard over the task's input
  unfoldable pub guard_holds : TaskHead N → Option String → Value N → Exec N W Bool
  unfolding eval_in pure ◌>>=◌
  guard_holds t none input = pure true
  guard_holds t (some cond) input = do v ← eval_in rt ex (some t) cond input; pure (is_truthy v)

  -- the extensions that target the task and whose guard holds, from a list of them
  unfoldable pub select_extensions :
      List (CompiledExtension N) → CompiledTask N → Value N → Exec N W (List (CompiledExtension N))
  unfolding guard_holds pure ◌>>=◌
  select_extensions [] t input = pure []
  select_extensions (ext ∷ exts) t input =
      if extension_targets ext t
      then (do
        holds ← guard_holds (head t) ext.when input
        rest ← select_extensions exts t input
        pure (if holds then ext ∷ rest else rest))
      else select_extensions exts t input

  unfoldable pub applicable_extensions :
      CompiledTask N → Value N → Exec N W (List (CompiledExtension N))
  unfolding select_extensions gets pure ◌>>=◌
  applicable_extensions t input = do
    enabled ← gets (λ s. s.apply_extensions)
    if enabled then select_extensions wf.extensions t input else pure []

  -- The stage after the body: an optional expression over the value.
  unfoldable pub transform_stage :
      TaskHead N → Option String → Value N → Fields N → Exec N W (Value N)
  unfolding lift pure
  transform_stage t none v vars = pure v
  transform_stage t (some src) v vars = lift (eval_expr rt src v vars (some t))

  unfoldable pub export_context :
      TaskHead N → Option String → Value N → Fields N → Exec N W (Value N)
  unfolding lift gets
  export_context t none v vars = gets (λ s. s.context)
  export_context t (some src) v vars = lift (eval_expr rt src v vars (some t))

  module _ (fuel : ℕ) (run_task : CompiledTask N → Value N → Exec N W (TaskExec N))
      (run_scope : Tasks N → Value N → Exec N W (Value N)) where
    -- A scope with extensions disabled; the result tells whether it ended by `exit`. The flags are
    -- put back on every outcome.
    unfoldable pub run_extension_scope : Tasks N → Value N → Exec N W (Value N × Bool)
    unfolding pure
    run_extension_scope no_tasks input s = pure (input, false) s
    run_extension_scope (more t ts) input s =
        let (o, s') =
          run_scope (more t ts) input
            (record s { apply_extensions = false; scope_exited = false }) in
        continue_with (λ v. pure (v, s'.scope_exited)) o
          (record s' { apply_extensions = s.apply_extensions; scope_exited = false })

    -- the `before` scopes in order, up to one that exits
    unfoldable pub run_before : List (CompiledExtension N) → Value N → Exec N W (Value N × Bool)
    unfolding run_extension_scope pure ◌>>=◌
    run_before [] v = pure (v, false)
    run_before (ext ∷ exts) v = do
      outcome ← run_extension_scope ext.before v
      if outcome.1 then pure (outcome.0, true) else run_before exts outcome.0

    unfoldable pub run_after : List (CompiledExtension N) → Value N → Exec N W (Value N)
    unfolding run_extension_scope pure ◌>>=◌
    run_after [] v = pure v
    run_after (ext ∷ exts) v = do
      outcome ← run_extension_scope ext.after v
      run_after exts outcome.0

    -- the body, or the input as it left the extensions when one of them exited
    unfoldable pub run_body :
        CompiledTask N → Bool → Value N → ExpressionContext N → Exec N W (Dispatched N)
    unfolding dispatch pure
    run_body t true input c = pure (input, none)
    run_body t false input c = dispatch rt wf ex fuel run_task run_scope t input c

    -- the context of the task's expressions, as it stands before the body
    unfoldable pub context_of : TaskHead N → Value N → State N W → ExpressionContext N
    context_of t input s = record {
      context = s.context;
      input = input;
      output = null;
      secrets = ex.secrets;
      authorization = none;
      task = some t.descriptor;
      workflow = some ex.workflow_descriptor;
      runtime = some ex.runtime_descriptor;
      extra_vars = s.loop_vars;
    }

    -- steps 5 to 8: the output, the `after` scopes, the exported context
    unfoldable pub finish_task :
        CompiledTask N
        → List (CompiledExtension N)
        → ExpressionContext N
        → Value N
        → Dispatched N
        → Exec N W (TaskExec N)
    unfolding transform_stage run_after export_context lift modify pure ◌>>=◌
    finish_task t exts c task_input dispatched = do
      transformed ←
          transform_stage (head t) (head t).output.transform dispatched.0
            (stage_vars c task_input dispatched.0)
      output ← run_after exts transformed
      lift (validate_schema rt (head t).output.schema output (head t).reference)
      context ←
          export_context (head t) (head t).export.transform output (stage_vars c task_input output)
      lift (validate_schema rt (head t).export.schema context (head t).reference)
      modify (λ s. record s { context = context })
      pure (record { output = output; directive = dispatched.1 })

    -- steps 2 to 8
    unfoldable pub run_pipeline : CompiledTask N → Value N → Exec N W (TaskExec N)
    unfolding transform_in applicable_extensions run_before context_of run_body finish_task lift
        gets ◌>>=◌
    run_pipeline t raw_input = do
      lift (validate_schema rt (head t).input.schema raw_input (head t).reference)
      transformed ← transform_in rt ex (some (head t)) (head t).input.transform raw_input
      exts ← applicable_extensions t raw_input
      before ← run_before exts transformed
      c ← gets (context_of (head t) before.0)
      dispatched ← run_body t before.1 before.0 c
      finish_task t exts c before.0 dispatched

    unfoldable pub exec_task : CompiledTask N → Value N → Exec N W (TaskExec N)
    unfolding record_task guard_holds run_pipeline modify pure ◌>>=◌
    exec_task t raw_input = do
      modify (record_task (head t).name)
      holds ← guard_holds (head t) (head t).if_ raw_input
      if holds
          then run_pipeline t raw_input
          else pure (record { output = raw_input; directive = none })

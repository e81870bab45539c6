-- ===== src/Engine/Keeps/Whole.antt =====
-- The task pipeline of Engine/Task.antt, and with it every task with all its nested scopes, keeps
-- every engine frame that the runtime's combinators keep.
use ows_runtime_rust.Prelude.{
  ℕ, zero, suc, Bool, true, false, if◌then◌else◌, Option, none, some, List, [], ◌∷◌, String,
}
use ows_runtime_rust.Json.{Value, Fields}
use ows_runtime_rust.Engine.Ir.{
  CompiledTask, task, TaskHead, Tasks, no_tasks, more, Handler, no_handler, handler,
  CompiledTaskKind, CompiledExtension, CompiledWorkflow, list_of_tasks, head,
}
use ows_runtime_rust.Engine.State.{State, Execution, TaskExec, Exec, modify}
use ows_runtime_rust.Engine.Runtime.{Runtime}
use ows_runtime_rust.Engine.Eval.{ExpressionContext, as_variable_map}
use ows_runtime_rust.Engine.Tasks.Dispatch.{Dispatched, plain, run_handler, dispatch}
use ows_runtime_rust.Engine.Task.{
  record_task, guard_holds, select_extensions, applicable_extensions, transform_stage,
  export_context, run_extension_scope, run_before, run_after, run_body, finish_task, run_pipeline,
  exec_task, extension_targets,
}
use ows_runtime_rust.Engine.Run.Execute.{run_task}
use ows_runtime_rust.Engine.Keeps.{
  Keeps, EngineFrame, RuntimeKeeps, Keeps-pure, Keeps-modify, Keeps-lift, Keeps-throw,
  continue_with-Keeps, keeps_rules, Keeps-if, Keeps-bind,
}
use ows_runtime_rust.Engine.Keeps.Scope.{eval_in-Keeps, transform_in-Keeps, exec_scope-Keeps}
use ows_runtime_rust.Engine.Keeps.Body.{
  task_wait-Keeps, task_for-Keeps, task_fork-Keeps, task_try-Keeps,
}

module _ {N W : Type 0} {R : State N W → State N W → Type 0} (f : EngineFrame R) (rt : Runtime N W)
    (k : RuntimeKeeps R rt) (wf : CompiledWorkflow N) (ex : Execution N) where
  record_task-Keeps : (name : String) → Keeps R (modify (record_task rt wf ex name))
  unfolding record_task
  record_task-Keeps name = Keeps-modify _ (λ s. f.log s name)

  set_context-Keeps : (v : Value N) → Keeps R (modify (λ s. record s { context = v }))
  set_context-Keeps v = Keeps-modify _ (λ s. f.context s v)

  guard_holds-Keeps :
      (t : TaskHead N) (g : Option String) (v : Value N) → Keeps R (guard_holds rt wf ex t g v)
  unfolding guard_holds
  guard_holds-Keeps t none v = search (keeps_rules, f)
  guard_holds-Keeps t (some cond) v = search (keeps_rules, f, eval_in-Keeps f rt k ex)

  select_extensions-Keeps :
      (exts : List (CompiledExtension N)) (t : CompiledTask N) (v : Value N)
      → Keeps R (select_extensions rt wf ex exts t v)
  unfolding select_extensions
  select_extensions-Keeps [] t v = search (keeps_rules, f)
  select_extensions-Keeps (ext ∷ exts) t v =
      let ih = select_extensions-Keeps exts t v in
      Keeps-if f (extension_targets ext t) _ _
        (Keeps-bind f _ _ (guard_holds-Keeps (head t) ext.when v)
          λ holds. Keeps-bind f _ _ ih (λ rest. Keeps-pure f (if holds then ext ∷ rest else rest)))
        ih

  applicable_extensions-Keeps :
      (t : CompiledTask N) (v : Value N) → Keeps R (applicable_extensions rt wf ex t v)
  unfolding applicable_extensions
  applicable_extensions-Keeps t v = search (keeps_rules, f, select_extensions-Keeps) depth 8

  transform_stage-Keeps :
      (t : TaskHead N) (src : Option String) (v : Value N) (vars : Fields N)
      → Keeps R (transform_stage rt wf ex t src v vars)
  unfolding transform_stage
  transform_stage-Keeps t none v vars = search (keeps_rules, f)
  transform_stage-Keeps t (some src) v vars = search (keeps_rules, f)

  export_context-Keeps :
      (t : TaskHead N) (src : Option String) (v : Value N) (vars : Fields N)
      → Keeps R (export_context rt wf ex t src v vars)
  unfolding export_context
  export_context-Keeps t none v vars = search (keeps_rules, f)
  export_context-Keeps t (some src) v vars = search (keeps_rules, f)

  module _ (fuel : ℕ) (run_one : CompiledTask N → Value N → Exec N W (TaskExec N))
      (run_scope : Tasks N → Value N → Exec N W (Value N))
      (kt : (t : CompiledTask N) (v : Value N) → Keeps R (run_one t v))
      (ks : (ts : Tasks N) (v : Value N) → Keeps R (run_scope ts v)) where
    run_extension_scope-Keeps :
        (ts : Tasks N) (v : Value N)
        → Keeps R (run_extension_scope rt wf ex fuel run_one run_scope ts v)
    unfolding run_extension_scope
    run_extension_scope-Keeps no_tasks v = record { at = λ s. f.same s }
    run_extension_scope-Keeps (more t ts) v = record {
      at = λ s.
          continue_with-Keeps f _ _ s _ (f.bracket s _ false ((ks (more t ts) v).at _))
            (λ x. Keeps-pure f _);
    }

    run_before-Keeps :
        (exts : List (CompiledExtension N)) (v : Value N)
        → Keeps R (run_before rt wf ex fuel run_one run_scope exts v)
    unfolding run_before
    run_before-Keeps [] v = search (keeps_rules, f)
    run_before-Keeps (ext ∷ exts) v =
        let ih = run_before-Keeps exts in
        search (keeps_rules, f, run_extension_scope-Keeps, ih) depth 8

    run_after-Keeps :
        (exts : List (CompiledExtension N)) (v : Value N)
        → Keeps R (run_after rt wf ex fuel run_one run_scope exts v)
    unfolding run_after
    run_after-Keeps [] v = search (keeps_rules, f)
    run_after-Keeps (ext ∷ exts) v =
        let ih = run_after-Keeps exts in
        search (keeps_rules, f, run_extension_scope-Keeps, ih) depth 8

    plain-Keeps :
        (m : Exec N W (Value N)) → Keeps R m → Keeps R (plain rt wf ex fuel run_one run_scope m)
    unfolding plain
    plain-Keeps m h = search (keeps_rules, f)

    perform-Keeps :
        (t : CompiledTask N) (v : Value N) (c : ExpressionContext N)
        → Keeps R (rt.perform t (as_variable_map c) run_scope v)
    perform-Keeps t v c = k.perform t (as_variable_map c) run_scope v ks

    run_handler-Keeps :
        (h : Handler N) (v : Value N) → Keeps R (run_handler rt wf ex fuel run_one run_scope h v)
    unfolding run_handler
    run_handler-Keeps no_handler v = search (keeps_rules, f)
    run_handler-Keeps (handler ts) v = ks ts v

    dispatch-Keeps :
        (t : CompiledTask N) (v : Value N) (c : ExpressionContext N)
        → Keeps R (dispatch rt wf ex fuel run_one run_scope t v c)
    unfolding dispatch
    dispatch-Keeps (task h (CompiledTaskKind.set values)) v c = plain-Keeps _ (Keeps-lift f _)
    dispatch-Keeps (task h (CompiledTaskKind.do_ body)) v c = plain-Keeps _ (ks body v)
    dispatch-Keeps (task h (CompiledTaskKind.for_ def body)) v c =
        plain-Keeps _ (task_for-Keeps f rt k ex def _ (ks body) v c)
    dispatch-Keeps (task h (CompiledTaskKind.fork branches compete)) v c =
        plain-Keeps _ (task_fork-Keeps f rt k ex run_one kt (list_of_tasks branches) compete v)
    dispatch-Keeps (task h (CompiledTaskKind.switch cases)) v c = Keeps-lift f _
    dispatch-Keeps (task h (CompiledTaskKind.try_ body catch on_error)) v c =
        plain-Keeps _
          (task_try-Keeps f rt k ex catch c _ _ (ks body v) (run_handler-Keeps on_error v) fuel)
    dispatch-Keeps (task h (CompiledTaskKind.raise error)) v c = Keeps-throw f _
    dispatch-Keeps (task h (CompiledTaskKind.wait duration)) v c =
        plain-Keeps _ (task_wait-Keeps f rt k ex duration)
    dispatch-Keeps (task h (CompiledTaskKind.emit event)) v c =
        plain-Keeps _ (perform-Keeps (task h (CompiledTaskKind.emit event)) v c)
    dispatch-Keeps (task h (CompiledTaskKind.listen def body)) v c =
        plain-Keeps _ (perform-Keeps (task h (CompiledTaskKind.listen def body)) v c)
    dispatch-Keeps (task h (CompiledTaskKind.call def)) v c =
        plain-Keeps _ (perform-Keeps (task h (CompiledTaskKind.call def)) v c)
    dispatch-Keeps (task h (CompiledTaskKind.run def)) v c =
        plain-Keeps _ (perform-Keeps (task h (CompiledTaskKind.run def)) v c)

    run_body-Keeps :
        (t : CompiledTask N) (skip : Bool) (v : Value N) (c : ExpressionContext N)
        → Keeps R (run_body rt wf ex fuel run_one run_scope t skip v c)
    unfolding run_body
    run_body-Keeps t true v c = search (keeps_rules, f)
    run_body-Keeps t false v c = dispatch-Keeps t v c

    finish_task-Keeps :
        (t : CompiledTask N) (exts : List (CompiledExtension N)) (c : ExpressionContext N)
        (v : Value N) (d : Dispatched N)
        → Keeps R (finish_task rt wf ex fuel run_one run_scope t exts c v d)
    unfolding finish_task
    finish_task-Keeps t exts c v d =
        search
          (
            keeps_rules, f, transform_stage-Keeps, run_after-Keeps, export_context-Keeps,
            set_context-Keeps,
          )
          depth 16

    run_pipeline-Keeps :
        (t : CompiledTask N) (v : Value N)
        → Keeps R (run_pipeline rt wf ex fuel run_one run_scope t v)
    unfolding run_pipeline
    run_pipeline-Keeps t v =
        search
          (
            keeps_rules,
            f,
            transform_in-Keeps f rt k ex,
            applicable_extensions-Keeps,
            run_before-Keeps,
            run_body-Keeps,
            finish_task-Keeps,
          )
          depth 16

    pub exec_task-Keeps :
        (t : CompiledTask N) (v : Value N) → Keeps R (exec_task rt wf ex fuel run_one run_scope t v)
    unfolding exec_task
    exec_task-Keeps t v =
        search (keeps_rules, f, record_task-Keeps, guard_holds-Keeps, run_pipeline-Keeps) depth 8

  pub run_task-Keeps :
      (fuel : ℕ) (t : CompiledTask N) (v : Value N) → Keeps R (run_task rt wf ex fuel t v)
  unfolding run_task
  run_task-Keeps zero t v = search (keeps_rules, f)
  run_task-Keeps (suc fuel) t v =
      exec_task-Keeps fuel (run_task rt wf ex fuel) _ (run_task-Keeps fuel)
        (λ ts x.
          exec_scope-Keeps f rt k wf ex (list_of_tasks ts) none _ (run_task-Keeps fuel) fuel x)
        t v

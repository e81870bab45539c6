-- ===== src/Engine/Tasks/Dispatch.antt =====
-- `dispatch` of crates/ows-runtime/src/tasks.rs. Scopes and the branches of a fork are run by the
-- arguments `run_scope` and `run_task`; `emit`, `listen`, `call` and `run` by the runtime's field.
-- `fuel` is for the loop of a `try`.
use ows_runtime_rust.Prelude.{ℕ, Option, none}
use ows_runtime_rust.Json.{Value}
use ows_runtime_rust.Engine.Ir.{
  CompiledTask, task, Tasks, Handler, no_handler, handler, CompiledTaskKind, CompiledWorkflow,
  list_of_tasks,
}
use ows_runtime_rust.Engine.State.{
  FlowDirective, Execution, TaskExec, Exec, pure, throw, lift, ◌>>=◌,
}
use ows_runtime_rust.Engine.Runtime.{Runtime}
use ows_runtime_rust.Engine.Eval.{ExpressionContext, as_variable_map}
use ows_runtime_rust.Engine.Tasks.Simple.{task_set, task_switch, task_raise, task_wait}
use ows_runtime_rust.Engine.Tasks.For.{task_for}
use ows_runtime_rust.Engine.Tasks.Fork.{task_fork}
use ows_runtime_rust.Engine.Tasks.Try.{task_try}

abbrev pub Dispatched : Type 0 → Type 0
Dispatched N = Value N × Option FlowDirective

module _ {N W : Type 0} (rt : Runtime N W) (wf : CompiledWorkflow N) (ex : Execution N) (fuel : ℕ)
    (run_task : CompiledTask N → Value N → Exec N W (TaskExec N))
    (run_scope : Tasks N → Value N → Exec N W (Value N)) where
  -- a task without a directive of its own
  unfoldable pub plain : Exec N W (Value N) → Exec N W (Dispatched N)
  unfolding pure ◌>>=◌
  plain m = do output ← m; pure (output, none)

  -- the handler scope of a `catch`, or the task's input
  unfoldable pub run_handler : Handler N → Value N → Exec N W (Value N)
  unfolding pure
  run_handler no_handler input = pure input
  run_handler (handler tasks) input = run_scope tasks input

  unfoldable pub dispatch : CompiledTask N → Value N → ExpressionContext N → Exec N W (Dispatched N)
  unfolding plain run_handler task_set task_for task_fork task_switch task_try task_raise task_wait
      lift throw
  dispatch (task h (CompiledTaskKind.set values)) input c = plain (lift (task_set rt values c))
  dispatch (task h (CompiledTaskKind.do_ body)) input c = plain (run_scope body input)
  dispatch (task h (CompiledTaskKind.for_ def body)) input c =
      plain (task_for rt ex def (run_scope body) input c)
  dispatch (task h (CompiledTaskKind.fork branches compete)) input c =
      plain (task_fork rt run_task (list_of_tasks branches) compete input)
  dispatch (task h (CompiledTaskKind.switch cases)) input c = lift (task_switch rt cases input c)
  dispatch (task h (CompiledTaskKind.try_ body catch on_error)) input c =
      plain (task_try rt ex catch c (run_scope body input) (run_handler on_error input) fuel)
  dispatch (task h (CompiledTaskKind.raise error)) input c = throw (task_raise rt wf ex h error)
  dispatch (task h (CompiledTaskKind.wait duration)) input c = plain (task_wait rt ex duration)
  dispatch (task h (CompiledTaskKind.emit event)) input c =
      plain (rt.perform (task h (CompiledTaskKind.emit event)) (as_variable_map c) run_scope input)
  dispatch (task h (CompiledTaskKind.listen def body)) input c =
      plain
        (rt.perform (task h (CompiledTaskKind.listen def body)) (as_variable_map c) run_scope input)
  dispatch (task h (CompiledTaskKind.call def)) input c =
      plain (rt.perform (task h (CompiledTaskKind.call def)) (as_variable_map c) run_scope input)
  dispatch (task h (CompiledTaskKind.run def)) input c =
      plain (rt.perform (task h (CompiledTaskKind.run def)) (as_variable_map c) run_scope input)

-- ===== src/Engine/Tasks/Simple.antt =====
-- The `set`, `switch`, `raise` and `wait` tasks of crates/ows-runtime/src/tasks.rs.
pub mod Choice
use ows_runtime_rust.Prelude.{
  ℕ, ◌%◌, ◌^◌, String, Bool, true, false, Option, none, some, List, [], ◌∷◌, Result, ok, err,
  unwrap_or, or_else, str_eq, if◌then◌else◌, ◌<>◌,
}
use ows_runtime_rust.Json.{Value, null, number, string, object, Fields, end, insert}
use ows_runtime_rust.Core.Error.{
  WorkflowError, ErrorKind, ProblemDetails, problem_new, error_new, semantic_error, with_execution,
}
use ows_runtime_rust.Engine.Ir.{
  SetValues, map, expression, SwitchCase, ErrorDefinition, ErrorRef, inline, reference, TaskHead,
  CompiledWorkflow,
}
use ows_runtime_rust.Engine.State.{
  FlowDirective, continue, Execution, Exec, pure, throw, observe, ◌>>=◌, ◌>>◌,
}
use ows_runtime_rust.Engine.Runtime.{Runtime}
use ows_runtime_rust.Engine.Eval.{
  ExpressionContext, as_variable_map, is_truthy, eval_expr, eval_interpolation,
}
use ows_runtime_rust.Engine.Scope.{parse_directive, cancelled_in}

abbrev pub then_directive : Option String → FlowDirective
then_directive none = continue
then_directive (some s) = parse_directive s

module _ {N W : Type 0} (rt : Runtime N W) where
  -- the entries of a `set` map, resolved in order; the first failure ends the task
  unfoldable pub set_entries :
      List (String × Value N) → ExpressionContext N → Fields N → Result (WorkflowError N) (Value N)
  set_entries [] c out = ok (object out)
  set_entries ((k, v) ∷ rest) c out = elim (eval_interpolation rt v c) [
    | ok resolved ↦ set_entries rest c (insert k resolved out)
    | err e ↦ err e
  ]

  unfoldable pub task_set : SetValues N → ExpressionContext N → Result (WorkflowError N) (Value N)
  unfolding set_entries
  task_set (expression src) c = eval_interpolation rt (string src) c
  task_set (map entries) c = set_entries entries c end

  -- whether a case matches: its condition, or the default case
  unfoldable pub case_matches : Option String → Value N → Fields N → Result (WorkflowError N) Bool
  case_matches none input vars = ok true
  case_matches (some cond) input vars = elim (eval_expr rt cond input vars none) [
    | ok v ↦ ok (is_truthy v)
    | err e ↦ err e
  ]

  unfoldable pub switch_from :
      List SwitchCase
      → Value N
      → Fields N
      → Result (WorkflowError N) (Value N × Option FlowDirective)
  unfolding case_matches
  switch_from [] input vars = ok (input, none)
  switch_from (case ∷ cases) input vars =
      let rest = switch_from cases input vars in
      elim (case_matches case.when input vars) [
        | ok matched ↦ if matched then ok (input, some (then_directive case.then_)) else rest
        | err e ↦ err e
      ]

  unfoldable pub task_switch :
      List SwitchCase
      → Value N
      → ExpressionContext N
      → Result (WorkflowError N) (Value N × Option FlowDirective)
  unfolding switch_from
  task_switch cases input c = switch_from cases input (as_variable_map c)

  unfoldable pub find_error :
      String → List (String × ErrorDefinition N) → Option (ErrorDefinition N)
  find_error name [] = none
  find_error name ((k, e) ∷ rest) = if str_eq k name then some e else find_error name rest

  unfoldable pub resolve_error_ref : CompiledWorkflow N → String → Option (ErrorDefinition N)
  unfolding find_error
  resolve_error_ref wf name = elim wf.errors [ none ↦ none | some m ↦ find_error name m ]

  -- `status.as_u64().unwrap_or(500) as u16`
  abbrev status_u64 : Value N → Option ℕ
  status_u64 (number n) = rt.as_u64 n
  status_u64 _ = none

  unfoldable pub raised_problem : TaskHead N → ErrorDefinition N → ProblemDetails N
  unfolding problem_new
  raised_problem t e =
      let p = problem_new e.type_ e.title (unwrap_or (status_u64 e.status) 500 % 2 ^ 16) in
      record p {
        detail = or_else e.detail p.detail;
        instance_ = some (unwrap_or e.instance_ t.reference);
      }

  unfoldable pub raise_error :
      CompiledWorkflow N
      → Execution N
      → TaskHead N
      → Option (ErrorDefinition N)
      → String
      → WorkflowError N
  unfolding raised_problem error_new semantic_error with_execution
  raise_error wf ex t (some e) name =
      with_execution (error_new ErrorKind.fault (raised_problem t e)) ex.execution_id
  raise_error wf ex t none name = semantic_error ("undefined error `" <> name <> "`")

  -- The error that the `raise` task ends with; the task has no other result.
  unfoldable pub task_raise :
      CompiledWorkflow N → Execution N → TaskHead N → ErrorRef N → WorkflowError N
  unfolding raise_error resolve_error_ref
  task_raise wf ex t (inline e) = raise_error wf ex t (some e) ""
  task_raise wf ex t (reference name) = raise_error wf ex t (resolve_error_ref wf name) name

  -- `wait_with_cancel`: a sleep that a cancellation ends, and one before it forbids
  unfoldable pub slept : Execution N → Bool → Exec N W (Unit {0})
  unfolding cancelled_in throw pure
  slept ex true = throw (cancelled_in ex)
  slept ex false = pure tt

  unfoldable pub wait_with_cancel : Execution N → ℕ → Exec N W (Unit {0})
  unfolding slept observe ◌>>=◌
  wait_with_cancel ex duration = do
    cancelled ← observe rt.is_cancelled
    slept ex cancelled
    interrupted ← observe (rt.sleep_or_cancel duration)
    slept ex interrupted

  unfoldable pub task_wait : Execution N → ℕ → Exec N W (Value N)
  unfolding wait_with_cancel pure ◌>>=◌
  task_wait ex duration = do wait_with_cancel ex duration; pure null

-- ===== src/Tests/Tasks.antt =====
-- The tasks of Engine/Tasks other than `try` at concrete inputs.
use ows_runtime_rust.Prelude.{
  refl, ℕ, List, none, some, ◌≡◌, ◌∷◌, arith, [], ◌<>◌, show_usize, ok, suc, zero, String, ◌≢◌,
  Option, true, Result, false, ap, sym, Bool, some_inj, ◌∙◌, eq_iff,
}
use ows_runtime_rust.Tests.World.{
  World, test_runtime, test_execution, test_state, test_context, wait_task,
}
use ows_runtime_rust.Engine.Ir.{ForDef, SwitchCase, CompiledTask}
use ows_runtime_rust.Engine.State.{Exec, pure, fail, done, State, TaskExec, panic}
use ows_runtime_rust.Engine.Tasks.For.{task_for, at_name}
use ows_runtime_rust.Json.{Value, number, null, insert, array, items_of_list, end, get, extend}
use ows_runtime_rust.Core.Error.{runtime_error, policy_error, WorkflowError}
use ows_runtime_rust.Engine.Runtime.{joined, Joined, Runtime}
use ows_runtime_rust.Engine.Eval.{ExpressionContext, eval_expr, as_variable_map, is_truthy}
use ows_runtime_rust.Engine.Tasks.For.Loop.{task_for_limit, task_for_unbinds}
use ows_runtime_rust.Engine.Tasks.Simple.{case_matches, task_switch, then_directive}
use ows_runtime_rust.Engine.Tasks.Simple.Choice.{PassedOver, task_switch_none, task_switch_first}
use ows_runtime_rust.Engine.Tasks.For.Fold.{pure_body, task_for_fold}

-- task sets that hand over these results
abbrev runtime_joining : List (Joined ℕ) → Runtime ℕ World
runtime_joining results = record test_runtime { join_all = λ ms s. (results, s) }

abbrev no_branch : CompiledTask ℕ → Value ℕ → Exec ℕ World (TaskExec ℕ)
no_branch t v s = (panic, s)

abbrev two_branches : List (CompiledTask ℕ)
two_branches = wait_task "a" none ∷ wait_task "b" none ∷ []

abbrev one_fails : List (Joined ℕ)
one_fails = joined 1 (done (number 1)) ∷ joined 0 (fail (runtime_error "broken")) ∷ []

abbrev loop_def : ForDef
loop_def = record { each = "x"; in_ = "items"; at = none; while_ = none }

abbrev with_items : List (Value ℕ) → ExpressionContext ℕ
with_items xs = record test_context { extra_vars = insert "items" (array (items_of_list xs)) end }

abbrev three : List (Value ℕ)
three = number 1 ∷ number 2 ∷ number 3 ∷ []

reads_items :
    (xs : List (Value ℕ))
    → eval_expr test_runtime "items" null (as_variable_map (with_items xs)) none
      ≡ ok (array (items_of_list xs))
unfolding eval_expr as_variable_map extend insert get
reads_items xs = refl

task_for_limit_example :
    task_for test_runtime test_execution loop_def (λ v. pure v) null (with_items three) test_state
    ≡ (
      fail (policy_error ("for loop exceeds the maximum of " <> show_usize 2 <> " iterations")),
      test_state,
    )
task_for_limit_example =
    task_for_limit test_runtime test_execution loop_def (λ v. pure v) null (with_items three)
      test_state (items_of_list three) (reads_items three) (omega arith)

abbrev one : List (Value ℕ)
one = number 1 ∷ []

abbrev bound_state : State ℕ World
bound_state = record test_state { loop_vars = insert "x" (number 9) end }

loops_once :
    (task_for test_runtime test_execution loop_def
      (λ v. pure v)
      null
      (with_items one)
      bound_state).0
    ≡ done null
unfolding task_for pure
loops_once = rw (reads_items one) refl

task_for_unbinds_example :
    let t =
      (task_for test_runtime test_execution loop_def
        (λ v. pure v)
        null
        (with_items one)
        bound_state).1 in
    (get "x" t.loop_vars ≡ none) × (get (at_name loop_def) t.loop_vars ≡ none)
task_for_unbinds_example =
    task_for_unbinds test_runtime test_execution loop_def (λ v. pure v) null (with_items one)
      bound_state null loops_once

abbrev case_when : String → Option String → Option String → SwitchCase
case_when name when then_ = record { name = name; when = when; then_ = then_ }

abbrev two_cases : List SwitchCase
two_cases = case_when "a" (some "input") none ∷ case_when "b" none (some "exit") ∷ []

first_is_false :
    case_matches test_runtime (some "input") null (as_variable_map test_context) ≡ ok false
unfolding case_matches eval_expr as_variable_map extend insert get is_truthy
first_is_false = refl

default_matches : case_matches test_runtime none null (as_variable_map test_context) ≡ ok true
unfolding case_matches
default_matches = refl

passes_first :
    (cases : List SwitchCase)
    → PassedOver test_runtime null test_context (case_when "a" (some "input") none ∷ cases) 1
passes_first cases zero case below at =
    ap (λ k. case_matches test_runtime k.when null (as_variable_map test_context))
      (sym (some_inj at))
    ∙ first_is_false
passes_first cases (suc j) case below at = absurd (omega arith)

true_is_not_false : ◌≢◌ {A = Result (WorkflowError ℕ) Bool} (ok true) (ok false)
true_is_not_false e = absurd (ground (arith, e))

task_switch_first_example :
    task_switch test_runtime two_cases null test_context
    ≡ ok (null, some (then_directive (some "exit")))
task_switch_first_example =
    task_switch_first test_runtime null test_context two_cases 1 (case_when "b" none (some "exit"))
      (ok true) (passes_first (case_when "b" none (some "exit") ∷ [])) refl default_matches
      true_is_not_false

task_switch_none_example :
    task_switch test_runtime (case_when "a" (some "input") none ∷ []) null test_context
    ≡ ok (null, none)
task_switch_none_example =
    task_switch_none test_runtime null test_context (case_when "a" (some "input") none ∷ [])
      (passes_first [])

index_is_not_x : ◌≢◌ {A = String} "index" "x"
index_is_not_x e = absurd (ground (arith, eq_iff "index" "x", e))

abbrev newest : Value ℕ → Value ℕ → Value ℕ
newest item v = item

task_for_fold_example :
    (task_for test_runtime test_execution loop_def
      (pure_body test_runtime test_execution loop_def newest)
      null
      (with_items one)
      test_state).0
    ≡ done (number 1)
task_for_fold_example =
    task_for_fold test_runtime test_execution loop_def newest (λ w. refl) refl index_is_not_x null
      (with_items one) test_state one refl (reads_items one) (omega arith)

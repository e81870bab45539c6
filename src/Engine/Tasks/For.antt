-- ===== src/Engine/Tasks/For.antt =====
-- The `for` task of crates/ows-runtime/src/tasks.rs. The body is run by the argument `run_scope`.
pub mod Loop
pub mod Fold
use ows_runtime_rust.Prelude.{
  ℕ, ◌+◌, String, Bool, true, false, Option, none, some, List, [], ◌∷◌, Result, ok, err, length,
  unwrap_or, ltb, if◌then◌else◌, ◌<>◌, show_usize,
}
use ows_runtime_rust.Json.{Value, null, number, array, insert, remove, list_of_items}
use ows_runtime_rust.Core.Error.{WorkflowError, expression_error, policy_error}
use ows_runtime_rust.Engine.Ir.{ForDef}
use ows_runtime_rust.Engine.State.{
  State, Execution, Exec, pure, throw, lift, gets, modify, observe, ◌>>=◌, ◌>>◌,
}
use ows_runtime_rust.Engine.Runtime.{Runtime}
use ows_runtime_rust.Engine.Eval.{
  ExpressionContext, as_variable_map, is_truthy, eval_expr, variables,
}
use ows_runtime_rust.Engine.Scope.{cancelled_in}

abbrev pub at_name : ForDef → String
at_name def = unwrap_or def.at "index"

module _ {N W : Type 0} (rt : Runtime N W) where
  -- what `in` evaluates to, as the items to loop over
  unfoldable pub items_of : Value N → Result (WorkflowError N) (List (Value N))
  unfolding expression_error
  items_of (array items) = ok (list_of_items items)
  items_of null = ok []
  items_of other =
      err
        (expression_error ("for `in` must evaluate to an array, got `" <> rt.display other <> "`"))

  unfoldable pub check_iterations : List (Value N) → Result (WorkflowError N) (List (Value N))
  unfolding policy_error
  check_iterations items =
      if ltb rt.max_loop_iterations (length items)
      then err (
          policy_error (
            "for loop exceeds the maximum of "
            <> show_usize rt.max_loop_iterations
            <> " iterations"))
      else ok items

  module _ (ex : Execution N) (def : ForDef) (run_body : Value N → Exec N W (Value N)) where
    unfoldable pub bind_item : ℕ → Value N → State N W → State N W
    bind_item index item s = record s {
      loop_vars =
          insert (at_name def) (number (rt.number_of index)) (insert def.each item s.loop_vars);
    }

    -- whether the `while` condition lets the iteration run
    unfoldable pub while_holds : Option String → Value N → Exec N W Bool
    unfolding variables lift pure ◌>>=◌
    while_holds none body_input = pure true
    while_holds (some cond) body_input = do
      vars ← variables rt ex body_input null none
      v ← lift (eval_expr rt cond body_input vars none)
      pure (is_truthy v)

    -- after the body: stop at an `end`, else go on with its output
    unfoldable pub next_iteration : Exec N W (Value N) → Value N → Bool → Exec N W (Value N)
    unfolding pure
    next_iteration rest body_output true = pure body_output
    next_iteration rest body_output false = rest

    unfoldable pub iterate :
        (Value N → Value N → Exec N W (Value N)) → Value N → Value N → Bool → Exec N W (Value N)
    unfolding next_iteration gets pure ◌>>=◌
    iterate rest body_input output false = pure output
    iterate rest body_input output true = do
      body_output ← run_body body_input
      ended ← gets (λ s. s.ended)
      next_iteration (rest body_output body_output) body_output ended

    unfoldable pub unless_cancelled_for : Exec N W (Value N) → Bool → Exec N W (Value N)
    unfolding cancelled_in throw
    unless_cancelled_for rest true = throw (cancelled_in ex)
    unless_cancelled_for rest false = rest

    -- the loop over the items left, from `index` on
    unfoldable pub for_loop : ℕ → List (Value N) → Value N → Value N → Exec N W (Value N)
    unfolding bind_item while_holds iterate unless_cancelled_for observe modify pure ◌>>=◌
    for_loop index [] body_input output = pure output
    for_loop index (item ∷ items) body_input output = do
      cancelled ← observe rt.is_cancelled
      unless_cancelled_for
          (do
            modify (bind_item index item)
            holds ← while_holds def.while_ body_input
            iterate (for_loop (index + 1) items) body_input output holds)
          cancelled

    -- the variables are removed when the loop ends, but not when it fails
    unfoldable pub unbind : State N W → State N W
    unbind s = record s { loop_vars = remove (at_name def) (remove def.each s.loop_vars) }

    unfoldable pub task_for : Value N → ExpressionContext N → Exec N W (Value N)
    unfolding items_of check_iterations for_loop unbind lift modify pure ◌>>=◌
    task_for task_input c = do
      collection ← lift (eval_expr rt def.in_ task_input (as_variable_map c) none)
      all_items ← lift (items_of collection)
      items ← lift (check_iterations all_items)
      output ← for_loop 0 items task_input null
      modify unbind
      pure output

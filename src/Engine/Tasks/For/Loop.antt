-- ===== src/Engine/Tasks/For/Loop.antt =====
-- What the `for` task of Engine/Tasks/For.antt guarantees.
use ows_runtime_rust.Prelude.{◌<◌, ◌≡◌, none, arith, length, eq_iff, ok, ◌<>◌, show_usize}
use ows_runtime_rust.Json.{Value, array, Items, list_of_items, get, remove, get-remove}
use ows_runtime_rust.Engine.Ir.{ForDef}
use ows_runtime_rust.Engine.State.{
  State, Execution, Outcome, done, fail, Exec, continue_with, ◌>>=◌, modify, panic, pure,
  out_of_fuel, ◌>>◌,
}
use ows_runtime_rust.Engine.Runtime.{Runtime}
use ows_runtime_rust.Engine.Eval.{ExpressionContext, as_variable_map, eval_expr}
use ows_runtime_rust.Engine.Tasks.For.{task_for, check_iterations, unbind, at_name}
use ows_runtime_rust.Core.Error.{policy_error}

-- when the computation succeeds, its last state is as `P` says
record Leaves {N W A : Type 0} (P : State N W → Type 0) (m : Exec N W A) : Type 0 where
  at : (s : State N W) (a : A) → (m s).0 ≡ done a → P (m s).1

module _ {N W A B : Type 0} {P : State N W → Type 0} where
  continue_with-leaves :
      (g : A → Exec N W B) (o : Outcome N A) (s : State N W) (b : B)
      → ((a : A) → Leaves P (g a))
      → (continue_with g o s).0 ≡ done b
      → P (continue_with g o s).1
  continue_with-leaves g (done a) s b k h = (k a).at s b h
  continue_with-leaves g (fail e) s b k h = cc
  continue_with-leaves g panic s b k h = cc
  continue_with-leaves g out_of_fuel s b k h = cc

  Leaves-bind :
      (m : Exec N W A) (g : A → Exec N W B) → ((a : A) → Leaves P (g a)) → Leaves P (m >>= g)
  unfolding ◌>>=◌
  Leaves-bind m g k = record { at = λ s b h. continue_with-leaves g (m s).0 (m s).1 b k h }

module _ {N W : Type 0} (rt : Runtime N W) (ex : Execution N) (def : ForDef)
    (run_body : Value N → Exec N W (Value N)) where
  -- A collection with more items than the policy allows makes the `for` task fail with the policy
  -- error, before the body runs or any state changes.
  pub task_for_limit :
      (v : Value N) (c : ExpressionContext N) (s : State N W) (items : Items N)
      → eval_expr rt def.in_ v (as_variable_map c) none ≡ ok (array items)
      → rt.max_loop_iterations < length (list_of_items items)
      → task_for rt ex def run_body v c s ≡ (
        fail (
            policy_error (
              "for loop exceeds the maximum of "
              <> show_usize rt.max_loop_iterations
              <> " iterations")),
        s,
      )
  unfolding task_for check_iterations
  task_for_limit v c s items e h = rw e (ground arith)

  abbrev Unbound : State N W → Type 0
  Unbound s = (get def.each s.loop_vars ≡ none) × (get (at_name def) s.loop_vars ≡ none)

  unbind-Leaves :
      (output : Value N) → Leaves Unbound (modify (unbind rt ex def run_body) >> pure output)
  unfolding unbind modify pure ◌>>=◌
  unbind-Leaves output = record {
    at = λ s a h.
        let inner = remove def.each s.loop_vars in
        (
          rw get-remove
              (ground (arith, get-remove def.each def.each s.loop_vars, eq_iff def.each def.each)),
          rw get-remove (ground (arith, eq_iff (at_name def) (at_name def))),
        );
  }

  task_for-Leaves :
      (v : Value N) (c : ExpressionContext N) → Leaves Unbound (task_for rt ex def run_body v c)
  unfolding task_for
  task_for-Leaves v c = search (Leaves-bind, unbind-Leaves) depth 8

  -- After a `for` task that succeeds neither of its two variables is bound, even if one was bound
  -- before the task: a loop inside another of the same variable name takes it away.
  pub task_for_unbinds :
      (v : Value N) (c : ExpressionContext N) (s : State N W) (output : Value N)
      → (task_for rt ex def run_body v c s).0 ≡ done output
      → (get def.each (task_for rt ex def run_body v c s).1.loop_vars ≡ none)
        × (get (at_name def) (task_for rt ex def run_body v c s).1.loop_vars ≡ none)
  task_for_unbinds v c s output h = (task_for-Leaves v c).at s output h

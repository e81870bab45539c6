-- ===== src/Engine/Tasks/Fork.antt =====
-- The `fork` task of crates/ows-runtime/src/tasks.rs. The branches run in a tokio task set, which
-- is a parameter: it hands over the results in the order in which the branches finish.
pub mod Results
use ows_runtime_rust.Prelude.{
  ℕ, zero, suc, ◌+◌, ◌==◌, Bool, true, false, Option, none, some, List, [], ◌∷◌, length, or_else,
  if◌then◌else◌, ◌<>◌,
}
use ows_runtime_rust.Json.{Value, null, array, items_of_list, nil}
use ows_runtime_rust.Core.Error.{WorkflowError, runtime_error}
use ows_runtime_rust.Engine.Ir.{CompiledTask}
use ows_runtime_rust.Engine.State.{
  State, Outcome, done, fail, panic, out_of_fuel, TaskExec, Exec, pure, ◌>>=◌,
}
use ows_runtime_rust.Engine.Runtime.{Runtime, Joined, joined, panicked}

module _ {N : Type 0} where
  -- the first error, in the order of completion
  unfoldable pub first_error : List (Joined N) → Option (WorkflowError N)
  unfolding runtime_error
  first_error [] = none
  first_error (joined i (fail e) ∷ rest) = some e
  first_error (panicked text ∷ rest) = some (runtime_error ("fork branch panicked: " <> text))
  first_error (joined i panic ∷ rest) = some (runtime_error "fork branch panicked: ")
  first_error (joined i (done v) ∷ rest) = first_error rest
  first_error (joined i out_of_fuel ∷ rest) = first_error rest

  abbrev pub is_out_of_fuel : List (Joined N) → Bool
  is_out_of_fuel [] = false
  is_out_of_fuel (joined i out_of_fuel ∷ rest) = true
  is_out_of_fuel (_ ∷ rest) = is_out_of_fuel rest

  -- `results[i]`: a later write to the same place would win
  unfoldable pub result_at : ℕ → List (Joined N) → Option (Value N)
  result_at i [] = none
  result_at i (joined j (done v) ∷ rest) =
      or_else (result_at i rest) (if j == i then some v else none)
  result_at i (_ ∷ rest) = result_at i rest

  -- the outputs of the branches `i`, `i + 1`, …; `none` where one is missing
  unfoldable pub outputs_from : ℕ → ℕ → List (Joined N) → Option (List (Value N))
  unfolding result_at
  outputs_from zero i results = some []
  outputs_from (suc n) i results =
      let rest = outputs_from n (i + 1) results in
      elim (result_at i results) [
        | none ↦ none
        | some v ↦ elim rest [ none ↦ none | some vs ↦ some (v ∷ vs) ]
      ]

  -- `r.unwrap()` panics on a missing result
  abbrev outputs_outcome : Option (List (Value N)) → Outcome N (Value N)
  outputs_outcome none = panic
  outputs_outcome (some vs) = done (array (items_of_list vs))

  abbrev error_or : Option (WorkflowError N) → Outcome N (Value N) → Outcome N (Value N)
  error_or none o = o
  error_or (some e) o = fail e

  -- the result of the fork from what its `count` branches ended with
  unfoldable pub collect : ℕ → List (Joined N) → Outcome N (Value N)
  unfolding first_error outputs_from
  collect count results =
      if is_out_of_fuel results
      then out_of_fuel
      else error_or (first_error results) (outputs_outcome (outputs_from count 0 results))

  -- the result of a competing fork from its first branch to finish
  unfoldable pub winner : Option (Joined N) → Outcome N (Value N)
  unfolding runtime_error
  winner none = done null
  winner (some (joined i panic)) = fail (runtime_error "fork branch failed: ")
  winner (some (joined i o)) = o
  winner (some (panicked text)) = fail (runtime_error ("fork branch failed: " <> text))

module _ {N W : Type 0} (rt : Runtime N W) where
  -- the branches ran on clones of the context: only what they share stays changed
  unfoldable pub rejoin : State N W → State N W → State N W
  rejoin s s' = record s' {
    loop_vars = s.loop_vars;
    apply_extensions = s.apply_extensions;
    scope_exited = s.scope_exited;
  }

  unfoldable pub branch_of :
      (CompiledTask N → Value N → Exec N W (TaskExec N))
      → Value N
      → CompiledTask N
      → Exec N W (Value N)
  unfolding pure ◌>>=◌
  branch_of run_task input t = do exec ← run_task t input; pure exec.output

  abbrev pub branches_of :
      (CompiledTask N → Value N → Exec N W (TaskExec N))
      → Value N
      → List (CompiledTask N)
      → List (Exec N W (Value N))
  branches_of run_task input [] = []
  branches_of run_task input (t ∷ ts) = branch_of run_task input t ∷ branches_of run_task input ts

  -- a branch on its clone of the context that the fork has
  unfoldable pub on_clone : State N W → Exec N W (Value N) → Exec N W (Value N)
  unfolding rejoin
  on_clone fork branch s = let (o, t) = branch (rejoin fork s) in (o, rejoin s t)

  abbrev pub on_clones : State N W → List (Exec N W (Value N)) → List (Exec N W (Value N))
  on_clones fork [] = []
  on_clones fork (b ∷ bs) = on_clone fork b ∷ on_clones fork bs

  unfoldable pub join_branches : Bool → List (Exec N W (Value N)) → Exec N W (Value N)
  unfolding collect winner rejoin on_clone
  join_branches true branches s =
      let (first, s') = rt.join_first (on_clones s branches) s in (winner first, rejoin s s')
  join_branches false branches s =
      let (results, s') = rt.join_all (on_clones s branches) s in
      (collect (length branches) results, rejoin s s')

  unfoldable pub task_fork :
      (CompiledTask N → Value N → Exec N W (TaskExec N))
      → List (CompiledTask N)
      → Bool
      → Value N
      → Exec N W (Value N)
  unfolding join_branches pure
  task_fork run_task [] compete input = pure (array nil)
  task_fork run_task (t ∷ ts) compete input =
      join_branches compete (branches_of run_task input (t ∷ ts))

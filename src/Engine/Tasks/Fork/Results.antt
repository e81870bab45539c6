-- ===== src/Engine/Tasks/Fork/Results.antt =====
-- What a fork of Engine/Tasks/Fork.antt makes of the results of its branches.
use ows_runtime_rust.Prelude.{ℕ, zero, suc, ◌+◌, ◌≡◌, Option, none, some, List, [], ◌∷◌, ◌⊎◌}
use ows_runtime_rust.Json.{Value}
use ows_runtime_rust.Engine.State.{done, Exec, TaskExec, State}
use ows_runtime_rust.Engine.Runtime.{Joined, joined, Runtime}
use ows_runtime_rust.Engine.Tasks.Fork.{branches_of, on_clones}
use ows_runtime_rust.Engine.Ir.{CompiledTask}

-- the number stands in the list
abbrev pub Contains : ℕ → List ℕ → Type 0
Contains i [] = ⊥
Contains i (j ∷ js) = (j ≡ i) ⊎ Contains i js

module _ {N : Type 0} where
  -- the branches finish in the order of the list, each with its value
  abbrev pub finished : (ℕ → Value N) → List ℕ → List (Joined N)
  finished value [] = []
  finished value (i ∷ order) = joined i (done (value i)) ∷ finished value order

  -- the values `i`, …, `i + n - 1`
  abbrev pub values_from : (ℕ → Value N) → ℕ → ℕ → List (Value N)
  values_from value i zero = []
  values_from value i (suc n) = value i ∷ values_from value (i + 1) n

  abbrev Here : (ℕ → Value N) → ℕ → Option (Value N) → Type 0
  Here value i o = (o ≡ none) ⊎ (o ≡ some (value i))

  abbrev pub NoError : List (Joined N) → Type 0
  NoError [] = Unit
  NoError (joined i (done v) ∷ rest) = NoError rest
  NoError (_ ∷ rest) = ⊥

  abbrev pub append_results : List (Joined N) → List (Joined N) → List (Joined N)
  append_results [] ys = ys
  append_results (x ∷ xs) ys = x ∷ append_results xs ys

module _ {N W : Type 0} (rt : Runtime N W)
    (run_task : CompiledTask N → Value N → Exec N W (TaskExec N)) where
  -- what the task set hands over for the branches of a fork, each on its clone of the context
  abbrev pub joined_branches : List (CompiledTask N) → Value N → State N W → List (Joined N)
  joined_branches ts v s = (rt.join_all (on_clones rt s (branches_of rt run_task v ts)) s).0

-- ===== src/Engine/Scope/Rounds.antt =====
-- What a round of the scope loop of Engine/Scope.antt does with a jump, an end and a cancellation.
use ows_runtime_rust.Prelude.{
  ℕ, zero, suc, ◌+◌, ◌≡◌, ◌≢◌, refl, String, none, some, List, [], ◌∷◌, eq_iff, arith, Option, true,
  false, get_elem?, or_else, ◌⊎◌, if◌then◌else◌,
}
use ows_runtime_rust.Engine.Ir.{CompiledTask, head, CompiledWorkflow}
use ows_runtime_rust.Engine.Scope.{
  position_from, ScopeCheckpoint, scope_loop, timed, final_directive, proceed, unknown_target,
  cancelled_in,
}
use ows_runtime_rust.Engine.Runtime.{Runtime}
use ows_runtime_rust.Engine.State.{Execution, Exec, TaskExec, State, done, goto, fail}
use ows_runtime_rust.Json.{Value}

module _ {N : Type 0} where
  -- the first task of the list with the name stands at the index
  abbrev pub FirstNamed : String → List (CompiledTask N) → ℕ → Type 0
  FirstNamed name [] i = ⊥
  FirstNamed name (t ∷ ts) zero = (head t).name ≡ name
  FirstNamed name (t ∷ ts) (suc i) = ((head t).name ≢ name) × FirstNamed name ts i

  abbrev pub NoneNamed : String → List (CompiledTask N) → Type 0
  NoneNamed name [] = Unit
  NoneNamed name (t ∷ ts) = ((head t).name ≢ name) × NoneNamed name ts

  position_from-FirstNamed :
      (j : ℕ) (name : String) (ts : List (CompiledTask N)) (i : ℕ)
      → FirstNamed name ts i
      → position_from j name ts ≡ some (j + i)
  unfolding position_from
  position_from-FirstNamed j name [] i h = absurd h
  position_from-FirstNamed j name (t ∷ ts) zero h = ground (arith, eq_iff (head t).name name)
  position_from-FirstNamed j name (t ∷ ts) (suc i) h =
      ground (arith, eq_iff (head t).name name, position_from-FirstNamed (j + 1) name ts i h.1)

  position_from-NoneNamed :
      (j : ℕ) (name : String) (ts : List (CompiledTask N))
      → NoneNamed name ts
      → position_from j name ts ≡ none
  unfolding position_from
  position_from-NoneNamed j name [] h = refl
  position_from-NoneNamed j name (t ∷ ts) h =
      ground (arith, eq_iff (head t).name name, position_from-NoneNamed (j + 1) name ts h.1)

module _ {N W : Type 0} (rt : Runtime N W) (wf : CompiledWorkflow N) (ex : Execution N)
    (tasks : List (CompiledTask N)) (cp : Option ScopeCheckpoint)
    (run_task : CompiledTask N → Value N → Exec N W (TaskExec N)) where
  -- the state after the cancellation was looked at
  abbrev pub polled : State N W → State N W
  polled s = record s { world = (rt.is_cancelled s.world).1 }

  -- Once an `end` is set, or the execution is cancelled, a scope runs no task, at whatever index
  -- it stands: it returns the value it has, or the cancellation error where it is cancelled, and
  -- only the look at the cancellation touches the state.
  pub stopped_scope :
      (fuel i : ℕ) (v : Value N) (s : State N W)
      → (s.ended ≡ true) ⊎ ((rt.is_cancelled s.world).0 ≡ true)
      → scope_loop rt wf ex tasks cp run_task (suc fuel) i v s
        ≡ ((if (rt.is_cancelled s.world).0 then fail (cancelled_in ex) else done v), polled s)
  unfolding scope_loop
  stopped_scope fuel i v s h = ground arith

  module _ (fuel i : ℕ) (v : Value N) (s t : State N W) (x : CompiledTask N) (e : TaskExec N)
      (name : String) (live : (rt.is_cancelled s.world).0 ≡ false) (going : s.ended ≡ false)
      (here : get_elem? tasks i ≡ some x)
      (ran : timed rt wf ex (head x) (or_else (head x).timeout ex.timeout) (run_task x v) (polled s)
        ≡ (done e, t))
      (jumps : final_directive e.directive (head x).then_ ≡ goto name) where
    -- When the task at the index ends with the directive to go to a name, the loop goes on, with
    -- the task's output and its state, at the first task of the scope that has the name, after the
    -- progress is saved.
    pub goto_first :
        (j : ℕ)
        → FirstNamed name tasks j
        → scope_loop rt wf ex tasks cp run_task (suc fuel) i v s
          ≡ proceed rt wf ex tasks cp (scope_loop rt wf ex tasks cp run_task fuel) j e.output t
    unfolding scope_loop
    goto_first j first = ground (arith, position_from-FirstNamed 0 name tasks j first)

    -- When no task of the scope has the name, the scope fails with the error that names it.
    pub goto_unknown :
        NoneNamed name tasks
        → scope_loop rt wf ex tasks cp run_task (suc fuel) i v s
          ≡ (fail (unknown_target ex name), t)
    unfolding scope_loop
    goto_unknown absent = ground (arith, position_from-NoneNamed 0 name tasks absent)

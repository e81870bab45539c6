-- ===== src/Engine/Keeps.antt =====
-- A relation between the states before and after that every computation of the engine keeps: the
-- conditions on the relation, and one rule for each way to build a computation.
pub mod Scope
pub mod Body
pub mod Whole
use ows_runtime_rust.Prelude.{
  push, ℕ, Bool, true, false, Result, ok, err, List, [], ◌∷◌, String, if◌then◌else◌,
}
use ows_runtime_rust.Json.{Value, Fields}
use ows_runtime_rust.Core.Error.{WorkflowError}
use ows_runtime_rust.Engine.Ir.{CompiledTask, Tasks}
use ows_runtime_rust.Engine.State.{
  State, TaskExec, Outcome, done, fail, panic, out_of_fuel, Exec, continue_with, pure, throw,
  diverge, lift, gets, observe, modify, ◌>>=◌,
}
use ows_runtime_rust.Engine.Runtime.{Runtime}

module _ {N W : Type 0} where
  -- `m` keeps `R`, whatever it ends with
  pub record Keeps {A : Type 0} (R : State N W → State N W → Type 0) (m : Exec N W A) : Type 0 where
    pub at : (s : State N W) → R s (m s).1

  -- what the engine itself does to the state
  pub record EngineFrame (R : State N W → State N W → Type 0) : Type 0 where
    pub same : (s : State N W) → R s s
    pub then_ : (s t u : State N W) → R s t → R t u → R s u
    pub world : (s : State N W) (w : W) → R s (record s { world = w })
    pub context : (s : State N W) (v : Value N) → R s (record s { context = v })
    pub loop_vars : (s : State N W) (m : Fields N) → R s (record s { loop_vars = m })
    pub ended : (s : State N W) → R s (record s { ended = true })
    pub exited : (s : State N W) (b : Bool) → R s (record s { scope_exited = b })
    pub log :
        (s : State N W) (name : String) → R s (record s { task_order = push s.task_order name })
    -- flags set for a scope and put back after it
    pub bracket :
        (s t : State N W) (b : Bool)
        → R (record s { apply_extensions = false; scope_exited = false }) t
        → R s (record t { apply_extensions = s.apply_extensions; scope_exited = b })
    -- a branch on a clone of the state
    pub cloned :
        (fork s t : State N W)
        → R
            (record s {
              loop_vars = fork.loop_vars;
              apply_extensions = fork.apply_extensions;
              scope_exited = fork.scope_exited;
            })
            t
        → R s (record t {
          loop_vars = s.loop_vars;
          apply_extensions = s.apply_extensions;
          scope_exited = s.scope_exited;
        })
    -- the state after the branches
    pub rejoined :
        (s t : State N W)
        → R s t
        → R s (record t {
          loop_vars = s.loop_vars;
          apply_extensions = s.apply_extensions;
          scope_exited = s.scope_exited;
        })

  abbrev pub AllKeep : {A : Type 0} → (State N W → State N W → Type 0) → List (Exec N W A) → Type 0
  AllKeep R [] = Unit
  AllKeep R (m ∷ ms) = Keeps R m × AllKeep R ms

  -- the runtime's combinators keep what the computations that they run keep
  pub record RuntimeKeeps (R : State N W → State N W → Type 0) (rt : Runtime N W) : Type 0 where
    pub with_timeout :
        (d : ℕ) (m : Exec N W (TaskExec N)) (s : State N W)
        → Keeps R m
        → R s (rt.with_timeout d m s).1
    pub join_all :
        (ms : List (Exec N W (Value N))) (s : State N W) → AllKeep R ms → R s (rt.join_all ms s).1
    pub join_first :
        (ms : List (Exec N W (Value N))) (s : State N W) → AllKeep R ms → R s (rt.join_first ms s).1
    pub perform :
        (t : CompiledTask N) (vars : Fields N) (run : Tasks N → Value N → Exec N W (Value N))
        (v : Value N)
        → ((ts : Tasks N) (x : Value N) → Keeps R (run ts x))
        → Keeps R (rt.perform t vars run v)

module _ {N W A : Type 0} {R : State N W → State N W → Type 0} (f : EngineFrame R) where
  pub Keeps-pure : (a : A) → Keeps R (pure a)
  unfolding pure
  Keeps-pure a = record { at = λ s. f.same s }

  pub Keeps-throw : (e : WorkflowError N) → Keeps R (throw {A = A} e)
  unfolding throw
  Keeps-throw e = record { at = λ s. f.same s }

  pub Keeps-diverge : Keeps R (diverge {A = A})
  unfolding diverge
  Keeps-diverge = record { at = λ s. f.same s }

  pub Keeps-lift : (r : Result (WorkflowError N) A) → Keeps R (lift r)
  unfolding lift
  Keeps-lift (ok a) = record { at = λ s. f.same s }
  Keeps-lift (err e) = record { at = λ s. f.same s }

  pub Keeps-gets : (g : State N W → A) → Keeps R (gets g)
  unfolding gets
  Keeps-gets g = record { at = λ s. f.same s }

  pub Keeps-observe : (g : W → A × W) → Keeps R (observe g)
  unfolding observe
  Keeps-observe g = record { at = λ s. f.world s (g s.world).1 }

  pub Keeps-if :
      (b : Bool) (m n : Exec N W A) → Keeps R m → Keeps R n → Keeps R (if b then m else n)
  Keeps-if true m n km kn = km
  Keeps-if false m n km kn = kn

module _ {N W : Type 0} {R : State N W → State N W → Type 0} where
  pub Keeps-modify :
      (g : State N W → State N W) → ((s : State N W) → R s (g s)) → Keeps R (modify g)
  unfolding modify
  Keeps-modify g h = record { at = h }

module _ {N W A B : Type 0} {R : State N W → State N W → Type 0} (f : EngineFrame R) where
  pub continue_with-Keeps :
      (g : A → Exec N W B) (o : Outcome N A) (s t : State N W)
      → R s t
      → ((a : A) → Keeps R (g a))
      → R s (continue_with g o t).1
  continue_with-Keeps g (done a) s t h k = f.then_ s t (g a t).1 h ((k a).at t)
  continue_with-Keeps g (fail e) s t h k = h
  continue_with-Keeps g panic s t h k = h
  continue_with-Keeps g out_of_fuel s t h k = h

  pub Keeps-bind :
      (m : Exec N W A) (g : A → Exec N W B)
      → Keeps R m
      → ((a : A) → Keeps R (g a))
      → Keeps R (m >>= g)
  unfolding ◌>>=◌
  Keeps-bind m g km kg = record { at = λ s. continue_with-Keeps g (m s).0 s (m s).1 (km.at s) kg }

pub ruleset keeps_rules = (
  Keeps-pure, Keeps-throw, Keeps-diverge, Keeps-lift, Keeps-gets, Keeps-observe, Keeps-if,
  Keeps-modify, Keeps-bind,
)

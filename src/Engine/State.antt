-- ===== src/Engine/State.antt =====
-- The state that the engine threads through an execution, and computations over it.
-- An `ExecContext` of engine.rs is this state with the constants of `Execution`: `context` and
-- `ended` are shared by the branches of a fork, `loop_vars`, `apply_extensions` and
-- `scope_exited` are cloned with the context. `world` stands for everything outside.
use ows_runtime_rust.Prelude.{◌≢◌, ℕ, String, Bool, Option, List, Result, ok, err}
use ows_runtime_rust.Json.{Value, Fields}
use ows_runtime_rust.Core.Error.{WorkflowError}

pub data FlowDirective : Type 0 where
  continue exit end : FlowDirective
  goto : String → FlowDirective

pub record TaskExec (N : Type 0) : Type 0 where
  pub output : Value N
  pub directive : Option FlowDirective

pub record State (N W : Type 0) : Type 0 where
  pub context : Value N
  pub ended : Bool
  pub loop_vars : Fields N
  pub apply_extensions : Bool
  pub scope_exited : Bool
  pub task_order : List String
  pub world : W

-- The constants of an execution.
pub record Execution (N : Type 0) : Type 0 where
  pub execution_id : String
  pub secrets : List (String × String)
  pub workflow_descriptor : Value N
  pub runtime_descriptor : Value N
  pub timeout : Option ℕ

-- What a computation ends with: a value, an error, or a panic of the Rust code. `out_of_fuel` is the
-- model's: the loops of the engine run on fuel.
pub data Outcome (N A : Type 0) : Type 0 where
  done : A → Outcome N A
  fail : WorkflowError N → Outcome N A
  panic : Outcome N A
  out_of_fuel : Outcome N A

abbrev pub Exec : Type 0 → Type 0 → Type 0 → Type 0
Exec N W A = State N W → Outcome N A × State N W

module _ {N W A : Type 0} where
  unfoldable pub pure : A → Exec N W A
  pure a s = (done a, s)

  unfoldable pub throw : WorkflowError N → Exec N W A
  throw e s = (fail e, s)

  unfoldable pub diverge : Exec N W A
  diverge s = (out_of_fuel, s)

  -- the `?` on a result
  unfoldable pub lift : Result (WorkflowError N) A → Exec N W A
  lift (ok a) s = (done a, s)
  lift (err e) s = (fail e, s)

  unfoldable pub gets : (State N W → A) → Exec N W A
  gets f s = (done (f s), s)

  -- an observation of the world
  unfoldable pub observe : (W → A × W) → Exec N W A
  observe f s = let (a, w) = f s.world in (done a, record s { world = w })

module _ {N W : Type 0} where
  unfoldable pub modify : (State N W → State N W) → Exec N W (Unit {0})
  modify f s = (done tt, f s)

module _ {N W A B : Type 0} where
  abbrev pub continue_with : (A → Exec N W B) → Outcome N A → Exec N W B
  continue_with f (done a) s = f a s
  continue_with f (fail e) s = (fail e, s)
  continue_with f panic s = (panic, s)
  continue_with f out_of_fuel s = (out_of_fuel, s)

  infixl 10 ◌>>=◌ ◌>>◌
  unfoldable pub ◌>>=◌ : Exec N W A → (A → Exec N W B) → Exec N W B
  ◌>>=◌ m f s = continue_with f (m s).0 (m s).1

  abbrev pub ◌>>◌ : Exec N W A → Exec N W B → Exec N W B
  m >> n = m >>= λ _. n

-- the computation ends by itself, before its fuel does
pub record Halts {N W A : Type 0} (m : Exec N W A) : Type 0 where
  pub at : (s : State N W) → (m s).0 ≢ out_of_fuel

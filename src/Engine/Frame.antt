-- ===== src/Engine/Frame.antt =====
-- What no task of the engine does to the state, over Engine/Run/Execute.antt: extensions that
-- are not enabled again, an `end` that stays set, a log of task names that only grows.
use mathlib.Core.List.{◌++◌, append-nil, append_assoc}
use ows_runtime_rust.Prelude.{push, ℕ, String, ◌≡◌, refl, sym, ap, true, List, [], ◌∷◌}
use ows_runtime_rust.Json.{Value}
use ows_runtime_rust.Engine.Ir.{CompiledTask, CompiledWorkflow}
use ows_runtime_rust.Engine.State.{State, Execution}
use ows_runtime_rust.Engine.Runtime.{Runtime}
use ows_runtime_rust.Engine.Run.Execute.{run_task}
use ows_runtime_rust.Engine.Keeps.{EngineFrame, RuntimeKeeps}
use ows_runtime_rust.Engine.Keeps.Whole.{run_task-Keeps}

module _ {N W : Type 0} where
  pub record Frame (s t : State N W) : Type 0 where
    pub extensions : t.apply_extensions ≡ true → s.apply_extensions ≡ true
    pub ended : s.ended ≡ true → t.ended ≡ true
    pub log : (rest : List String) × (t.task_order ≡ s.task_order ++ rest)

push-append : (xs : List String) (x : String) → push xs x ≡ xs ++ x ∷ []
push-append [] x = refl
push-append (y ∷ ys) x = ap (λ l. y ∷ l) (push-append ys x)

then_log :
    (a b c : List String)
    → (rest : List String) × (b ≡ a ++ rest)
    → (rest : List String) × (c ≡ b ++ rest)
    → (rest : List String) × (c ≡ a ++ rest)
then_log a b c (p, hp) (q, hq) = (p ++ q, rw (hq, hp) (append_assoc a p q))

module _ {N W : Type 0} where
  unchanged : (s : State N W) → (rest : List String) × (s.task_order ≡ s.task_order ++ rest)
  unchanged s = ([], sym (append-nil s.task_order))

  pub Frame-EngineFrame : EngineFrame {N = N} {W = W} Frame
  Frame-EngineFrame = record {
    same = λ s. record { extensions = λ e. e; ended = λ h. h; log = unchanged s };
    then_ = λ s t u h g. record {
      extensions = λ e. h.extensions (g.extensions e);
      ended = λ e. g.ended (h.ended e);
      log = then_log _ _ _ h.log g.log;
    };
    world = λ s w. record { extensions = λ e. e; ended = λ h. h; log = unchanged s };
    context = λ s v. record { extensions = λ e. e; ended = λ h. h; log = unchanged s };
    loop_vars = λ s m. record { extensions = λ e. e; ended = λ h. h; log = unchanged s };
    ended = λ s. record { extensions = λ e. e; ended = λ h. refl; log = unchanged s };
    exited = λ s b. record { extensions = λ e. e; ended = λ h. h; log = unchanged s };
    log = λ s name. record {
      extensions = λ e. e;
      ended = λ h. h;
      log = (name ∷ [], push-append s.task_order name);
    };
    bracket = λ s t b h. record { extensions = λ e. e; ended = h.ended; log = h.log };
    cloned = λ fork s t h. record { extensions = λ e. e; ended = h.ended; log = h.log };
    rejoined = λ s t h. record { extensions = λ e. e; ended = h.ended; log = h.log };
  }

module _ {N W : Type 0} (rt : Runtime N W) (k : RuntimeKeeps Frame rt) (wf : CompiledWorkflow N)
    (ex : Execution N) where
  -- Whatever a task and its nested scopes do, and however the task ends: extensions that were
  -- disabled are not enabled by it, an `end` that was set stays set, and the log of task names only
  -- grows at its end. Assumed of the runtime: what its timers, task sets and adapters run, to the
  -- end or up to where a timeout drops it, keeps this.
  pub run_task-Frame :
      (fuel : ℕ) (t : CompiledTask N) (v : Value N) (s : State N W)
      → Frame s (run_task rt wf ex fuel t v s).1
  run_task-Frame fuel t v s = (run_task-Keeps Frame-EngineFrame rt k wf ex fuel t v).at s

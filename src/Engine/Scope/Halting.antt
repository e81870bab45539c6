-- ===== src/Engine/Scope/Halting.antt =====
-- The scope loop of Engine/Scope.antt ends when no directive jumps.
use ows_runtime_rust.Prelude.{
  ℕ, zero, suc, ◌+◌, ◌-◌, ◌<◌, ◌≡◌, ◌≢◌, refl, Bool, true, false, Option, none, some, List, [], ◌∷◌,
  length, get_elem?, or_else, arith,
}
use ows_runtime_rust.Json.{Value}
use ows_runtime_rust.Engine.Ir.{CompiledTask, head, CompiledWorkflow}
use ows_runtime_rust.Engine.State.{
  FlowDirective, continue, exit, goto, TaskExec, State, Execution, Outcome, done, fail, panic,
  out_of_fuel, Exec, Halts, continue_with, pure, observe, ◌>>=◌,
}
use ows_runtime_rust.Engine.Runtime.{Runtime}
use ows_runtime_rust.Engine.Scope.{
  ScopeCheckpoint, timed, save_progress, follow, final_directive, run_at, scope_round, scope_loop,
  unless_ended, unless_cancelled,
}

abbrev pub is_goto : FlowDirective → Bool
is_goto (goto name) = true
is_goto _ = false

module _ {N W A B : Type 0} where
  pub continue_with-halts :
      (g : A → Exec N W B) (o : Outcome N A) (s : State N W)
      → o ≢ out_of_fuel
      → ((a : A) → o ≡ done a → (g a s).0 ≢ out_of_fuel)
      → (continue_with g o s).0 ≢ out_of_fuel
  continue_with-halts g (done a) s h k = k a refl
  continue_with-halts g (fail e) s h k = λ p. cc
  continue_with-halts g panic s h k = λ p. cc
  continue_with-halts g out_of_fuel s h k = absurd (h refl)

  pub Halts-bind :
      (m : Exec N W A) (g : A → Exec N W B) → Halts m → ((a : A) → Halts (g a)) → Halts (m >>= g)
  unfolding ◌>>=◌
  Halts-bind m g h k = record {
    at = λ s. continue_with-halts g (m s).0 (m s).1 (h.at s) (λ a _. (k a).at (m s).1);
  }

module _ {N W A : Type 0} where
  pub Halts-pure : (a : A) → Halts {N = N} {W = W} (pure a)
  unfolding pure
  Halts-pure a = record { at = λ s p. cc }

  pub Halts-observe : (f : W → A × W) → Halts {N = N} (observe f)
  unfolding observe
  Halts-observe f = record { at = λ s p. cc }

module _ {N W : Type 0} (rt : Runtime N W) (wf : CompiledWorkflow N) (ex : Execution N)
    (tasks : List (CompiledTask N)) (cp : Option ScopeCheckpoint)
    (run_task : CompiledTask N → Value N → Exec N W (TaskExec N)) where
  -- one task of the scope, under its timeout
  abbrev pub task_at : CompiledTask N → Value N → Exec N W (TaskExec N)
  task_at t v = timed rt wf ex (head t) (or_else (head t).timeout ex.timeout) (run_task t v)

in_range : {A : Type 0} (xs : List A) (i : ℕ) {a : A} → get_elem? xs i ≡ some a → i < length xs
in_range [] i h = cc
in_range (x ∷ xs) zero h = omega arith
in_range (x ∷ xs) (suc i) h = omega (arith, in_range xs i h)

module _ {N W : Type 0} (rt : Runtime N W) (wf : CompiledWorkflow N) (ex : Execution N)
    (tasks : List (CompiledTask N)) (cp : Option ScopeCheckpoint) where
  save_progress-Halts :
      (c : Option ScopeCheckpoint) (i : ℕ) (v : Value N) → Halts (save_progress rt wf ex c i v)
  unfolding save_progress
  save_progress-Halts none i v = Halts-pure tt
  save_progress-Halts (some c) i v = record { at = λ s. ground arith }

  module _ (loop : ℕ → Value N → Exec N W (Value N)) where
    follow-Halts :
        (i : ℕ) (v : Value N) (d : FlowDirective)
        → is_goto d ≡ false
        → ((x : Value N) → Halts (loop (i + 1) x))
        → Halts (follow rt wf ex tasks cp loop i v d)
    unfolding follow
    follow-Halts i v continue h k = Halts-bind _ _ (save_progress-Halts cp (i + 1) v) (λ _. k v)
    follow-Halts i v exit h k = record { at = λ s p. cc }
    follow-Halts i v FlowDirective.end h k = record { at = λ s p. cc }
    follow-Halts i v (goto name) h k = cc

  module _ (run_task : CompiledTask N → Value N → Exec N W (TaskExec N))
      (stops : (i : ℕ) (t : CompiledTask N) (v : Value N)
        → get_elem? tasks i ≡ some t
        → Halts (task_at rt wf ex tasks cp run_task t v))
      (forward : (i : ℕ) (t : CompiledTask N) (v : Value N) (s : State N W) (e : TaskExec N)
        → get_elem? tasks i ≡ some t
        → (task_at rt wf ex tasks cp run_task t v s).0 ≡ done e
        → is_goto (final_directive e.directive (head t).then_) ≡ false) where
    module _ (loop : ℕ → Value N → Exec N W (Value N)) (i : ℕ)
        (next : i < length tasks → (x : Value N) → Halts (loop (i + 1) x)) where
      run_at-Halts :
          (v : Value N) (o : Option (CompiledTask N))
          → get_elem? tasks i ≡ o
          → Halts (run_at rt wf ex tasks cp run_task loop i v o)
      unfolding run_at
      run_at-Halts v none h = Halts-pure v
      run_at-Halts v (some t) h = record {
        at = λ s. continue_with-halts _ _ _ ((stops i t v h).at s) λ e r.
            (follow-Halts loop i e.output _ (forward i t v s e h r) (next (in_range tasks i h))).at
              _;
      }

      scope_round-Halts : (v : Value N) → Halts (scope_round rt wf ex tasks cp run_task loop i v)
      unfolding scope_round
      scope_round-Halts v = Halts-bind _ _ (Halts-observe rt.is_cancelled) gate
        where
          unless : (b : Bool) → Halts (unless_ended rt wf ex tasks cp run_task loop i v b)
          unless true = Halts-pure v
          unless false = run_at-Halts v _ refl

          gate : (b : Bool) → Halts (unless_cancelled rt wf ex tasks cp run_task loop i v b)
          gate true = record { at = λ s p. cc }
          gate false = record { at = λ s. (unless s.ended).at s }

    -- When every task of a scope ends and no task's directive is a jump, the loop of the scope ends
    -- from any index and state within a number of rounds above the number of tasks left, whatever
    -- the tasks fail with and whatever is cancelled.
    pub scope_loop-Halts :
        (fuel i : ℕ) (v : Value N) (s : State N W)
        → length tasks - i < fuel
        → (scope_loop rt wf ex tasks cp run_task fuel i v s).0 ≢ out_of_fuel
    unfolding scope_loop
    scope_loop-Halts zero i v s h = absurd (omega arith)
    scope_loop-Halts (suc fuel) i v s h =
        (scope_round-Halts (scope_loop rt wf ex tasks cp run_task fuel) i
            (λ below x. record { at = λ u. scope_loop-Halts fuel (i + 1) x u (omega arith) }) v).at
          s

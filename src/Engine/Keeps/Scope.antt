-- ===== src/Engine/Keeps/Scope.antt =====
-- The scope loop of Engine/Scope.antt keeps every engine frame that its tasks keep.
use ows_runtime_rust.Prelude.{ℕ, zero, suc, String, Bool, true, false, Option, none, some, List}
use ows_runtime_rust.Json.{Value}
use ows_runtime_rust.Engine.Ir.{CompiledTask, TaskHead, head, CompiledWorkflow}
use ows_runtime_rust.Engine.State.{
  FlowDirective, continue, exit, goto, State, Execution, TaskExec, Outcome, Exec, throw,
}
use ows_runtime_rust.Engine.Runtime.{Runtime}
use ows_runtime_rust.Engine.Eval.{context_value_sync, variables, eval_in, transform_in}
use ows_runtime_rust.Engine.Scope.{
  ScopeCheckpoint, persist_checkpoint, save_progress, finish_timed, timed, proceed, jump, follow,
  run_at, unless_ended, unless_cancelled, scope_round, scope_loop, exec_scope, start_of,
}
use ows_runtime_rust.Engine.Keeps.{
  Keeps, EngineFrame, RuntimeKeeps, Keeps-pure, Keeps-modify, Keeps-bind, keeps_rules,
}

module _ {N W : Type 0} {R : State N W → State N W → Type 0} (f : EngineFrame R) (rt : Runtime N W)
    (k : RuntimeKeeps R rt) (ex : Execution N) where
  pub context_value_sync-Keeps : Keeps R (context_value_sync rt)
  unfolding context_value_sync
  context_value_sync-Keeps = search (keeps_rules, f)

  pub variables-Keeps :
      (input output : Value N) (t : Option (Value N)) → Keeps R (variables rt ex input output t)
  unfolding variables
  variables-Keeps input output t = search (keeps_rules, f, context_value_sync-Keeps)

  pub eval_in-Keeps :
      (t : Option (TaskHead N)) (src : String) (input : Value N)
      → Keeps R (eval_in rt ex t src input)
  unfolding eval_in
  eval_in-Keeps t src input = search (keeps_rules, f, variables-Keeps)

  pub transform_in-Keeps :
      (t : Option (TaskHead N)) (src : Option String) (input : Value N)
      → Keeps R (transform_in rt ex t src input)
  unfolding transform_in
  transform_in-Keeps t none input = search (keeps_rules, f)
  transform_in-Keeps t (some src) input = eval_in-Keeps t src input

module _ {N W : Type 0} {R : State N W → State N W → Type 0} (f : EngineFrame R) (rt : Runtime N W)
    (k : RuntimeKeeps R rt) (wf : CompiledWorkflow N) (ex : Execution N) where
  persist_checkpoint-Keeps :
      (started_at index : ℕ) (input : Value N)
      → Keeps R (persist_checkpoint rt wf ex started_at index input)
  unfolding persist_checkpoint
  persist_checkpoint-Keeps started_at index input =
      Keeps-bind f _ _ (context_value_sync-Keeps f rt k ex) λ context. search (keeps_rules, f)

  save_progress-Keeps :
      (cp : Option ScopeCheckpoint) (index : ℕ) (input : Value N)
      → Keeps R (save_progress rt wf ex cp index input)
  unfolding save_progress
  save_progress-Keeps none index input = search (keeps_rules, f)
  save_progress-Keeps (some cp) index input = persist_checkpoint-Keeps cp.started_at index input

  finish_timed-at :
      (t : TaskHead N) (o : Option (Outcome N (TaskExec N))) (s u : State N W)
      → R s u
      → R s (finish_timed rt wf ex t o u).1
  unfolding finish_timed throw
  finish_timed-at t none s u h = h
  finish_timed-at t (some o) s u h = h

  timed-Keeps :
      (t : TaskHead N) (d : Option ℕ) (m : Exec N W (TaskExec N))
      → Keeps R m
      → Keeps R (timed rt wf ex t d m)
  unfolding timed
  timed-Keeps t none m h = record { at = λ s. h.at s }
  timed-Keeps t (some d) m h = record {
    at = λ s.
        finish_timed-at t (rt.with_timeout d m s).0 s (rt.with_timeout d m s).1
          (k.with_timeout d m s h);
  }

  module _ (tasks : List (CompiledTask N)) (cp : Option ScopeCheckpoint)
      (loop : ℕ → Value N → Exec N W (Value N))
      (kl : (i : ℕ) (v : Value N) → Keeps R (loop i v)) where
    proceed-Keeps : (i : ℕ) (v : Value N) → Keeps R (proceed rt wf ex tasks cp loop i v)
    unfolding proceed
    proceed-Keeps i v = search (keeps_rules, f, save_progress-Keeps, kl)

    jump-Keeps :
        (name : String) (o : Option ℕ) (v : Value N)
        → Keeps R (jump rt wf ex tasks cp loop name o v)
    unfolding jump
    jump-Keeps name none v = search (keeps_rules, f)
    jump-Keeps name (some i) v = proceed-Keeps i v

    follow-Keeps :
        (i : ℕ) (v : Value N) (d : FlowDirective) → Keeps R (follow rt wf ex tasks cp loop i v d)
    unfolding follow
    follow-Keeps i v continue = proceed-Keeps _ v
    follow-Keeps i v (goto name) = jump-Keeps name _ v
    follow-Keeps i v exit =
        Keeps-bind f _ _ (Keeps-modify _ (λ s. f.exited s true)) (λ _. Keeps-pure f v)
    follow-Keeps i v FlowDirective.end =
        Keeps-bind f _ _ (Keeps-modify _ (λ s. f.ended s)) (λ _. Keeps-pure f v)

  module _ (tasks : List (CompiledTask N)) (cp : Option ScopeCheckpoint)
      (run_task : CompiledTask N → Value N → Exec N W (TaskExec N))
      (kt : (t : CompiledTask N) (v : Value N) → Keeps R (run_task t v)) where
    module _ (loop : ℕ → Value N → Exec N W (Value N))
        (kl : (i : ℕ) (v : Value N) → Keeps R (loop i v)) where
      run_at-Keeps :
          (i : ℕ) (v : Value N) (t : Option (CompiledTask N))
          → Keeps R (run_at rt wf ex tasks cp run_task loop i v t)
      unfolding run_at
      run_at-Keeps i v none = search (keeps_rules, f)
      run_at-Keeps i v (some t) =
          Keeps-bind f _ _ (timed-Keeps (head t) _ _ (kt t v))
            (λ e. follow-Keeps tasks cp loop kl i _ _)

      unless_ended-Keeps :
          (i : ℕ) (v : Value N) (b : Bool)
          → Keeps R (unless_ended rt wf ex tasks cp run_task loop i v b)
      unfolding unless_ended
      unless_ended-Keeps i v true = search (keeps_rules, f)
      unless_ended-Keeps i v false = run_at-Keeps i v _

      unless_cancelled-Keeps :
          (i : ℕ) (v : Value N) (b : Bool)
          → Keeps R (unless_cancelled rt wf ex tasks cp run_task loop i v b)
      unfolding unless_cancelled
      unless_cancelled-Keeps i v true = search (keeps_rules, f)
      unless_cancelled-Keeps i v false = search (keeps_rules, f, unless_ended-Keeps)

      scope_round-Keeps :
          (i : ℕ) (v : Value N) → Keeps R (scope_round rt wf ex tasks cp run_task loop i v)
      unfolding scope_round
      scope_round-Keeps i v = search (keeps_rules, f, unless_cancelled-Keeps)

    pub scope_loop-Keeps :
        (fuel i : ℕ) (v : Value N) → Keeps R (scope_loop rt wf ex tasks cp run_task fuel i v)
    unfolding scope_loop
    scope_loop-Keeps zero i v = search (keeps_rules, f)
    scope_loop-Keeps (suc fuel) i v = scope_round-Keeps _ (scope_loop-Keeps fuel) i v

    pub exec_scope-Keeps :
        (fuel : ℕ) (v : Value N) → Keeps R (exec_scope rt wf ex tasks cp run_task fuel v)
    unfolding exec_scope
    exec_scope-Keeps fuel v = scope_loop-Keeps fuel (start_of cp) v

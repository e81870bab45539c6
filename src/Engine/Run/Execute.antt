-- ===== src/Engine/Run/Execute.antt =====
-- `execute_with` of crates/ows-runtime/src/engine.rs. Its scopes and tasks run one another: one
-- fuel bounds the nesting of tasks and the rounds of each scope.
use ows_runtime_rust.Prelude.{ℕ, zero, suc, String, true, false, Option, none, some, List, [], ◌∷◌}
use ows_runtime_rust.Json.{Value, null, number, string, object, end, insert}
use ows_runtime_rust.Core.Phase.{completed}
use ows_runtime_rust.Engine.Ir.{CompiledTask, CompiledWorkflow, list_of_tasks}
use ows_runtime_rust.Engine.State.{
  State, Execution, TaskExec, Outcome, done, fail, panic, out_of_fuel, Exec, pure, diverge, lift,
  modify, observe, ◌>>=◌, ◌>>◌,
}
use ows_runtime_rust.Engine.Runtime.{Runtime}
use ows_runtime_rust.Engine.Eval.{eval_expr, validate_schema, variables, transform_in}
use ows_runtime_rust.Engine.Scope.{ScopeCheckpoint, exec_scope}
use ows_runtime_rust.Engine.Task.{exec_task}
use ows_runtime_rust.Engine.Run.Persist.{persist_started, persist_terminal, phase_of_kind}

pub record ResumeState (N : Type 0) : Type 0 where
  pub next_index : ℕ
  pub input : Value N
  pub context : Value N

pub record ExecutionOptions (N : Type 0) : Type 0 where
  pub execution_id : Option String
  pub resume : Option (ResumeState N)

module _ {N W : Type 0} where
  -- the state of a new `ExecContext`; the log of task names belongs to the runtime
  abbrev pub fresh_state : List String → W → State N W
  fresh_state task_order w = record {
    context = null;
    ended = false;
    loop_vars = end;
    apply_extensions = true;
    scope_exited = false;
    task_order = task_order;
    world = w;
  }

module _ {N W : Type 0} (rt : Runtime N W) (wf : CompiledWorkflow N) where
  module _ (ex : Execution N) where
    -- a task with its nested scopes
    unfoldable pub run_task : ℕ → CompiledTask N → Value N → Exec N W (TaskExec N)
    unfolding exec_task exec_scope diverge
    run_task zero t input = diverge
    run_task (suc fuel) t input =
        exec_task rt wf ex fuel (run_task fuel)
          (λ tasks v. exec_scope rt wf ex (list_of_tasks tasks) none (run_task fuel) fuel v) t input

    -- the top-level scope
    unfoldable pub run_top : ℕ → ScopeCheckpoint → Value N → Exec N W (Value N)
    unfolding run_task exec_scope
    run_top fuel cp input =
        exec_scope rt wf ex (list_of_tasks wf.tasks) (some cp) (run_task fuel) fuel input

    unfoldable pub apply_workflow_input : Value N → Exec N W (Value N)
    unfolding transform_in lift ◌>>=◌
    apply_workflow_input raw_input = do
      lift (validate_schema rt wf.input.schema raw_input "/input")
      transform_in rt ex none wf.input.transform raw_input

    unfoldable pub transform_out : Option String → Value N → Exec N W (Value N)
    unfolding variables lift pure ◌>>=◌
    transform_out none raw_output = pure raw_output
    transform_out (some src) raw_output = do
      vars ← variables rt ex null raw_output none
      lift (eval_expr rt src raw_output vars none)

    unfoldable pub apply_workflow_output : Value N → Exec N W (Value N)
    unfolding transform_out lift pure ◌>>=◌
    apply_workflow_output raw_output = do
      transformed ← transform_out wf.output.transform raw_output
      lift (validate_schema rt wf.output.schema transformed "/output")
      pure transformed

    abbrev set_context : Value N → State N W → State N W
    set_context v s = record s { context = v }

    -- the input and the first index of the top-level scope
    unfoldable pub enter : Value N → ℕ → Option (ResumeState N) → Exec N W (Value N × ℕ)
    unfolding apply_workflow_input persist_started modify pure ◌>>=◌
    enter raw_input started_at (some resume) = do
      modify (set_context resume.context)
      pure (resume.input, resume.next_index)
    enter raw_input started_at none = do
      modify (λ s. record s { world = rt.publish_started ex.execution_id started_at s.world })
      transformed ← apply_workflow_input raw_input
      modify (set_context transformed)
      persist_started rt wf ex started_at
      pure (transformed, 0)

    unfoldable pub complete : ℕ → Value N → Exec N W (Value N)
    unfolding persist_terminal observe modify pure ◌>>=◌
    complete started_at v = do
      now ← observe rt.epoch_seconds
      modify (λ s. record s { world = rt.publish_completed ex.execution_id now s.world })
      persist_terminal rt wf ex completed none started_at
      pure v

    -- the terminal phase is persisted, and a completion published
    unfoldable pub conclude : ℕ → Outcome N (Value N) → Exec N W (Value N)
    unfolding complete persist_terminal phase_of_kind
    conclude started_at (done v) s = complete started_at v s
    conclude started_at (fail e) s =
        (fail e, (persist_terminal rt wf ex (phase_of_kind e.kind) (some e) started_at s).1)
    conclude started_at panic s = (panic, s)
    conclude started_at out_of_fuel s = (out_of_fuel, s)

    -- the scope and the output pipeline; an error of either is caught by `conclude`
    unfoldable pub run_body : ℕ → ℕ → Value N × ℕ → Exec N W (Value N)
    unfolding run_top apply_workflow_output ◌>>=◌
    run_body fuel started_at entry = do
      output ← run_top fuel (record { start_index = entry.1; started_at = started_at }) entry.0
      apply_workflow_output output

    unfoldable pub run_execution : ℕ → Value N → ℕ → Option (ResumeState N) → Exec N W (Value N)
    unfolding enter run_body conclude ◌>>=◌
    run_execution fuel raw_input started_at resume = do
      entry ← enter raw_input started_at resume
      (λ s. let (o, s') = run_body fuel started_at entry s in conclude started_at o s')

  -- the declared secrets that the resolver provides
  unfoldable pub resolve_workflow_secrets : List String → List (String × String)
  resolve_workflow_secrets [] = []
  resolve_workflow_secrets (name ∷ names) =
      let rest = resolve_workflow_secrets names in
      elim (rt.resolve_secret name) [ none ↦ rest | some value ↦ (name, value) ∷ rest ]

  unfoldable pub execution_of : Value N → String → ℕ → Value N → Execution N
  unfolding resolve_workflow_secrets
  execution_of runtime_info id started_at raw_input = record {
    execution_id = id;
    secrets = resolve_workflow_secrets wf.secrets;
    workflow_descriptor = object (
        insert "id" (string id) (
          insert "definition" wf.definition (
            insert "input" raw_input (insert "startedAt" (number (rt.number_of started_at)) end))));
    runtime_descriptor = runtime_info;
    timeout = wf.timeout;
  }

  abbrev pub id_or_new : Option String → W → String × W
  id_or_new (some id) w = (id, w)
  id_or_new none w = rt.new_uuid w

  unfoldable pub execute_with :
      ℕ → Value N → Value N → ExecutionOptions N → List String → W → Outcome N (Value N) × State N W
  unfolding run_execution execution_of
  execute_with fuel runtime_info raw_input options task_order w =
      let (id, w1) = id_or_new options.execution_id w in
      let (started_at, w2) = rt.epoch_seconds w1 in
      run_execution (execution_of runtime_info id started_at raw_input) fuel raw_input started_at
        options.resume (fresh_state task_order w2)

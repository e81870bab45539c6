-- ===== src/Engine/Run/Recovery.antt =====
-- What a resumption makes of what an execution has left in its store, over Engine/Run/Resume.antt.
use ows_runtime_rust.Prelude.{
  ℕ, String, ◌≡◌, refl, ap, ◌∙◌, Option, some, List, ok, unwrap_or, true, arith, false,
}
use ows_runtime_rust.Json.{Value, null, get, insert, end}
use ows_runtime_rust.Core.Phase.{Phase, completed, is_terminal}
use ows_runtime_rust.Core.Store.{ExecutionRecord, InMemoryExecutionStore, load}
use ows_runtime_rust.Core.Store.Lookup.{load-update_same}
use ows_runtime_rust.Core.Error.{WorkflowError, ErrorKind}
use ows_runtime_rust.Engine.Ir.{CompiledWorkflow, list_of_tasks}
use ows_runtime_rust.Engine.State.{
  State, Execution, Outcome, done, fail, observe, modify, pure, ◌>>=◌,
}
use ows_runtime_rust.Engine.Runtime.{Runtime}
use ows_runtime_rust.Engine.Scope.{
  checkpoint_record, workflow_key, pointer_of, persist_checkpoint, scope_loop, exec_scope,
}
use ows_runtime_rust.Engine.Run.Persist.{phase_of_kind}
use ows_runtime_rust.Engine.Run.Execute.{
  execute_with, conclude, execution_of, run_execution, enter, run_task, run_top,
  apply_workflow_output,
}
use ows_runtime_rust.Engine.Run.Resume.{resume, resume_state, not_resumable, find_workflow}
use ows_runtime_rust.Engine.Task.{run_body}
use ows_runtime_rust.Engine.Run.Conclusion.{StoreView, Concluded, concluded}

module _ {N W : Type 0} (rt : Runtime N W) (wf : CompiledWorkflow N) (ex : Execution N) where
  -- A checkpoint is read back as it was written: the index, the input and the context.
  checkpoint_round_trip :
      (started_at next_index : ℕ) (input context : Value N)
      → rt.as_u64 (rt.number_of next_index) ≡ some next_index
      → resume_state rt (checkpoint_record rt wf ex started_at next_index input context)
        ≡ record { next_index = next_index; input = input; context = context }
  unfolding resume_state checkpoint_record pointer_of get insert
  checkpoint_round_trip started_at next_index input context exact =
      ap (λ o. record { next_index = unwrap_or o 0; input = input; context = context }) exact

  -- what a resumption does with the record of a checkpoint
  resume_checkpoint :
      (registry : List (String × CompiledWorkflow N)) (info : Value N) (fuel : ℕ)
      (log : List String) (started_at next_index : ℕ) (input context : Value N) (w w' : W)
      → rt.as_u64 (rt.number_of next_index) ≡ some next_index
      → find_workflow rt (workflow_key wf) registry ≡ some wf
      → rt.store_load ex.execution_id w
        ≡ (ok (some (checkpoint_record rt wf ex started_at next_index input context)), w')
      → resume rt registry info fuel log ex.execution_id w
        ≡ execute_with rt wf fuel info null
            (record {
              execution_id = some ex.execution_id;
              resume = some (record { next_index = next_index; input = input; context = context });
            })
            log
            (rt.new_token w')
  unfolding resume
  resume_checkpoint registry info fuel log started_at next_index input context w w' exact found
        read =
      rw (read, found)
        (ap
          (λ r.
            execute_with rt wf fuel info null
              (record { execution_id = some ex.execution_id; resume = some r }) log
              (rt.new_token w'))
          (checkpoint_round_trip started_at next_index input context exact))

  module _ (view : W → InMemoryExecutionStore N) (laws : StoreView rt view) where
    checkpoint-stored :
        (started_at next_index : ℕ) (input : Value N) (s : State N W)
        → (rt.lock_is_free s.world).0 ≡ true
        → load ex.execution_id
            (view (persist_checkpoint rt wf ex started_at next_index input s).1.world)
          ≡ some (checkpoint_record rt wf ex started_at next_index input s.context)
    unfolding persist_checkpoint observe pure ◌>>=◌ checkpoint_record
    checkpoint-stored started_at next_index input s free =
        let r = checkpoint_record rt wf ex started_at next_index input s.context in
        rw free (ap (load ex.execution_id) (laws.updated r _) ∙ load-update_same r _)

    module _ (registry : List (String × CompiledWorkflow N)) (info : Value N) (fuel : ℕ)
        (log : List String) where
      terminal_refused :
          (w : W) (r : ExecutionRecord N)
          → load ex.execution_id (view w) ≡ some r
          → is_terminal r.phase ≡ true
          → (resume rt registry info fuel log ex.execution_id w).0
            ≡ fail (not_resumable rt ex.execution_id r.phase)
      unfolding resume
      terminal_refused w r found over = rw (laws.loaded, found, over) refl

      phase_of_kind-is_terminal : (k : ErrorKind) → is_terminal (phase_of_kind k) ≡ true
      unfolding phase_of_kind is_terminal
      phase_of_kind-is_terminal k = ground arith

      -- An execution whose run has been concluded, with a value or an error, is never run again: to
      -- resume it in the world that is left fails with the error that names its terminal phase. An
      -- error before the first record, in the stage of the workflow's input, is not concluded.
      pub finished_not_resumed :
          (started_at : ℕ) (s : State N W)
          → ((v : Value N)
              → (resume rt registry info fuel log ex.execution_id
                  (conclude rt wf ex started_at (done v) s).1.world).0
                ≡ fail (not_resumable rt ex.execution_id completed))
            × ((e : WorkflowError N)
                → (resume rt registry info fuel log ex.execution_id
                    (conclude rt wf ex started_at (fail e) s).1.world).0
                  ≡ fail (not_resumable rt ex.execution_id (phase_of_kind e.kind)))
      unfolding is_terminal
      finished_not_resumed started_at s = (
        (λ v. refused _ _ _ _ ((concluded rt wf ex view laws started_at s).0 v) refl),
        λ e.
            refused _ _ _ _ ((concluded rt wf ex view laws started_at s).1 e)
              (phase_of_kind-is_terminal e.kind),
      )
        where
          refused :
              (o : Outcome N (Value N)) (phase : Phase) (error : Option (WorkflowError N))
              (r : Outcome N (Value N) × State N W)
              → Concluded rt wf ex view laws o phase error r
              → is_terminal phase ≡ true
              → (resume rt registry info fuel log ex.execution_id r.1.world).0
                ≡ fail (not_resumable rt ex.execution_id phase)
          refused o phase error r c over =
              terminal_refused r.1.world c.stored c.is_stored (ap is_terminal c.with_phase ∙ over)
              ∙ ap (λ p. fail (not_resumable rt ex.execution_id p)) c.with_phase

      -- The run that goes on under the id of the execution from an index, an input and a context in
      -- a world: the loop of the top scope from that index, the stage of the workflow's output, and
      -- the conclusion. All else starts anew: the time of the start, the raw input, which is null,
      -- and the variables.
      abbrev pub continued : ℕ → Value N → Value N → W → Outcome N (Value N) × State N W
      continued next_index input context w =
          let (now, w') = rt.epoch_seconds w in
          let run = execution_of rt wf info ex.execution_id now null in
          let top =
            scope_loop rt wf run (list_of_tasks wf.tasks)
              (some (record { start_index = next_index; started_at = now }))
              (run_task rt wf run fuel) fuel next_index input in
          let (o, t) = (top >>= apply_workflow_output rt wf run) (record {
            context = context;
            ended = false;
            loop_vars = end;
            apply_extensions = true;
            scope_exited = false;
            task_order = log;
            world = w';
          }) in
          conclude rt wf run now o t

      execute_with-continued :
          (next_index : ℕ) (input context : Value N) (w : W)
          → execute_with rt wf fuel info null
              (record {
                execution_id = some ex.execution_id;
                resume =
                    some (record { next_index = next_index; input = input; context = context });
              })
              log
              w
            ≡ continued next_index input context w
      unfolding execute_with run_execution enter run_body run_top exec_scope modify pure ◌>>=◌
      execute_with-continued next_index input context w = refl

      -- After a checkpoint of the top scope is persisted while the context is not locked, to resume
      -- the execution in the world that is left goes on under the same id from the index, the
      -- input and the context that the checkpoint was taken at: no task before the index runs, and
      -- neither does the stage of the workflow's input. The raw input and the time of the start
      -- are not restored. Assumed: the workflow is registered, and the index is read back from its
      -- JSON number.
      pub checkpoint_resumes :
          (started_at next_index : ℕ) (input : Value N) (s : State N W)
          → (rt.lock_is_free s.world).0 ≡ true
          → rt.as_u64 (rt.number_of next_index) ≡ some next_index
          → find_workflow rt (workflow_key wf) registry ≡ some wf
          → let w = (persist_checkpoint rt wf ex started_at next_index input s).1.world in
            resume rt registry info fuel log ex.execution_id w
            ≡ continued next_index input s.context
                (rt.new_token (rt.store_load ex.execution_id w).1)
      checkpoint_resumes started_at next_index input s free exact found =
          let w = (persist_checkpoint rt wf ex started_at next_index input s).1.world in
          let stored =
            laws.loaded ex.execution_id w
            ∙ ap ok (checkpoint-stored started_at next_index input s free) in
          resume_checkpoint registry info fuel log started_at next_index input s.context w _ exact
            found (ap (λ r. (r, (rt.store_load ex.execution_id w).1)) stored)
          ∙ execute_with-continued next_index input s.context _

-- ===== src/Engine/Run/Conclusion.antt =====
-- What the end of a run leaves in the store, for Engine/Run/Execute.antt. The store of the runtime
-- is assumed to behave like the in-memory one of Core/Store.antt.
use ows_runtime_rust.Prelude.{
  ℕ, String, ◌≡◌, refl, ap, ◌∙◌, Option, some, none, ok, Bool-cases, inl, inr, arith, ◌≢◌,
}
use ows_runtime_rust.Json.{Value, null}
use ows_runtime_rust.Core.Phase.{Phase, completed, cancelled, faulted}
use ows_runtime_rust.Core.Store.{
  ExecutionRecord, StoredEvent, InMemoryExecutionStore, load, update, append_event,
}
use ows_runtime_rust.Core.Store.Lookup.{store_keeps, load-update_same}
use ows_runtime_rust.Core.Error.{WorkflowError, ErrorKind}
use ows_runtime_rust.Engine.Ir.{CompiledWorkflow}
use ows_runtime_rust.Engine.State.{
  State, Execution, Outcome, done, fail, observe, modify, pure, ◌>>=◌,
}
use ows_runtime_rust.Engine.Runtime.{Runtime}
use ows_runtime_rust.Engine.Run.Persist.{
  phase_of_kind, persist_terminal, error_value, execution_record,
}
use ows_runtime_rust.Engine.Run.Execute.{conclude, complete}

-- the world has a store that behaves like the in-memory one, and the clock leaves it alone
pub record StoreView {N W : Type 0} (rt : Runtime N W) (view : W → InMemoryExecutionStore N)
    : Type 0 where
  pub updated : (r : ExecutionRecord N) (w : W) → view (rt.store_update r w).1 ≡ update r (view w)
  pub appended :
      (e : StoredEvent N) (w : W) → view (rt.store_append_event e w).1 ≡ append_event e (view w)
  pub loaded : (id : String) (w : W) → (rt.store_load id w).0 ≡ ok (load id (view w))
  pub clocked : (w : W) → view (rt.epoch_seconds w).1 ≡ view w

module _ {N W : Type 0} (rt : Runtime N W) (wf : CompiledWorkflow N) (ex : Execution N)
    (view : W → InMemoryExecutionStore N) (laws : StoreView rt view) where
  -- the computation ends with `o`, and the store has a record of the phase and the error
  pub record Concluded {A : Type 0} (o : Outcome N A) (phase : Phase)
      (error : Option (WorkflowError N)) (r : Outcome N A × State N W) : Type 0 where
    pub outcome : r.0 ≡ o
    pub stored : ExecutionRecord N
    pub is_stored : load ex.execution_id (view r.1.world) ≡ some stored
    pub with_phase : stored.phase ≡ phase
    pub with_error : stored.error ≡ error_value rt wf ex error

  stored_last :
      (r : ExecutionRecord N) (e : StoredEvent N) (w : W)
      → let after = (rt.store_append_event e (rt.epoch_seconds (rt.store_update r w).1).1).1 in
        load r.execution_id (view after) ≡ some r
  stored_last r e w =
      let (_, _, _, _, on_append, _) = store_keeps (update r (view w)) r e r.execution_id in
      let viewed = laws.appended e _ ∙ ap (append_event e) (laws.clocked _ ∙ laws.updated r w) in
      ap (load r.execution_id) viewed ∙ on_append ∙ load-update_same r (view w)

  persist_terminal-Concluded :
      (phase : Phase) (error : Option (WorkflowError N)) (started_at : ℕ) (s : State N W)
      → Concluded (done tt) phase error (persist_terminal rt wf ex phase error started_at s)
  unfolding persist_terminal
  persist_terminal-Concluded phase error started_at s =
      elim (Bool-cases (rt.lock_is_free s.world).0) [
        | inl free ↦ record {
          outcome = rw free refl;
          stored = record_with s.context;
          is_stored = rw free (stored_last (record_with s.context) _ _);
          with_phase = refl;
          with_error = refl;
        }
        | inr taken ↦ record {
          outcome = rw taken refl;
          stored = record_with null;
          is_stored = rw taken (stored_last (record_with null) _ _);
          with_phase = refl;
          with_error = refl;
        }
      ]
    where
      record_with : Value N → ExecutionRecord N
      record_with c = execution_record rt wf ex c null phase (error_value rt wf ex error) started_at

  -- the record that a run leaves
  pub concluded :
      (started_at : ℕ) (s : State N W)
      → ((v : Value N)
          → Concluded (done v) completed none (conclude rt wf ex started_at (done v) s))
        × ((e : WorkflowError N)
            → Concluded
                (fail e)
                (phase_of_kind e.kind)
                (some e)
                (conclude rt wf ex started_at (fail e) s))
  unfolding conclude complete observe modify pure ◌>>=◌
  concluded started_at s = (
    (λ v.
        let (now, w) = rt.epoch_seconds s.world in
        let u : State N W = record s { world = rt.publish_completed ex.execution_id now w } in
        let p = persist_terminal-Concluded completed none started_at u in
        record {
          outcome = rw p.outcome refl;
          stored = p.stored;
          is_stored = rw p.outcome p.is_stored;
          with_phase = p.with_phase;
          with_error = p.with_error;
        }),
    λ e.
        let p = persist_terminal-Concluded (phase_of_kind e.kind) (some e) started_at s in
        record {
          outcome = refl;
          stored = p.stored;
          is_stored = p.is_stored;
          with_phase = p.with_phase;
          with_error = p.with_error;
        },
  )

  -- When the run of an execution ends with a value or an error, its record in the store has the
  -- terminal phase that goes with it, and the error if there is one: completed for a value,
  -- cancelled for a cancellation, faulted for any other error. The outcome is passed on.
  pub conclude_records :
      (started_at : ℕ) (s : State N W) (v : Value N) (stop e : WorkflowError N)
      → stop.kind ≡ ErrorKind.cancelled
      → e.kind ≢ ErrorKind.cancelled
      → Concluded (done v) completed none (conclude rt wf ex started_at (done v) s)
        × Concluded (fail stop) cancelled (some stop) (conclude rt wf ex started_at (fail stop) s)
        × Concluded (fail e) faulted (some e) (conclude rt wf ex started_at (fail e) s)
  unfolding phase_of_kind
  conclude_records started_at s v stop e is_stop is_other =
      let (values, errors) = concluded started_at s in
      (
        values v,
        in_phase _ _ _ _ (errors stop) (ap phase_of_kind is_stop),
        in_phase _ _ _ _ (errors e) (other_kind e.kind is_other),
      )
    where
      in_phase :
          (f : WorkflowError N) (p q : Phase) (r : Outcome N (Value N) × State N W)
          → Concluded (fail f) p (some f) r
          → p ≡ q
          → Concluded (fail f) q (some f) r
      in_phase f p q r c h = record {
        outcome = c.outcome;
        stored = c.stored;
        is_stored = c.is_stored;
        with_phase = c.with_phase ∙ h;
        with_error = c.with_error;
      }

      other_kind : (k : ErrorKind) → k ≢ ErrorKind.cancelled → phase_of_kind k ≡ faulted
      other_kind k h = ground (arith, h)

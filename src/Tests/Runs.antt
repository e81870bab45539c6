-- ===== src/Tests/Runs.antt =====
-- Whole executions at concrete inputs.
use ows_runtime_rust.Prelude.{ℕ, ◌≡◌, refl, some, none, [], ◌∷◌, List, String, Option, arith, ◌≢◌}
use ows_runtime_rust.Json.{Value, null, number}
use ows_runtime_rust.Tests.World.{World, test_runtime, test_execution, test_state, test_workflow}
use ows_runtime_rust.Engine.Run.Recovery.{finished_not_resumed, checkpoint_resumes, continued}
use ows_runtime_rust.Engine.Run.Conclusion.{StoreView, Concluded, conclude_records}
use ows_runtime_rust.Core.Store.{ExecutionRecord}
use ows_runtime_rust.Engine.Run.Resume.{find_workflow, resume, not_resumable}
use ows_runtime_rust.Core.Error.{
  WorkflowError, runtime_error, cancelled_error, error_new, problem_standard, with_detail,
  ErrorKind,
}
use ows_runtime_rust.Engine.Scope.{checkpoint_record, workflow_key, persist_checkpoint}
use ows_runtime_rust.Engine.Run.Execute.{conclude}
use ows_runtime_rust.Engine.State.{done, fail, Outcome}
use ows_runtime_rust.Core.Phase.{completed, Phase, cancelled, faulted}
use ows_runtime_rust.Engine.Run.Persist.{phase_of_kind}
use ows_runtime_rust.Engine.Ir.{CompiledWorkflow}

test_world-StoreView : StoreView test_runtime (λ w. w)
test_world-StoreView = record {
  updated = λ r w. refl;
  appended = λ e w. refl;
  loaded = λ id w. refl;
  clocked = λ w. refl;
}

abbrev checkpoint : ExecutionRecord ℕ
checkpoint = checkpoint_record test_runtime test_workflow test_execution 7 1 null (number 3)

abbrev checkpoint_world : World
checkpoint_world = record { records = ("e1", checkpoint) ∷ []; log = [] }

abbrev registry : List (String × CompiledWorkflow ℕ)
registry = ("ns/wf/1", test_workflow) ∷ []

registered : find_workflow test_runtime (workflow_key test_workflow) registry ≡ some test_workflow
unfolding find_workflow workflow_key
registered = refl

abbrev broken : WorkflowError ℕ
broken = runtime_error "broken"

abbrev ConcludedInTest : Outcome ℕ (Value ℕ) → Phase → Option (WorkflowError ℕ) → Type 0
ConcludedInTest o phase error =
    Concluded test_runtime test_workflow test_execution (λ w. w) test_world-StoreView o phase error
      (conclude test_runtime test_workflow test_execution 7 o test_state)

is_cancelled : (cancelled_error {N = ℕ}).kind ≡ ErrorKind.cancelled
unfolding cancelled_error error_new problem_standard
is_cancelled = refl

is_not_cancelled : broken.kind ≢ ErrorKind.cancelled
unfolding runtime_error error_new with_detail problem_standard
is_not_cancelled e = absurd (ground (arith, e))

conclude_records_example :
    ConcludedInTest (done null) completed none
    × ConcludedInTest (fail cancelled_error) cancelled (some cancelled_error)
    × ConcludedInTest (fail broken) faulted (some broken)
conclude_records_example =
    conclude_records test_runtime test_workflow test_execution (λ w. w) test_world-StoreView 7
      test_state null cancelled_error broken is_cancelled is_not_cancelled

finished_not_resumed_example :
    ((v : Value ℕ)
      → (resume test_runtime registry null 5 [] "e1"
          (conclude test_runtime test_workflow test_execution 7 (done v) test_state).1.world).0
        ≡ fail (not_resumable test_runtime "e1" completed))
    × ((e : WorkflowError ℕ)
        → (resume test_runtime registry null 5 [] "e1"
            (conclude test_runtime test_workflow test_execution 7 (fail e) test_state).1.world).0
          ≡ fail (not_resumable test_runtime "e1" (phase_of_kind e.kind)))
finished_not_resumed_example =
    finished_not_resumed test_runtime test_workflow test_execution (λ w. w) test_world-StoreView
      registry null 5 [] 7 test_state

checkpoint_resumes_example :
    let w =
      (persist_checkpoint test_runtime test_workflow test_execution 7 1 null test_state).1.world in
    resume test_runtime registry null 5 [] "e1" w
    ≡ continued test_runtime test_workflow test_execution
        (λ w. w)
        test_world-StoreView
        registry
        null
        5
        []
        1
        null
        (number 3)
        w
checkpoint_resumes_example =
    checkpoint_resumes test_runtime test_workflow test_execution (λ w. w) test_world-StoreView
      registry null 5 [] 7 1 null test_state refl refl registered

-- ===== src/Tests/Tries.antt =====
-- The `try` task of Engine/Tasks/Try.antt and its delays at concrete inputs.
use ows_runtime_rust.Prelude.{
  refl, ℕ, List, ◌≤◌, none, min, some, ◌≡◌, ◌+◌, ◌∷◌, arith, [], suc, String, ap, length, push,
}
use ows_runtime_rust.Tests.World.{World, test_runtime, test_execution, test_state, test_context}
use ows_runtime_rust.Engine.Ir.{RetryPolicyDef, CatchDef, exponential}
use ows_runtime_rust.Engine.State.{Exec, Halts, fail, done, State}
use ows_runtime_rust.Engine.Tasks.Try.{task_try, catch_matches}
use ows_runtime_rust.Engine.Tasks.Delay.{backoff_delay, compute_delay, duration_max}
use ows_runtime_rust.Json.{Value, number, insert, Fields}
use ows_runtime_rust.Core.Error.{runtime_error, to_problem_json}
use ows_runtime_rust.Engine.Tasks.Try.Attempts.{caught, task_try-Halts, task_try_once}
use ows_runtime_rust.Engine.Tasks.Delay.Bounds.{
  compute_delay_bounds, exponential_exact, jitter_bounds,
}
use ows_runtime_rust.Engine.Tasks.Try.Count.{Counter, Raises, task_try_attempts}

abbrev retry_policy : RetryPolicyDef
retry_policy = record {
  when = none;
  except_when = none;
  delay = some 1000;
  backoff = exponential;
  jitter = some (10, 20);
  attempt_count = some 2;
  attempt_duration = none;
  retry_duration = none;
}

abbrev catch_all : CatchDef ℕ
catch_all = record {
  filter = none;
  as_ = none;
  when = none;
  except_when = none;
  retry = none;
  then_ = none;
}

abbrev failing : Exec ℕ World (Value ℕ)
failing s = (fail (runtime_error "broken"), s)

abbrev succeeding : Exec ℕ World (Value ℕ)
succeeding s = (done (number 1), s)

failing-Halts : Halts failing
failing-Halts = record { at = λ s p. cc }

succeeding-Halts : Halts succeeding
succeeding-Halts = record { at = λ s p. cc }

abbrev bound_error : Fields ℕ
bound_error =
    insert "error" (to_problem_json test_runtime.number_of (runtime_error "broken"))
      test_state.loop_vars

task_try_once_example :
    task_try test_runtime test_execution catch_all test_context failing succeeding 1 test_state
    ≡ caught test_runtime test_execution catch_all test_context failing succeeding
        (catch_matches test_runtime catch_all (runtime_error "broken") test_context bound_error)
        (runtime_error "broken")
        (record test_state { loop_vars = bound_error })
task_try_once_example =
    task_try_once test_runtime test_execution catch_all test_context failing succeeding 0 test_state
      test_state (runtime_error "broken") refl refl refl

task_try-Halts_example : Halts (
    task_try test_runtime test_execution
      (record catch_all { retry = some retry_policy })
      test_context
      failing
      succeeding
      3)
task_try-Halts_example =
    task_try-Halts test_runtime test_execution (record catch_all { retry = some retry_policy })
      test_context failing succeeding failing-Halts succeeding-Halts 3 (omega arith)

compute_delay_bounds_example :
    (1000 ≤ compute_delay retry_policy 3 (λ n. n))
    × (compute_delay retry_policy 3 (λ n. n) ≤ duration_max)
compute_delay_bounds_example =
    compute_delay_bounds retry_policy 3 (λ n. n) (omega arith) (omega arith) (omega arith)

exponential_exact_example : backoff_delay exponential 1000 4 ≡ 8000
exponential_exact_example = exponential_exact 1000 3 (omega arith) (omega arith)

jitter_bounds_example :
    let plain = backoff_delay retry_policy.backoff 1000 3 in
    (min (plain + 10) duration_max ≤ compute_delay retry_policy 3 (λ n. n))
    × (compute_delay retry_policy 3 (λ n. n) ≤ plain + 20)
jitter_bounds_example = jitter_bounds retry_policy 3 10 20 (λ n. n) refl (omega arith) (omega arith)

abbrev runs_logged : State ℕ World → ℕ
runs_logged s = length s.task_order

runs_logged-Counter : Counter runs_logged
runs_logged-Counter = record { world = λ s w. refl; loop_vars = λ s m. refl }

abbrev logging : Exec ℕ World (Value ℕ)
logging s = (fail (runtime_error "broken"), record s { task_order = push s.task_order "body" })

length-push : (xs : List String) (x : String) → length (push xs x) ≡ suc (length xs)
length-push [] x = refl
length-push (y ∷ xs) x = ap suc (length-push xs x)

logging-Raises : Raises runs_logged 1 logging
logging-Raises = record { at = λ s. omega (arith, length-push s.task_order "body") }

succeeding-Raises : Raises runs_logged 0 succeeding
succeeding-Raises = record { at = λ s. omega arith }

task_try_attempts_example :
    runs_logged
      (task_try test_runtime test_execution
        (record catch_all { retry = some retry_policy })
        test_context
        logging
        succeeding
        9
        test_state).1
    ≤ 3
task_try_attempts_example =
    task_try_attempts test_runtime test_execution (record catch_all { retry = some retry_policy })
      test_context logging succeeding runs_logged runs_logged-Counter logging-Raises
      succeeding-Raises 9 test_state

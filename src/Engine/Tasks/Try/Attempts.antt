-- ===== src/Engine/Tasks/Try/Attempts.antt =====
-- How often the `try` task of Engine/Tasks/Try.antt runs its body, and what it does with an error.
use ows_runtime_rust.Prelude.{
  ℕ, zero, suc, ◌+◌, ◌<◌, ◌≡◌, ◌≢◌, refl, Bool, true, false, ◌&&◌, Option, none, some, Result, ok,
  err, arith, unwrap_or,
}
use ows_runtime_rust.Json.{Value, insert}
use ows_runtime_rust.Core.Error.{WorkflowError, to_problem_json}
use ows_runtime_rust.Engine.Ir.{CatchDef, RetryPolicyDef}
use ows_runtime_rust.Engine.State.{
  State, Execution, Outcome, done, fail, panic, out_of_fuel, Exec, Halts, modify, lift, ◌>>=◌,
  observe, gets, throw,
}
use ows_runtime_rust.Engine.Runtime.{Runtime}
use ows_runtime_rust.Engine.Eval.{ExpressionContext}
use ows_runtime_rust.Engine.Scope.Halting.{Halts-bind, Halts-observe, Halts-pure}
use ows_runtime_rust.Engine.Tasks.Simple.{wait_with_cancel}
use ows_runtime_rust.Engine.Tasks.Try.{
  retry_delay, task_try, attempts_left, try_loop, set_error_var, retry_or_handle, handle_matched,
  handle_error, after_body, attempt_body, catch_matches, retryable,
}

-- the attempts after the first that a policy allows
abbrev pub attempts_allowed : Option RetryPolicyDef → ℕ
attempts_allowed none = 0
attempts_allowed (some retry) = unwrap_or retry.attempt_count 0

module _ {N W : Type 0} (rt : Runtime N W) where
  pub attempts_left-lt :
      (retry : Option RetryPolicyDef) (i : ℕ)
      → attempts_left rt retry i ≡ true
      → i < attempts_allowed retry
  attempts_left-lt retry i h = ground arith

module _ {N W : Type 0} (rt : Runtime N W) (ex : Execution N) where
  wait_with_cancel-Halts : (d : ℕ) → Halts (wait_with_cancel rt ex d)
  unfolding wait_with_cancel
  wait_with_cancel-Halts d = record { at = λ s. ground arith }

  retry_delay-Halts : (retry : Option RetryPolicyDef) (i : ℕ) → Halts (retry_delay rt retry i)
  unfolding retry_delay
  retry_delay-Halts none i = Halts-pure 0
  retry_delay-Halts (some retry) i = record { at = λ s. ground arith }

module _ {N W A : Type 0} where
  Halts-lift : (r : Result (WorkflowError N) A) → Halts {W = W} (lift r)
  unfolding lift
  Halts-lift (ok a) = record { at = λ s p. cc }
  Halts-lift (err e) = record { at = λ s p. cc }

module _ {N W : Type 0} (rt : Runtime N W) (ex : Execution N) (catch : CatchDef N)
    (c : ExpressionContext N) (body handle : Exec N W (Value N)) where
  -- what becomes of an error without retries: the outcome of the catch's tests decides
  abbrev pub caught : Result (WorkflowError N) Bool → WorkflowError N → Exec N W (Value N)
  caught (ok true) e u = handle u
  caught (ok false) e u = (fail e, u)
  caught (err x) e u = (fail x, u)

  handle_matched-once :
      (loop : ℕ → Exec N W (Value N)) (e : WorkflowError N) (u : State N W)
      → catch.retry ≡ none
      → (m : Result (WorkflowError N) Bool)
      → ((lift m) >>= handle_matched rt ex catch c body handle loop 0 e) u ≡ caught m e u
  unfolding lift ◌>>=◌ handle_matched retry_or_handle gets throw
  handle_matched-once loop e u once (ok true) = rw once refl
  handle_matched-once loop e u once (ok false) = refl
  handle_matched-once loop e u once (err x) = refl

  first_attempt :
      (fuel : ℕ) (s t : State N W) (e : WorkflowError N)
      → catch.retry ≡ none
      → (rt.is_cancelled s.world).0 ≡ false
      → body (record s { world = (rt.is_cancelled s.world).1 }) ≡ (fail e, t)
      → let u = set_error_var rt ex catch c body handle e t in
        try_loop rt ex catch c body handle (suc fuel) 0 s
        ≡ caught (catch_matches rt catch e c u.loop_vars) e u
  unfolding try_loop attempt_body after_body handle_error observe ◌>>=◌ gets modify
  first_attempt fuel s t e once live failed =
      rw (live, failed)
        (handle_matched-once (λ i. try_loop rt ex catch c body handle fuel i) e _ once
          (catch_matches rt catch e c _))

  -- Without a retry policy, when the execution is not cancelled and the body fails: the error is
  -- bound to its variable as problem details, under the name that `as` gives or `error`; then, if the filter, `when` and `exceptWhen` accept the error, the
  -- handler runs, if they reject it, the task fails with that same error, and if a condition
  -- cannot be evaluated, with the error of the condition.
  pub task_try_once :
      (fuel : ℕ) (s t : State N W) (e : WorkflowError N)
      → catch.retry ≡ none
      → (rt.is_cancelled s.world).0 ≡ false
      → body (record s { world = (rt.is_cancelled s.world).1 }) ≡ (fail e, t)
      → let problem = to_problem_json rt.number_of e in
        let vars = insert (unwrap_or catch.as_ "error") problem t.loop_vars in
        task_try rt ex catch c body handle (suc fuel) s
        ≡ caught (catch_matches rt catch e c vars) e (record t { loop_vars = vars })
  unfolding task_try set_error_var
  task_try_once fuel s t e once live failed = first_attempt fuel s t e once live failed

  module _ (halts_body : Halts body) (halts_handle : Halts handle) where
    module _ (loop : ℕ → Exec N W (Value N)) (i : ℕ)
        (next : attempts_left rt catch.retry i ≡ true → Halts (loop (i + 1))) where
      retry_or_handle-Halts :
          (again left : Bool)
          → attempts_left rt catch.retry i ≡ left
          → Halts (retry_or_handle rt ex catch c body handle loop i (again && left))
      unfolding retry_or_handle
      retry_or_handle-Halts true true e =
          Halts-bind _ _ (retry_delay-Halts rt ex catch.retry (i + 1))
            λ d. Halts-bind _ _ (wait_with_cancel-Halts rt ex d) (λ _. next e)
      retry_or_handle-Halts true false e = halts_handle
      retry_or_handle-Halts false left e = halts_handle

      handle_matched-Halts :
          (e : WorkflowError N) (b : Bool)
          → Halts (handle_matched rt ex catch c body handle loop i e b)
      unfolding handle_matched
      handle_matched-Halts e false = record { at = λ s p. cc }
      handle_matched-Halts e true = record {
        at = λ s.
            (Halts-bind _ _ (Halts-lift (retryable rt catch.retry c s.loop_vars))
                (λ again. retry_or_handle-Halts again _ refl)).at
              s;
      }

      handle_error-Halts :
          (e : WorkflowError N) → Halts (handle_error rt ex catch c body handle loop i e)
      unfolding handle_error
      handle_error-Halts e = record {
        at = λ s.
            let u = set_error_var rt ex catch c body handle e s in
            (Halts-bind _ _ (Halts-lift (catch_matches rt catch e c u.loop_vars))
                (handle_matched-Halts e)).at
              u;
      }

      after_body-halts :
          (o : Outcome N (Value N)) (s : State N W)
          → o ≢ out_of_fuel
          → (after_body rt ex catch c body handle loop i o s).0 ≢ out_of_fuel
      unfolding after_body
      after_body-halts (fail e) s h = (handle_error-Halts e).at s
      after_body-halts (done v) s h = λ p. cc
      after_body-halts panic s h = λ p. cc
      after_body-halts out_of_fuel s h = absurd (h refl)

      attempt_body-Halts : (b : Bool) → Halts (attempt_body rt ex catch c body handle loop i b)
      unfolding attempt_body
      attempt_body-Halts true = record { at = λ s p. cc }
      attempt_body-Halts false = record {
        at = λ s. after_body-halts (body s).0 (body s).1 (halts_body.at s);
      }

    try_loop-Halts :
        (fuel i : ℕ)
        → 0 < fuel
        → attempts_allowed catch.retry < fuel + i
        → Halts (try_loop rt ex catch c body handle fuel i)
    unfolding try_loop
    try_loop-Halts zero i pos enough = absurd (omega arith)
    try_loop-Halts (suc fuel) i pos enough = Halts-bind _ _ (Halts-observe rt.is_cancelled) (
        attempt_body-Halts (try_loop rt ex catch c body handle fuel) i λ left.
          try_loop-Halts fuel (i + 1) (omega (arith, attempts_left-lt rt catch.retry i left))
            (omega arith))

    -- When the body and the handler end by themselves, so does the task: one round more than the
    -- retry policy allows attempts is enough.
    pub task_try-Halts :
        (fuel : ℕ)
        → attempts_allowed catch.retry < fuel
        → Halts (task_try rt ex catch c body handle fuel)
    unfolding task_try
    task_try-Halts fuel enough = try_loop-Halts fuel 0 (omega arith) (omega arith)

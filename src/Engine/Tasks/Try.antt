-- ===== src/Engine/Tasks/Try.antt =====
-- The `try` task of crates/ows-runtime/src/tasks.rs: its catch filter, its retries and its handler.
-- The loop over the attempts takes fuel.
pub mod Attempts
pub mod Count
use ows_runtime_rust.Prelude.{
  ℕ, zero, suc, ◌+◌, ◌-◌, ◌/◌, String, Bool, true, false, not, ◌&&◌, Option, none, some, Result, ok,
  err, unwrap_or, ltb, str_eq, if◌then◌else◌,
}
use ows_runtime_rust.Json.{
  Value, null, number, string, Fields, end, field, get, insert, extend, values_equal,
}
use ows_runtime_rust.Core.Error.{WorkflowError, to_problem_json}
use ows_runtime_rust.Engine.Ir.{CatchDef, RetryPolicyDef}
use ows_runtime_rust.Engine.State.{
  State, Outcome, done, fail, panic, out_of_fuel, Execution, Exec, pure, throw, diverge, lift, gets,
  modify, observe, ◌>>=◌, ◌>>◌,
}
use ows_runtime_rust.Engine.Runtime.{Runtime}
use ows_runtime_rust.Engine.Eval.{ExpressionContext, as_variable_map, is_truthy, eval_expr}
use ows_runtime_rust.Engine.Scope.{cancelled_in}
use ows_runtime_rust.Engine.Tasks.Simple.{wait_with_cancel}
use ows_runtime_rust.Engine.Tasks.Delay.{compute_delay}

module _ {N : Type 0} where
  abbrev string_or_empty : Option String → Value N
  string_or_empty o = string (unwrap_or o "")

  abbrev extension_member : String → Option (Fields N) → Value N
  extension_member key none = null
  extension_member key (some m) = unwrap_or (get key m) null

module _ {N W : Type 0} (rt : Runtime N W) where
  -- the member of the error that a filter key names
  unfoldable pub error_member : WorkflowError N → String → Value N
  error_member e key =
      let p = e.problem in
      if str_eq key "type"
      then string p.type_
      else if str_eq key "status"
      then number (rt.number_of p.status)
      else if str_eq key "title"
      then string p.title
      else if str_eq key "detail"
      then string_or_empty p.detail
      else if str_eq key "instance"
      then string_or_empty p.instance_
      else extension_member key p.extensions

  -- every entry of the filter equals the error's member
  unfoldable pub filter_matches : WorkflowError N → Fields N → Bool
  unfolding error_member
  filter_matches e end = true
  filter_matches e (field key expected rest) =
      values_equal rt.number_eq (error_member e key) expected && filter_matches e rest

  abbrev passes_filter : WorkflowError N → Option (Fields N) → Bool
  passes_filter e none = true
  passes_filter e (some filter) = filter_matches e filter

  -- an optional condition, `absent` where there is none
  abbrev condition : Bool → Option String → Fields N → Result (WorkflowError N) Bool
  condition absent none vars = ok absent
  condition absent (some cond) vars = elim (eval_expr rt cond null vars none) [
    | ok v ↦ ok (is_truthy v)
    | err e ↦ err e
  ]

  -- `when` holds and `exceptWhen` does not; the second is evaluated only if the first holds
  unfoldable pub conditions_hold :
      Option String → Option String → Fields N → Result (WorkflowError N) Bool
  conditions_hold when except_when vars = elim (condition true when vars) [
    | err e ↦ err e
    | ok false ↦ ok false
    | ok true ↦ elim (condition false except_when vars) [ err e ↦ err e | ok b ↦ ok (not b) ]
  ]

  unfoldable pub catch_matches :
      CatchDef N → WorkflowError N → ExpressionContext N → Fields N → Result (WorkflowError N) Bool
  unfolding filter_matches conditions_hold
  catch_matches catch e c loop_vars =
      if passes_filter e catch.filter
      then conditions_hold catch.when catch.except_when (extend (as_variable_map c) loop_vars)
      else ok false

  abbrev pub retryable :
      Option RetryPolicyDef → ExpressionContext N → Fields N → Result (WorkflowError N) Bool
  retryable none c loop_vars = ok false
  retryable (some retry) c loop_vars =
      conditions_hold retry.when retry.except_when (extend (as_variable_map c) loop_vars)

  -- `attempt < limit`, and no attempts without a limit
  abbrev pub attempts_left : Option RetryPolicyDef → ℕ → Bool
  attempts_left none attempt = false
  attempts_left (some retry) attempt = elim retry.attempt_count [
    | none ↦ false
    | some limit ↦ ltb attempt limit
  ]

  -- the delay before the next attempt; a random number is drawn only for a jitter
  unfoldable pub jittered : RetryPolicyDef → ℕ → Option (ℕ × ℕ) → Exec N W ℕ
  unfolding observe pure ◌>>=◌
  jittered retry attempt none = pure (compute_delay retry attempt (λ n. n))
  jittered retry attempt (some (from, to)) = do
    millis ← observe (rt.scale_random ((to - from) / 1000000))
    pure (compute_delay retry attempt (λ _. millis))

  unfoldable pub retry_delay : Option RetryPolicyDef → ℕ → Exec N W ℕ
  unfolding jittered pure
  retry_delay none attempt = pure 0
  retry_delay (some retry) attempt = jittered retry attempt retry.jitter

  module _ (ex : Execution N) (catch : CatchDef N) (c : ExpressionContext N)
      (run_body : Exec N W (Value N)) (run_handler : Exec N W (Value N)) where
    unfoldable pub set_error_var : WorkflowError N → State N W → State N W
    set_error_var e s = record s {
      loop_vars = insert (unwrap_or catch.as_ "error") (to_problem_json rt.number_of e) s.loop_vars;
    }

    -- another attempt after the delay, or the handler
    unfoldable pub retry_or_handle : (ℕ → Exec N W (Value N)) → ℕ → Bool → Exec N W (Value N)
    unfolding retry_delay wait_with_cancel ◌>>=◌
    retry_or_handle loop attempt false = run_handler
    retry_or_handle loop attempt true = do
      delay ← retry_delay catch.retry (attempt + 1)
      wait_with_cancel rt ex delay
      loop (attempt + 1)

    -- an error that the catch does not match is passed on
    unfoldable pub handle_matched :
        (ℕ → Exec N W (Value N)) → ℕ → WorkflowError N → Bool → Exec N W (Value N)
    unfolding retry_or_handle lift gets throw ◌>>=◌
    handle_matched loop attempt e false = throw e
    handle_matched loop attempt e true = do
      loop_vars ← gets (λ s. s.loop_vars)
      again ← lift (retryable catch.retry c loop_vars)
      retry_or_handle loop attempt (again && attempts_left catch.retry attempt)

    unfoldable pub handle_error :
        (ℕ → Exec N W (Value N)) → ℕ → WorkflowError N → Exec N W (Value N)
    unfolding set_error_var catch_matches handle_matched lift gets modify ◌>>=◌
    handle_error loop attempt e = do
      modify (set_error_var e)
      loop_vars ← gets (λ s. s.loop_vars)
      matched ← lift (catch_matches catch e c loop_vars)
      handle_matched loop attempt e matched

    unfoldable pub after_body :
        (ℕ → Exec N W (Value N)) → ℕ → Outcome N (Value N) → Exec N W (Value N)
    unfolding handle_error
    after_body loop attempt (fail e) s = handle_error loop attempt e s
    after_body loop attempt (done v) s = (done v, s)
    after_body loop attempt panic s = (panic, s)
    after_body loop attempt out_of_fuel s = (out_of_fuel, s)

    unfoldable pub attempt_body : (ℕ → Exec N W (Value N)) → ℕ → Bool → Exec N W (Value N)
    unfolding after_body cancelled_in throw
    attempt_body loop attempt true s = throw (cancelled_in ex) s
    attempt_body loop attempt false s = let (o, s') = run_body s in after_body loop attempt o s'

    unfoldable pub try_loop : ℕ → ℕ → Exec N W (Value N)
    unfolding attempt_body observe diverge ◌>>=◌
    try_loop zero attempt = diverge
    try_loop (suc fuel) attempt = do
      cancelled ← observe rt.is_cancelled
      attempt_body (try_loop fuel) attempt cancelled

    unfoldable pub task_try : ℕ → Exec N W (Value N)
    unfolding try_loop
    task_try fuel = try_loop fuel 0

-- ===== src/Engine/Tasks/Try/Count.antt =====
-- How often the `try` task of Engine/Tasks/Try.antt runs its body, by a count kept in the state.
use ows_runtime_rust.Prelude.{
  refl, ◌&&◌, ◌-◌, ◌/◌, ℕ, zero, suc, ◌+◌, ◌≤◌, ◌≡◌, Bool, true, false, Option, none, some, Result,
  ok, err, arith,
}
use ows_runtime_rust.Json.{Value, Fields}
use ows_runtime_rust.Core.Error.{WorkflowError}
use ows_runtime_rust.Engine.Ir.{CatchDef, RetryPolicyDef}
use ows_runtime_rust.Engine.State.{
  State, Execution, Outcome, done, fail, panic, out_of_fuel, Exec, observe, lift, pure, throw,
  continue_with, ◌>>=◌,
}
use ows_runtime_rust.Engine.Runtime.{Runtime}
use ows_runtime_rust.Engine.Eval.{ExpressionContext}
use ows_runtime_rust.Engine.Tasks.Simple.{wait_with_cancel, slept}
use ows_runtime_rust.Engine.Tasks.Try.{
  retry_delay, jittered, task_try, try_loop, retry_or_handle, handle_matched, handle_error,
  after_body, attempt_body, set_error_var, catch_matches, retryable, attempts_left,
}
use ows_runtime_rust.Engine.Tasks.Delay.{compute_delay}
use ows_runtime_rust.Engine.Tasks.Try.Attempts.{attempts_allowed, attempts_left-lt}

-- a count in the state that neither the world nor the loop variables have a part in
pub record Counter {N W : Type 0} (μ : State N W → ℕ) : Type 0 where
  pub world : (s : State N W) (w : W) → μ (record s { world = w }) ≡ μ s
  pub loop_vars : (s : State N W) (m : Fields N) → μ (record s { loop_vars = m }) ≡ μ s

-- the computation raises the count by `k` at most
pub record Raises {N W A : Type 0} (μ : State N W → ℕ) (k : ℕ) (m : Exec N W A) : Type 0 where
  pub at : (s : State N W) → μ (m s).1 ≤ k + μ s

module _ {N W A B : Type 0} {μ : State N W → ℕ} where
  continue_with-Raises :
      (j : ℕ) (g : A → Exec N W B) (o : Outcome N A) (s : State N W)
      → ((a : A) → Raises μ j (g a))
      → μ (continue_with g o s).1 ≤ j + μ s
  continue_with-Raises j g (done a) s k = (k a).at s
  continue_with-Raises j g (fail e) s k = omega arith
  continue_with-Raises j g panic s k = omega arith
  continue_with-Raises j g out_of_fuel s k = omega arith

  -- a first step that leaves the count
  Raises-bind :
      (j : ℕ) (m : Exec N W A) (g : A → Exec N W B)
      → Raises μ 0 m
      → ((a : A) → Raises μ j (g a))
      → Raises μ j (m >>= g)
  unfolding ◌>>=◌
  Raises-bind j m g h k = record {
    at = λ s. omega (arith, h.at s, continue_with-Raises j g (m s).0 (m s).1 k);
  }

module _ {N W A : Type 0} {μ : State N W → ℕ} where
  Raises-observe : Counter μ → (f : W → A × W) → Raises μ 0 (observe f)
  unfolding observe
  Raises-observe c f = record { at = λ s. omega (arith, c.world s (f s.world).1) }

  Raises-lift : (r : Result (WorkflowError N) A) → Raises μ 0 (lift r)
  unfolding lift
  Raises-lift (ok a) = record { at = λ s. omega arith }
  Raises-lift (err e) = record { at = λ s. omega arith }

  Raises-pure : (j : ℕ) (a : A) → Raises μ j (pure a)
  unfolding pure
  Raises-pure j a = record { at = λ s. omega arith }

  Raises-throw : (j : ℕ) (e : WorkflowError N) → Raises μ j (throw {A = A} e)
  unfolding throw
  Raises-throw j e = record { at = λ s. omega arith }

module _ {N W : Type 0} (rt : Runtime N W) (ex : Execution N) {μ : State N W → ℕ}
    (c : Counter μ) where
  slept-Raises : (b : Bool) → Raises μ 0 (slept rt ex b)
  unfolding slept
  slept-Raises true = Raises-throw 0 _
  slept-Raises false = Raises-pure 0 tt

  wait_with_cancel-Raises : (d : ℕ) → Raises μ 0 (wait_with_cancel rt ex d)
  unfolding wait_with_cancel
  wait_with_cancel-Raises d = Raises-bind 0 _ _ (Raises-observe c rt.is_cancelled) λ b.
      Raises-bind 0 _ _ (slept-Raises b)
        λ _. Raises-bind 0 _ _ (Raises-observe c (rt.sleep_or_cancel d)) slept-Raises

  jittered-Raises :
      (retry : RetryPolicyDef) (i : ℕ) (o : Option (ℕ × ℕ)) → Raises μ 0 (jittered rt retry i o)
  unfolding jittered
  jittered-Raises retry i none = Raises-pure 0 _
  jittered-Raises retry i (some (from, to)) =
      Raises-bind 0 _ _ (Raises-observe c (rt.scale_random ((to - from) / 1000000)))
        (λ n. Raises-pure 0 (compute_delay retry i (λ _. n)))

  retry_delay-Raises : (retry : Option RetryPolicyDef) (i : ℕ) → Raises μ 0 (retry_delay rt retry i)
  unfolding retry_delay
  retry_delay-Raises none i = Raises-pure 0 0
  retry_delay-Raises (some retry) i = jittered-Raises retry i retry.jitter

module _ {N W : Type 0} (rt : Runtime N W) (ex : Execution N) (catch : CatchDef N)
    (ctx : ExpressionContext N) (body handle : Exec N W (Value N)) (μ : State N W → ℕ)
    (c : Counter μ) (once : Raises μ 1 body) (never : Raises μ 0 handle) where
  module _ (loop : ℕ → Exec N W (Value N)) (k i : ℕ)
      (next : attempts_left rt catch.retry i ≡ true → Raises μ k (loop (i + 1))) where
    retry_or_handle-Raises :
        (again left : Bool)
        → attempts_left rt catch.retry i ≡ left
        → Raises μ k (retry_or_handle rt ex catch ctx body handle loop i (again && left))
    unfolding retry_or_handle
    retry_or_handle-Raises false left e = record { at = λ s. omega (arith, never.at s) }
    retry_or_handle-Raises true false e = record { at = λ s. omega (arith, never.at s) }
    retry_or_handle-Raises true true e =
        Raises-bind k _ _ (retry_delay-Raises rt ex c catch.retry (i + 1))
          λ d. Raises-bind k _ _ (wait_with_cancel-Raises rt ex c d) (λ _. next e)

    handle_matched-Raises :
        (e : WorkflowError N) (b : Bool)
        → Raises μ k (handle_matched rt ex catch ctx body handle loop i e b)
    unfolding handle_matched
    handle_matched-Raises e false = Raises-throw k e
    handle_matched-Raises e true = record {
      at = λ s.
          (Raises-bind k _ _ (Raises-lift (retryable rt catch.retry ctx s.loop_vars))
              (λ again. retry_or_handle-Raises again _ refl)).at
            s;
    }

    handle_error-Raises :
        (e : WorkflowError N) → Raises μ k (handle_error rt ex catch ctx body handle loop i e)
    unfolding handle_error set_error_var
    handle_error-Raises e = record {
      at = λ s.
          let u = set_error_var rt ex catch ctx body handle e s in
          let bound : μ u ≡ μ s = c.loop_vars s _ in
          omega (
            arith,
            bound,
            (Raises-bind k _ _ (Raises-lift (catch_matches rt catch e ctx u.loop_vars))
                  (handle_matched-Raises e)).at
                u,
          );
    }

    after_body-Raises :
        (o : Outcome N (Value N)) (s : State N W)
        → μ (after_body rt ex catch ctx body handle loop i o s).1 ≤ k + μ s
    unfolding after_body
    after_body-Raises (fail e) s = (handle_error-Raises e).at s
    after_body-Raises (done v) s = omega arith
    after_body-Raises panic s = omega arith
    after_body-Raises out_of_fuel s = omega arith

    attempt_body-Raises :
        (b : Bool) → Raises μ (suc k) (attempt_body rt ex catch ctx body handle loop i b)
    unfolding attempt_body
    attempt_body-Raises true = Raises-throw (suc k) _
    attempt_body-Raises false = record {
      at = λ s. omega (arith, once.at s, after_body-Raises (body s).0 (body s).1);
    }

  -- from attempt `i` on, with `k` attempts left
  try_loop-Raises :
      (fuel i k : ℕ)
      → attempts_allowed catch.retry ≤ k + i
      → Raises μ (suc k) (try_loop rt ex catch ctx body handle fuel i)
  unfolding try_loop
  try_loop-Raises zero i k h = record { at = λ s. omega arith }
  try_loop-Raises (suc fuel) i zero h = Raises-bind 1 _ _ (Raises-observe c rt.is_cancelled) (
      attempt_body-Raises (try_loop rt ex catch ctx body handle fuel) 0 i
        (λ left. absurd (omega (arith, attempts_left-lt rt catch.retry i left))))
  try_loop-Raises (suc fuel) i (suc k) h =
      Raises-bind (suc (suc k)) _ _ (Raises-observe c rt.is_cancelled) (
        attempt_body-Raises (try_loop rt ex catch ctx body handle fuel) (suc k) i
          (λ left. try_loop-Raises fuel (i + 1) k (omega arith)))

  -- Whatever fuel it has, a try task runs its body at most once more often than the retry policy
  -- allows attempts, and once without a policy: no count in the state that a run of the body raises
  -- by at most one, and the handler not at all, is raised by more.
  pub task_try_attempts :
      (fuel : ℕ) (s : State N W)
      → μ (task_try rt ex catch ctx body handle fuel s).1 ≤ attempts_allowed catch.retry + 1 + μ s
  unfolding task_try
  task_try_attempts fuel s =
      omega (arith, (try_loop-Raises fuel 0 (attempts_allowed catch.retry) (omega arith)).at s)

-- ===== src/Engine/Keeps/Body.antt =====
-- The task bodies of Engine/Tasks keep every engine frame that their scopes keep.
use ows_runtime_rust.Prelude.{
  ℕ, ◌+◌, String, Bool, true, false, Option, none, some, List, [], ◌∷◌, suc, zero,
}
use ows_runtime_rust.Json.{Value}
use ows_runtime_rust.Engine.Ir.{ForDef, CompiledTask, CatchDef, RetryPolicyDef}
use ows_runtime_rust.Engine.State.{
  State, Execution, Exec, modify, TaskExec, Outcome, fail, done, panic, out_of_fuel,
}
use ows_runtime_rust.Engine.Runtime.{Runtime}
use ows_runtime_rust.Engine.Tasks.Simple.{slept, wait_with_cancel, task_wait}
use ows_runtime_rust.Engine.Tasks.For.{
  bind_item, unbind, while_holds, next_iteration, iterate, unless_cancelled_for, for_loop, task_for,
}
use ows_runtime_rust.Engine.Keeps.{
  Keeps, EngineFrame, RuntimeKeeps, Keeps-modify, Keeps-observe, Keeps-bind, keeps_rules, AllKeep,
}
use ows_runtime_rust.Engine.Keeps.Scope.{variables-Keeps}
use ows_runtime_rust.Engine.Tasks.Try.{
  jittered, retry_delay, retry_or_handle, handle_matched, set_error_var, handle_error, after_body,
  attempt_body, try_loop, task_try,
}
use ows_runtime_rust.Engine.Eval.{ExpressionContext}
use ows_runtime_rust.Engine.Tasks.Fork.{
  branch_of, join_branches, task_fork, branches_of, on_clone, on_clones, rejoin,
}
use ows_runtime_rust.Core.Error.{WorkflowError}

module _ {N W : Type 0} {R : State N W → State N W → Type 0} (f : EngineFrame R) (rt : Runtime N W)
    (k : RuntimeKeeps R rt) (ex : Execution N) where
  slept-Keeps : (b : Bool) → Keeps R (slept rt ex b)
  unfolding slept
  slept-Keeps true = search (keeps_rules, f)
  slept-Keeps false = search (keeps_rules, f)

  pub wait_with_cancel-Keeps : (d : ℕ) → Keeps R (wait_with_cancel rt ex d)
  unfolding wait_with_cancel
  wait_with_cancel-Keeps d = search (keeps_rules, f, slept-Keeps)

  pub task_wait-Keeps : (d : ℕ) → Keeps R (task_wait rt ex d)
  unfolding task_wait
  task_wait-Keeps d = search (keeps_rules, f, wait_with_cancel-Keeps)

  module _ (def : ForDef) (run_body : Value N → Exec N W (Value N))
      (kb : (v : Value N) → Keeps R (run_body v)) where
    while_holds-Keeps :
        (cond : Option String) (v : Value N) → Keeps R (while_holds rt ex def run_body cond v)
    unfolding while_holds
    while_holds-Keeps none v = search (keeps_rules, f)
    while_holds-Keeps (some src) v = search (keeps_rules, f, variables-Keeps f rt k ex)

    next_iteration-Keeps :
        (rest : Exec N W (Value N)) (v : Value N) (b : Bool)
        → Keeps R rest
        → Keeps R (next_iteration rt ex def run_body rest v b)
    unfolding next_iteration
    next_iteration-Keeps rest v true h = search (keeps_rules, f)
    next_iteration-Keeps rest v false h = h

    iterate-Keeps :
        (rest : Value N → Value N → Exec N W (Value N)) (v o : Value N) (b : Bool)
        → ((x y : Value N) → Keeps R (rest x y))
        → Keeps R (iterate rt ex def run_body rest v o b)
    unfolding iterate
    iterate-Keeps rest v o false h = search (keeps_rules, f)
    iterate-Keeps rest v o true h = search (keeps_rules, f, kb, next_iteration-Keeps, h)

    unless_cancelled_for-Keeps :
        (rest : Exec N W (Value N)) (b : Bool)
        → Keeps R rest
        → Keeps R (unless_cancelled_for rt ex def run_body rest b)
    unfolding unless_cancelled_for
    unless_cancelled_for-Keeps rest true h = search (keeps_rules, f)
    unless_cancelled_for-Keeps rest false h = h

    bind_item-Keeps : (i : ℕ) (x : Value N) → Keeps R (modify (bind_item rt ex def run_body i x))
    unfolding bind_item
    bind_item-Keeps i x =
        Keeps-modify _ (λ s. f.loop_vars s (bind_item rt ex def run_body i x s).loop_vars)

    unbind-Keeps : Keeps R (modify (unbind rt ex def run_body))
    unfolding unbind
    unbind-Keeps = Keeps-modify _ (λ s. f.loop_vars s (unbind rt ex def run_body s).loop_vars)

    for_loop-Keeps :
        (i : ℕ) (items : List (Value N)) (v o : Value N)
        → Keeps R (for_loop rt ex def run_body i items v o)
    unfolding for_loop
    for_loop-Keeps i [] v o = search (keeps_rules, f)
    for_loop-Keeps i (x ∷ items) v o = Keeps-bind f _ _ (Keeps-observe f rt.is_cancelled) λ b.
        unless_cancelled_for-Keeps _ b (
          Keeps-bind f _ _ (bind_item-Keeps i x) λ _.
            Keeps-bind f _ _ (while_holds-Keeps def.while_ v)
              λ h. iterate-Keeps _ v o h (for_loop-Keeps (i + 1) items))

    pub task_for-Keeps :
        (v : Value N) (c : ExpressionContext N) → Keeps R (task_for rt ex def run_body v c)
    unfolding task_for
    task_for-Keeps v c = search (keeps_rules, f, for_loop-Keeps, unbind-Keeps) depth 12

  module _ (run_task : CompiledTask N → Value N → Exec N W (TaskExec N))
      (kt : (t : CompiledTask N) (v : Value N) → Keeps R (run_task t v)) where
    branch_of-Keeps : (v : Value N) (t : CompiledTask N) → Keeps R (branch_of rt run_task v t)
    unfolding branch_of
    branch_of-Keeps v t = search (keeps_rules, f, kt)

    branches_of-AllKeep :
        (v : Value N) (ts : List (CompiledTask N)) → AllKeep R (branches_of rt run_task v ts)
    branches_of-AllKeep v [] = tt
    branches_of-AllKeep v (t ∷ ts) = (branch_of-Keeps v t, branches_of-AllKeep v ts)

    on_clone-Keeps :
        (s : State N W) (b : Exec N W (Value N)) → Keeps R b → Keeps R (on_clone rt s b)
    unfolding on_clone
    on_clone-Keeps s b h = record {
      at = λ u. f.cloned s u (b (rejoin rt s u)).1 (h.at (rejoin rt s u));
    }

    on_clones-AllKeep :
        (s : State N W) (bs : List (Exec N W (Value N)))
        → AllKeep R bs
        → AllKeep R (on_clones rt s bs)
    on_clones-AllKeep s [] h = tt
    on_clones-AllKeep s (b ∷ bs) (h, hs) = (on_clone-Keeps s b h, on_clones-AllKeep s bs hs)

    join_branches-Keeps :
        (compete : Bool) (bs : List (Exec N W (Value N)))
        → AllKeep R bs
        → Keeps R (join_branches rt compete bs)
    unfolding join_branches
    join_branches-Keeps true bs h = record {
      at = λ s.
          let cs : List (Exec N W (Value N)) = on_clones rt s bs in
          f.rejoined s (rt.join_first cs s).1 (k.join_first cs s (on_clones-AllKeep s bs h));
    }
    join_branches-Keeps false bs h = record {
      at = λ s.
          let cs : List (Exec N W (Value N)) = on_clones rt s bs in
          f.rejoined s (rt.join_all cs s).1 (k.join_all cs s (on_clones-AllKeep s bs h));
    }

    pub task_fork-Keeps :
        (ts : List (CompiledTask N)) (compete : Bool) (v : Value N)
        → Keeps R (task_fork rt run_task ts compete v)
    unfolding task_fork
    task_fork-Keeps [] compete v = search (keeps_rules, f)
    task_fork-Keeps (t ∷ ts) compete v =
        join_branches-Keeps compete _ (branches_of-AllKeep v (t ∷ ts))

  jittered-Keeps :
      (retry : RetryPolicyDef) (attempt : ℕ) (range : Option (ℕ × ℕ))
      → Keeps R (jittered rt retry attempt range)
  unfolding jittered
  jittered-Keeps retry attempt none = search (keeps_rules, f)
  jittered-Keeps retry attempt (some (from, to)) = search (keeps_rules, f) depth 8

  retry_delay-Keeps :
      (retry : Option RetryPolicyDef) (attempt : ℕ) → Keeps R (retry_delay rt retry attempt)
  unfolding retry_delay
  retry_delay-Keeps none attempt = search (keeps_rules, f)
  retry_delay-Keeps (some retry) attempt = jittered-Keeps retry attempt retry.jitter

  module _ (catch : CatchDef N) (c : ExpressionContext N) (body handle : Exec N W (Value N))
      (kb : Keeps R body) (kh : Keeps R handle) where
    module _ (loop : ℕ → Exec N W (Value N)) (kl : (i : ℕ) → Keeps R (loop i)) where
      retry_or_handle-Keeps :
          (i : ℕ) (b : Bool) → Keeps R (retry_or_handle rt ex catch c body handle loop i b)
      unfolding retry_or_handle
      retry_or_handle-Keeps i false = kh
      retry_or_handle-Keeps i true =
          search (keeps_rules, f, retry_delay-Keeps, wait_with_cancel-Keeps, kl) depth 8

      handle_matched-Keeps :
          (i : ℕ) (e : WorkflowError N) (b : Bool)
          → Keeps R (handle_matched rt ex catch c body handle loop i e b)
      unfolding handle_matched
      handle_matched-Keeps i e false = search (keeps_rules, f)
      handle_matched-Keeps i e true = search (keeps_rules, f, retry_or_handle-Keeps)

      set_error_var-Keeps :
          (e : WorkflowError N) → Keeps R (modify (set_error_var rt ex catch c body handle e))
      unfolding set_error_var
      set_error_var-Keeps e =
          Keeps-modify _
            (λ s. f.loop_vars s (set_error_var rt ex catch c body handle e s).loop_vars)

      handle_error-Keeps :
          (i : ℕ) (e : WorkflowError N) → Keeps R (handle_error rt ex catch c body handle loop i e)
      unfolding handle_error
      handle_error-Keeps i e =
          search (keeps_rules, f, set_error_var-Keeps, handle_matched-Keeps) depth 10

      after_body-at :
          (i : ℕ) (o : Outcome N (Value N)) (s t : State N W)
          → R s t
          → R s (after_body rt ex catch c body handle loop i o t).1
      unfolding after_body
      after_body-at i (fail e) s t h = f.then_ s t _ h ((handle_error-Keeps i e).at t)
      after_body-at i (done v) s t h = h
      after_body-at i panic s t h = h
      after_body-at i out_of_fuel s t h = h

      attempt_body-Keeps :
          (i : ℕ) (b : Bool) → Keeps R (attempt_body rt ex catch c body handle loop i b)
      unfolding attempt_body
      attempt_body-Keeps i true = record { at = λ s. f.same s }
      attempt_body-Keeps i false = record {
        at = λ s. after_body-at i (body s).0 s (body s).1 (kb.at s);
      }

    try_loop-Keeps : (fuel i : ℕ) → Keeps R (try_loop rt ex catch c body handle fuel i)
    unfolding try_loop
    try_loop-Keeps zero i = search (keeps_rules, f)
    try_loop-Keeps (suc fuel) i =
        Keeps-bind f _ _ (Keeps-observe f rt.is_cancelled)
          λ b. attempt_body-Keeps _ (try_loop-Keeps fuel) i b

    pub task_try-Keeps : (fuel : ℕ) → Keeps R (task_try rt ex catch c body handle fuel)
    unfolding task_try
    task_try-Keeps fuel = try_loop-Keeps fuel 0

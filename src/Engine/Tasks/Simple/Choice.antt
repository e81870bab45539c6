-- ===== src/Engine/Tasks/Simple/Choice.antt =====
-- Which case the `switch` task of Engine/Tasks/Simple.antt takes.
use ows_runtime_rust.Prelude.{
  ℕ, zero, suc, ◌<◌, ◌≡◌, refl, true, false, none, some, List, [], ◌∷◌, Result, ok, err, get_elem?,
  arith, Bool, length, some_inj, ap, ◌∙◌, Option, ◌≢◌,
}
use ows_runtime_rust.Json.{Value}
use ows_runtime_rust.Core.Error.{WorkflowError}
use ows_runtime_rust.Engine.Ir.{SwitchCase}
use ows_runtime_rust.Engine.Runtime.{Runtime}
use ows_runtime_rust.Engine.Eval.{ExpressionContext, as_variable_map}
use ows_runtime_rust.Engine.Tasks.Simple.{case_matches, switch_from, task_switch, then_directive}
use ows_runtime_rust.Engine.State.{FlowDirective}

module _ {N W : Type 0} (rt : Runtime N W) (input : Value N) (c : ExpressionContext N) where
  -- the case's condition comes out as `b`
  abbrev pub Decides : SwitchCase → Result (WorkflowError N) Bool → Type 0
  Decides case b = case_matches rt case.when input (as_variable_map c) ≡ b

  -- the cases before `i` do not match
  abbrev pub PassedOver : List SwitchCase → ℕ → Type 0
  PassedOver cases i =
      (j : ℕ) (case : SwitchCase) → j < i → get_elem? cases j ≡ some case → Decides case (ok false)

  rest_PassedOver :
      (case : SwitchCase) (cases : List SwitchCase) (i : ℕ)
      → PassedOver (case ∷ cases) (suc i)
      → PassedOver cases i
  rest_PassedOver case cases i h j k below at = h (suc j) k (omega arith) at

  switch_head_matched :
      (case : SwitchCase) (cases : List SwitchCase)
      → Decides case (ok true)
      → switch_from rt (case ∷ cases) input (as_variable_map c)
        ≡ ok (input, some (then_directive case.then_))
  unfolding switch_from
  switch_head_matched case cases h = rw (h, switch_from) refl

  switch_head_failed :
      (case : SwitchCase) (cases : List SwitchCase) (e : WorkflowError N)
      → Decides case (err e)
      → switch_from rt (case ∷ cases) input (as_variable_map c) ≡ err e
  unfolding switch_from
  switch_head_failed case cases e h = rw (h, switch_from) refl

  switch_from-matched :
      (cases : List SwitchCase) (i : ℕ) (case : SwitchCase)
      → PassedOver cases i
      → get_elem? cases i ≡ some case
      → Decides case (ok true)
      → switch_from rt cases input (as_variable_map c)
        ≡ ok (input, some (then_directive case.then_))
  unfolding switch_from
  switch_from-matched [] i case before at h = absurd (ground (arith, at))
  switch_from-matched (k ∷ cases) zero case before at h =
      ap (λ k. switch_from rt (k ∷ cases) input (as_variable_map c)) (some_inj at)
      ∙ switch_head_matched case cases h
  switch_from-matched (k ∷ cases) (suc i) case before at h =
      rw (before 0 k (omega arith) refl, switch_from)
        (switch_from-matched cases i case (rest_PassedOver k cases i before) at h)

  switch_from-failed :
      (cases : List SwitchCase) (i : ℕ) (case : SwitchCase) (e : WorkflowError N)
      → PassedOver cases i
      → get_elem? cases i ≡ some case
      → Decides case (err e)
      → switch_from rt cases input (as_variable_map c) ≡ err e
  unfolding switch_from
  switch_from-failed [] i case e before at h = absurd (ground (arith, at))
  switch_from-failed (k ∷ cases) zero case e before at h =
      ap (λ k. switch_from rt (k ∷ cases) input (as_variable_map c)) (some_inj at)
      ∙ switch_head_failed case cases e h
  switch_from-failed (k ∷ cases) (suc i) case e before at h =
      rw (before 0 k (omega arith) refl, switch_from)
        (switch_from-failed cases i case e (rest_PassedOver k cases i before) at h)

  switch_from-none :
      (cases : List SwitchCase)
      → PassedOver cases (length cases)
      → switch_from rt cases input (as_variable_map c) ≡ ok (input, none)
  unfolding switch_from
  switch_from-none [] before = refl
  switch_from-none (k ∷ cases) before =
      rw (before 0 k (omega arith) refl, switch_from)
        (switch_from-none cases (rest_PassedOver k cases (length cases) before))

  -- what a case whose condition comes out so makes of the task
  abbrev pub taken :
      SwitchCase
      → Result (WorkflowError N) Bool
      → Result (WorkflowError N) (Value N × Option FlowDirective)
  taken case (ok b) = ok (input, some (then_directive case.then_))
  taken case (err e) = err e

  -- A `switch` takes the first case whose condition does not come out false: it passes its input on
  -- with that case's directive, or fails with the error of the condition.
  pub task_switch_first :
      (cases : List SwitchCase) (i : ℕ) (case : SwitchCase) (b : Result (WorkflowError N) Bool)
      → PassedOver cases i
      → get_elem? cases i ≡ some case
      → Decides case b
      → b ≢ ok false
      → task_switch rt cases input c ≡ taken case b
  unfolding task_switch
  task_switch_first cases i case (ok true) before at h open_ =
      switch_from-matched cases i case before at h
  task_switch_first cases i case (ok false) before at h open_ = absurd (open_ refl)
  task_switch_first cases i case (err e) before at h open_ =
      switch_from-failed cases i case e before at h

  -- When the condition of every case comes out false, a `switch` passes its input on without a
  -- directive.
  pub task_switch_none :
      (cases : List SwitchCase)
      → PassedOver cases (length cases)
      → task_switch rt cases input c ≡ ok (input, none)
  unfolding task_switch
  task_switch_none cases before = switch_from-none cases before

-- ===== src/Tests/Flow.antt =====
-- The scope loop and whole tasks of the engine at concrete inputs.
use ows_runtime_rust.Prelude.{
  ℕ, ◌+◌, ◌≡◌, ◌≢◌, refl, Option, true, inl, none, some, List, [], ◌∷◌, arith, get_elem?, String,
  eq_iff, or_else, ap, sym, false, suc, ◌∙◌, zero,
}
use ows_runtime_rust.Json.{Value, null, number, insert, get, end}
use ows_runtime_rust.Engine.Ir.{list_of_tasks, CompiledTask, head}
use ows_runtime_rust.Engine.State.{State, Exec, done, out_of_fuel, fail, TaskExec, Halts, goto}
use ows_runtime_rust.Engine.Keeps.{AllKeep, RuntimeKeeps}
use ows_runtime_rust.Engine.Frame.{Frame, Frame-EngineFrame, run_task-Frame}
use ows_runtime_rust.Engine.Run.Execute.{run_task}
use ows_runtime_rust.Engine.Scope.{
  scope_loop, proceed, unknown_target, timed, final_directive, finish_timed, parse_directive,
}
use ows_runtime_rust.Engine.Scope.Halting.{scope_loop-Halts, task_at, is_goto}
use ows_runtime_rust.Engine.Scope.Rounds.{stopped_scope, goto_first, goto_unknown}
use ows_runtime_rust.Tests.World.{
  World, test_runtime, test_workflow, test_execution, test_state, wait_task, run_from, run_first,
}
use ows_runtime_rust.Engine.Eval.Shadowing.{Binds, variables_shadow, insert-Distinct}
use ows_runtime_rust.Engine.Eval.{variables}

run_from-Frame :
    (i : ℕ) (ms : List (Exec ℕ World (Value ℕ))) (s : State ℕ World)
    → AllKeep Frame ms
    → Frame s (run_from i ms s).1
run_from-Frame i [] s k = Frame-EngineFrame.same s
run_from-Frame i (m ∷ ms) s k =
    Frame-EngineFrame.then_ s _ _ (k.0.at s) (run_from-Frame (i + 1) ms _ k.1)

run_first-Frame :
    (ms : List (Exec ℕ World (Value ℕ))) (s : State ℕ World)
    → AllKeep Frame ms
    → Frame s (run_first ms s).1
run_first-Frame [] s k = Frame-EngineFrame.same s
run_first-Frame (m ∷ ms) s k = k.0.at s

test_runtime-Keeps : RuntimeKeeps Frame test_runtime
test_runtime-Keeps = record {
  with_timeout = λ d m s k. k.at s;
  join_all = λ ms s k. run_from-Frame 0 ms s k;
  join_first = run_first-Frame;
  perform = λ t vars run v k. record { at = λ s. Frame-EngineFrame.same s };
}

run_task-Frame_example :
    Frame test_state
      (run_task test_runtime test_workflow test_execution 3 (wait_task "a" none) null test_state).1
run_task-Frame_example =
    run_task-Frame test_runtime test_runtime-Keeps test_workflow test_execution 3
      (wait_task "a" none) null test_state

-- a task runner that gives a number and no directive
abbrev pub give_five : CompiledTask ℕ → Value ℕ → Exec ℕ World (TaskExec ℕ)
give_five t v s = (done (record { output = number 5; directive = none }), s)

abbrev two_tasks : List (CompiledTask ℕ)
two_tasks = list_of_tasks test_workflow.tasks

abbrev five : TaskExec ℕ
five = record { output = number 5; directive = none }

timed-five :
    (o : Option ℕ) (t : CompiledTask ℕ) (v : Value ℕ) (s : State ℕ World)
    → timed test_runtime test_workflow test_execution (head t) o (give_five t v) s ≡ (done five, s)
unfolding timed finish_timed
timed-five none t v s = refl
timed-five (some d) t v s = refl

five_stops :
    (i : ℕ) (t : CompiledTask ℕ) (v : Value ℕ)
    → get_elem? two_tasks i ≡ some t
    → Halts (task_at test_runtime test_workflow test_execution two_tasks none give_five t v)
five_stops i t v at = record {
  at = λ s. rw (timed-five (or_else (head t).timeout none) t v s) (λ p. cc);
}

no_then : (i : ℕ) (t : CompiledTask ℕ) → get_elem? two_tasks i ≡ some t → (head t).then_ ≡ none
no_then zero t at = ap (λ o. elim o [ none ↦ none | some x ↦ (head x).then_ ]) (sym at)
no_then (suc zero) t at = ap (λ o. elim o [ none ↦ none | some x ↦ (head x).then_ ]) (sym at)
no_then (suc (suc i)) t at = absurd (ground (arith, at))

five_forward :
    (i : ℕ) (t : CompiledTask ℕ) (v : Value ℕ) (s : State ℕ World) (e : TaskExec ℕ)
    → get_elem? two_tasks i ≡ some t
    → (task_at test_runtime test_workflow test_execution two_tasks none give_five t v s).0 ≡ done e
    → is_goto (final_directive e.directive (head t).then_) ≡ false
unfolding final_directive
five_forward i t v s e at h =
    let plain : e.directive ≡ none =
      ap (λ o. elim o [ done x ↦ x.directive | _ ↦ none ])
        (sym h ∙ ap (λ r. r.0) (timed-five (or_else (head t).timeout none) t v s)) in
    rw (plain, no_then i t at) refl

scope_loop-Halts_example :
    (scope_loop test_runtime test_workflow test_execution two_tasks none give_five 3 0 null
      test_state).0
    ≢ out_of_fuel
scope_loop-Halts_example =
    scope_loop-Halts test_runtime test_workflow test_execution two_tasks none give_five five_stops
      five_forward 3 0 null test_state (omega arith)

stopped_scope_example :
    scope_loop test_runtime test_workflow test_execution two_tasks none give_five 1 0 null
      (record test_state { ended = true })
    ≡ (done null, record test_state { ended = true })
stopped_scope_example =
    stopped_scope test_runtime test_workflow test_execution two_tasks none give_five 0 0 null
      (record test_state { ended = true }) (inl refl)

abbrev jumping : List (CompiledTask ℕ)
jumping = wait_task "first" (some "third") ∷ wait_task "second" none ∷ wait_task "third" none ∷ []

abbrev lost : List (CompiledTask ℕ)
lost = wait_task "first" (some "third") ∷ wait_task "second" none ∷ []

jumps_to_third : final_directive none (some "third") ≡ goto "third"
unfolding final_directive parse_directive
jumps_to_third = refl

first_is_not_third : ◌≢◌ {A = String} "first" "third"
first_is_not_third e = absurd (ground (arith, eq_iff "first" "third", e))

second_is_not_third : ◌≢◌ {A = String} "second" "third"
second_is_not_third e = absurd (ground (arith, eq_iff "second" "third", e))

goto_first_example :
    scope_loop test_runtime test_workflow test_execution jumping none give_five 1 0 null test_state
    ≡ proceed test_runtime test_workflow test_execution jumping none
        (scope_loop test_runtime test_workflow test_execution jumping none give_five 0)
        2
        (number 5)
        test_state
goto_first_example =
    goto_first test_runtime test_workflow test_execution jumping none give_five 0 0 null test_state
      test_state (wait_task "first" (some "third")) five "third" refl refl refl
      (timed-five none (wait_task "first" (some "third")) null test_state) jumps_to_third 2
      (first_is_not_third, (second_is_not_third, refl))

goto_unknown_example :
    scope_loop test_runtime test_workflow test_execution lost none give_five 1 0 null test_state
    ≡ (fail (unknown_target test_execution "third"), test_state)
goto_unknown_example =
    goto_unknown test_runtime test_workflow test_execution lost none give_five 0 0 null test_state
      test_state (wait_task "first" (some "third")) five "third" refl refl refl
      (timed-five none (wait_task "first" (some "third")) null test_state) jumps_to_third
      (first_is_not_third, (second_is_not_third, tt))

abbrev shadowing_state : State ℕ World
shadowing_state = record test_state { loop_vars = insert "input" (number 9) end }

found_nine : get {N = ℕ} "input" (insert "input" (number 9) end) ≡ some (number 9)
unfolding get insert
found_nine = refl

variables_shadow_example :
    Binds "input"
      (number 9)
      (variables test_runtime test_execution null null none shadowing_state).0
variables_shadow_example =
    variables_shadow test_runtime test_execution "input" (number 9) null null none shadowing_state
      (insert-Distinct "input" (number 9) end tt) found_nine

-- ===== src/Tests/World.antt =====
-- A runtime to run the engine in: its world is an in-memory store, an expression is the name of a
-- variable, no execution is cancelled, and the branches of a fork run in order.
use ows_runtime_rust.Prelude.{
  ℕ, ◌+◌, String, true, false, Option, none, some, List, [], ◌∷◌, Result, ok, err, ◌==◌,
}
use ows_runtime_rust.Json.{Value, null, number, Fields, end, get}
use ows_runtime_rust.Core.Store.{InMemoryExecutionStore, create, update, append_event, load}
use ows_runtime_rust.Engine.Ir.{
  CompiledTask, TaskHead, task, CompiledTaskKind, DataDef, CompiledWorkflow, no_tasks, more,
}
use ows_runtime_rust.Engine.State.{State, Outcome, Exec, Execution}
use ows_runtime_rust.Engine.Runtime.{Runtime, Joined, joined}
use ows_runtime_rust.Engine.Eval.{ExpressionContext}

abbrev pub World : Type 0
World = InMemoryExecutionStore ℕ

abbrev look_up : String → Fields ℕ → Result String (Value ℕ)
look_up src vars = elim (get src vars) [ none ↦ err "unknown" | some v ↦ ok v ]

abbrev pub run_from :
    ℕ → List (Exec ℕ World (Value ℕ)) → State ℕ World → List (Joined ℕ) × State ℕ World
run_from i [] s = ([], s)
run_from i (m ∷ ms) s =
    let (o, s1) = m s in let (rest, s2) = run_from (i + 1) ms s1 in (joined i o ∷ rest, s2)

abbrev pub run_first :
    List (Exec ℕ World (Value ℕ)) → State ℕ World → Option (Joined ℕ) × State ℕ World
run_first [] s = (none, s)
run_first (m ∷ ms) s = let (o, s1) = m s in (some (joined 0 o), s1)

abbrev pub test_runtime : Runtime ℕ World
test_runtime = record {
  max_loop_iterations = 2;
  number_of = λ n. n;
  number_eq = λ a b. a == b;
  as_u64 = λ n. some n;
  display = λ v. "a value";
  evaluate = λ src input vars. look_up src vars;
  evaluate_interpolation = λ src input vars. look_up src vars;
  validate = λ schema v. none;
  lock_is_free = λ w. (true, w);
  is_cancelled = λ w. (false, w);
  new_token = λ w. w;
  sleep_or_cancel = λ d w. (false, w);
  scale_random = λ millis w. (millis, w);
  epoch_seconds = λ w. (7, w);
  new_uuid = λ w. ("new", w);
  resolve_secret = λ name. none;
  publish_started = λ id now w. w;
  publish_completed = λ id now w. w;
  store_create = λ r w. (ok tt, create r w);
  store_update = λ r w. (ok tt, update r w);
  store_append_event = λ e w. (ok tt, append_event e w);
  store_load = λ id w. (ok (load id w), w);
  with_timeout = λ d m s. (some (m s).0, (m s).1);
  join_all = λ ms s. run_from 0 ms s;
  join_first = λ ms s. run_first ms s;
  perform = λ t vars run v s. (Outcome.done v, s);
}

abbrev pub test_execution : Execution ℕ
test_execution = record {
  execution_id = "e1";
  secrets = [];
  workflow_descriptor = null;
  runtime_descriptor = null;
  timeout = none;
}

abbrev pub no_data : DataDef ℕ
no_data = record { schema = none; transform = none }

abbrev pub head_of : String → Option String → TaskHead ℕ
head_of name then_ = record {
  name = name;
  reference = "/do";
  if_ = none;
  input = no_data;
  output = no_data;
  export = no_data;
  timeout = none;
  then_ = then_;
  metadata = none;
  descriptor = null;
}

abbrev pub wait_task : String → Option String → CompiledTask ℕ
wait_task name then_ = task (head_of name then_) (CompiledTaskKind.wait 0)

abbrev pub test_workflow : CompiledWorkflow ℕ
test_workflow = record {
  namespace = "ns";
  name = "wf";
  version = "1";
  definition = null;
  tasks = more (wait_task "first" none) (more (wait_task "second" none) no_tasks);
  input = no_data;
  output = no_data;
  timeout = none;
  secrets = [];
  errors = none;
  extensions = [];
}

abbrev pub test_state : State ℕ World
test_state = record {
  context = number 3;
  ended = false;
  loop_vars = end;
  apply_extensions = true;
  scope_exited = false;
  task_order = [];
  world = record { records = []; log = [] };
}

abbrev pub test_context : ExpressionContext ℕ
test_context = record {
  context = null;
  input = null;
  output = null;
  secrets = [];
  authorization = none;
  task = none;
  workflow = none;
  runtime = none;
  extra_vars = end;
}

-- ===== src/Engine/Eval.antt =====
-- Expressions inside the engine: `ExpressionContext` of crates/ows-runtime-core/src/expression.rs,
-- and the evaluation helpers of crates/ows-runtime/src/engine.rs.
pub mod Shadowing
use ows_runtime_rust.Prelude.{
  if◌then◌else◌, String, Bool, true, false, Option, none, some, List, [], ◌∷◌, Result, ok, err,
  join_text,
}
use ows_runtime_rust.Json.{Value, null, bool, string, object, Fields, end, insert, extend}
use ows_runtime_rust.Core.Error.{
  WorkflowError, ErrorKind, StandardErrorType, error_new, problem_standard, with_detail,
  with_instance,
}
use ows_runtime_rust.Engine.Ir.{SchemaDef, TaskHead}
use ows_runtime_rust.Engine.State.{Exec, Execution, observe, gets, lift, ◌>>=◌, pure}
use ows_runtime_rust.Engine.Runtime.{Runtime}

pub record ExpressionContext (N : Type 0) : Type 0 where
  pub context : Value N
  pub input : Value N
  pub output : Value N
  pub secrets : List (String × String)
  pub authorization : Option (Value N)
  pub task : Option (Value N)
  pub workflow : Option (Value N)
  pub runtime : Option (Value N)
  pub extra_vars : Fields N

module _ {N : Type 0} where
  secret_fields : List (String × String) → Fields N
  secret_fields [] = end
  secret_fields ((k, v) ∷ rest) = insert k (string v) (secret_fields rest)

  abbrev insert_some : String → Option (Value N) → Fields N → Fields N
  insert_some k none m = m
  insert_some k (some v) m = insert k v m

  unfoldable pub as_variable_map : ExpressionContext N → Fields N
  unfolding secret_fields
  as_variable_map c =
      let base =
        insert "secrets" (object (secret_fields c.secrets))
          (insert "output" c.output (insert "input" c.input (insert "context" c.context end))) in
      let optional = insert_some "runtime" c.runtime (
        insert_some "workflow" c.workflow
          (insert_some "task" c.task (insert_some "authorization" c.authorization base))) in
      extend optional c.extra_vars

  unfoldable pub as_variable_map_updated : ExpressionContext N → Value N → Value N → Fields N
  unfolding as_variable_map
  as_variable_map_updated c input output =
      as_variable_map (record c { input = input; output = output })

  -- only `false` and `null` are falsy
  unfoldable pub is_truthy : Value N → Bool
  is_truthy null = false
  is_truthy (bool b) = b
  is_truthy _ = true

  abbrev attach_task : Option (TaskHead N) → WorkflowError N → WorkflowError N
  attach_task none e = e
  attach_task (some t) e = record e { task = some t.reference }

  unfoldable pub to_expression_error : String → Option (TaskHead N) → WorkflowError N
  unfolding error_new problem_standard with_detail
  to_expression_error text t = attach_task t (
      error_new ErrorKind.expression
        (with_detail (problem_standard StandardErrorType.expression) text))

  abbrev map_error :
      Option (TaskHead N) → Result String (Value N) → Result (WorkflowError N) (Value N)
  map_error t (ok v) = ok v
  map_error t (err text) = err (to_expression_error text t)

module _ {N W : Type 0} (rt : Runtime N W) where
  unfoldable pub eval_expr :
      String → Value N → Fields N → Option (TaskHead N) → Result (WorkflowError N) (Value N)
  eval_expr source input vars t = map_error t (rt.evaluate source input vars)

  unfoldable pub eval_interpolation :
      Value N → ExpressionContext N → Result (WorkflowError N) (Value N)
  eval_interpolation (string s) c =
      map_error none (rt.evaluate_interpolation s c.input (as_variable_map c))
  eval_interpolation other c = ok other

  abbrev schema_result : String → Option (List String) → Result (WorkflowError N) (Unit {0})
  schema_result instance_ none = ok tt
  schema_result instance_ (some errors) = err (
      error_new ErrorKind.schema (
        with_instance
          (with_detail (problem_standard StandardErrorType.validation) (join_text "; " errors))
          instance_))

  abbrev check_document : Option (Value N) → Value N → String → Result (WorkflowError N) (Unit {0})
  check_document none v instance_ = ok tt
  check_document (some document) v instance_ = schema_result instance_ (rt.validate document v)

  unfoldable pub validate_schema :
      Option (SchemaDef N) → Value N → String → Result (WorkflowError N) (Unit {0})
  validate_schema none v instance_ = ok tt
  validate_schema (some schema) v instance_ = check_document schema.document v instance_

  -- `context_value_sync`: a contended lock reads as null
  unfoldable pub context_value_sync : Exec N W (Value N)
  unfolding observe gets pure ◌>>=◌
  context_value_sync = do
    free ← observe rt.lock_is_free
    if free then gets (λ s. s.context) else pure null

  -- `ExecContext::variables`
  unfoldable pub variables :
      Execution N → Value N → Value N → Option (Value N) → Exec N W (Fields N)
  unfolding context_value_sync as_variable_map gets pure ◌>>=◌
  variables ex input output t = do
    context ← context_value_sync
    loop_vars ← gets (λ s. s.loop_vars)
    let c : ExpressionContext N = record {
      context = context;
      input = input;
      output = output;
      secrets = ex.secrets;
      authorization = none;
      task = t;
      workflow = some ex.workflow_descriptor;
      runtime = some ex.runtime_descriptor;
      extra_vars = loop_vars;
    }
    pure (extend (as_variable_map c) loop_vars)

  abbrev descriptor_of : Option (TaskHead N) → Option (Value N)
  descriptor_of none = none
  descriptor_of (some t) = some t.descriptor

  -- an expression over an input, with the variables of this moment
  unfoldable pub eval_in : Execution N → Option (TaskHead N) → String → Value N → Exec N W (Value N)
  unfolding variables lift ◌>>=◌
  eval_in ex t src input = do
    vars ← variables ex input null (descriptor_of t)
    lift (eval_expr src input vars t)

  -- an input's `from` expression, if there is one
  unfoldable pub transform_in :
      Execution N → Option (TaskHead N) → Option String → Value N → Exec N W (Value N)
  unfolding eval_in pure
  transform_in ex t none input = pure input
  transform_in ex t (some src) input = eval_in ex t src input

-- ===== src/Core/Error.antt =====
-- crates/ows-runtime-core/src/error.rs, and the constructors of crates/ows-runtime/src/error.rs.
-- The boxed `source` of a `WorkflowError` is opaque to the runtime and is left out.
use ows_runtime_rust.Prelude.{ℕ, String, Option, none, some, ◌<>◌}
use ows_runtime_rust.Json.{Value, string, number, object, Fields, end, insert}

pub data ErrorKind : Type 0 where
  parse schema semantic runtime expression timeout cancelled fault policy communication : ErrorKind

unfoldable pub show_kind : ErrorKind → String
show_kind parse = "parse"
show_kind schema = "schema"
show_kind semantic = "semantic"
show_kind runtime = "runtime"
show_kind expression = "expression"
show_kind timeout = "timeout"
show_kind cancelled = "cancelled"
show_kind fault = "fault"
show_kind policy = "policy"
show_kind communication = "communication"

abbrev pub error_type_prefix : String
error_type_prefix = "https://open-workflow-specification.org/spec/1.0.0/errors"

pub data StandardErrorType : Type 0 where
  configuration validation expression authentication authorization : StandardErrorType
  timeout communication runtime : StandardErrorType

unfoldable pub default_status : StandardErrorType → ℕ
default_status StandardErrorType.configuration = 400
default_status StandardErrorType.validation = 400
default_status StandardErrorType.expression = 400
default_status StandardErrorType.authentication = 401
default_status StandardErrorType.authorization = 403
default_status StandardErrorType.timeout = 408
default_status StandardErrorType.communication = 500
default_status StandardErrorType.runtime = 500

unfoldable pub slug : StandardErrorType → String
slug StandardErrorType.configuration = "configuration"
slug StandardErrorType.validation = "validation"
slug StandardErrorType.expression = "expression"
slug StandardErrorType.authentication = "authentication"
slug StandardErrorType.authorization = "authorization"
slug StandardErrorType.timeout = "timeout"
slug StandardErrorType.communication = "communication"
slug StandardErrorType.runtime = "runtime"

unfoldable pub uri : StandardErrorType → String
unfolding slug
uri kind = error_type_prefix <> "/" <> slug kind

unfoldable pub title_of : StandardErrorType → String
title_of StandardErrorType.configuration = "Configuration"
title_of StandardErrorType.validation = "Validation Error"
title_of StandardErrorType.expression = "Expression Error"
title_of StandardErrorType.authentication = "Authentication Error"
title_of StandardErrorType.authorization = "Authorization Error"
title_of StandardErrorType.timeout = "Timeout Error"
title_of StandardErrorType.communication = "Communication Error"
title_of StandardErrorType.runtime = "Runtime Error"

pub record ProblemDetails (N : Type 0) : Type 0 where
  pub type_ : String
  pub title : String
  pub status : ℕ  -- u16
  pub detail : Option String
  pub instance_ : Option String
  pub extensions : Option (Fields N)

pub record WorkflowError (N : Type 0) : Type 0 where
  pub kind : ErrorKind
  pub problem : ProblemDetails N
  pub task : Option String
  pub execution_id : Option String

module _ {N : Type 0} where
  unfoldable pub problem_new : String → String → ℕ → ProblemDetails N
  problem_new type_ title status = record {
    type_ = type_;
    title = title;
    status = status;
    detail = none;
    instance_ = none;
    extensions = none;
  }

  unfoldable pub with_detail : ProblemDetails N → String → ProblemDetails N
  with_detail p detail = record p { detail = some detail }

  unfoldable pub with_instance : ProblemDetails N → String → ProblemDetails N
  with_instance p instance_ = record p { instance_ = some instance_ }

  -- the `standard` constructor of `ProblemDetails`
  unfoldable pub problem_standard : StandardErrorType → ProblemDetails N
  unfolding problem_new uri title_of default_status
  problem_standard kind = problem_new (uri kind) (title_of kind) (default_status kind)

  unfoldable pub error_new : ErrorKind → ProblemDetails N → WorkflowError N
  error_new kind problem = record {
    kind = kind;
    problem = problem;
    task = none;
    execution_id = none;
  }

  unfoldable pub error_standard : ErrorKind → StandardErrorType → WorkflowError N
  unfolding error_new problem_standard
  error_standard kind standard = error_new kind (problem_standard standard)

  unfoldable pub with_task : WorkflowError N → String → WorkflowError N
  with_task e task = record e { task = some task }

  unfoldable pub with_execution : WorkflowError N → String → WorkflowError N
  with_execution e id = record e { execution_id = some id }

  -- `WorkflowError::timeout`
  unfoldable pub timeout_error : Option String → WorkflowError N
  unfolding error_new problem_standard
  timeout_error instance_ =
      error_new timeout
        (record (problem_standard StandardErrorType.timeout) { instance_ = instance_ })

  -- `WorkflowError::cancelled`
  unfoldable pub cancelled_error : WorkflowError N
  unfolding error_new problem_standard
  cancelled_error = error_new cancelled (record (problem_standard StandardErrorType.runtime) {
    title = "Cancelled";
    type_ = error_type_prefix <> "/runtime";
  })

  abbrev optional_field : String → Option String → Fields N → Fields N
  optional_field k none m = m
  optional_field k (some s) m = insert k (string s) m

  -- `to_value`: the absent members are skipped
  unfoldable pub to_problem_json : (ℕ → N) → WorkflowError N → Value N
  to_problem_json number_of e =
      let p = e.problem in
      let base =
        insert "status" (number (number_of p.status))
          (insert "title" (string p.title) (insert "type" (string p.type_) end)) in
      let m = optional_field "instance" p.instance_ (optional_field "detail" p.detail base) in
      object (elim p.extensions [ none ↦ m | some x ↦ insert "extensions" (object x) m ])

  -- crates/ows-runtime/src/error.rs
  unfoldable pub runtime_error : String → WorkflowError N
  unfolding error_new with_detail problem_standard
  runtime_error detail =
      error_new runtime (with_detail (problem_standard StandardErrorType.runtime) detail)

  unfoldable pub semantic_error : String → WorkflowError N
  unfolding error_new with_detail problem_standard
  semantic_error detail =
      error_new semantic (with_detail (problem_standard StandardErrorType.runtime) detail)

  unfoldable pub expression_error : String → WorkflowError N
  unfolding error_new with_detail problem_standard
  expression_error detail =
      error_new expression (with_detail (problem_standard StandardErrorType.expression) detail)

  unfoldable pub policy_error : String → WorkflowError N
  unfolding error_new with_detail problem_standard
  policy_error detail =
      error_new policy (with_detail (problem_standard StandardErrorType.runtime) detail)

-- ===== src/Engine/Ir.antt =====
-- The compiled workflow: crates/ows-runtime/src/ir.rs. A duration is its number of nanoseconds.
-- A list of tasks inside a task is `Tasks`; the bodies of `for`, `try` and `listen` stand beside
-- the records of their other fields.
pub mod Duration
pub mod Processes
pub use ows_runtime_rust.Engine.Ir.Processes.{
  RunReturn, RunContainer, RunScript, RunShell, RunWorkflow, RunProcess, RunDef,
}
use ows_runtime_rust.Prelude.{ℕ, String, Bool, Option, List, [], ◌∷◌}
use ows_runtime_rust.Json.{Value, Fields}

pub record SchemaDef (N : Type 0) : Type 0 where
  pub format : String
  pub document : Option (Value N)
  pub resource : Option String

pub record DataDef (N : Type 0) : Type 0 where
  pub schema : Option (SchemaDef N)
  pub transform : Option String

pub data Backoff : Type 0 where
  constant linear exponential : Backoff

pub record RetryPolicyDef : Type 0 where
  pub when : Option String
  pub except_when : Option String
  pub delay : Option ℕ
  pub backoff : Backoff
  pub jitter : Option (ℕ × ℕ)
  pub attempt_count : Option ℕ
  pub attempt_duration : Option ℕ
  pub retry_duration : Option ℕ

-- the handler scope `do_` stands beside this record
pub record CatchDef (N : Type 0) : Type 0 where
  pub filter : Option (Fields N)
  pub as_ : Option String
  pub when : Option String
  pub except_when : Option String
  pub retry : Option RetryPolicyDef
  pub then_ : Option String

pub data SetValues (N : Type 0) : Type 0 where
  map : List (String × Value N) → SetValues N
  expression : String → SetValues N

pub record ForDef : Type 0 where
  pub each : String
  pub in_ : String
  pub at : Option String
  pub while_ : Option String

pub record SwitchCase : Type 0 where
  pub name : String
  pub when : Option String
  pub then_ : Option String

pub record CorrelationDef : Type 0 where
  pub from : String
  pub expect : Option String

pub record EventFilterDef (N : Type 0) : Type 0 where
  pub with_ : Fields N
  pub correlate : List CorrelationDef

pub data ListenTo (N : Type 0) : Type 0 where
  all any : List (EventFilterDef N) → ListenTo N
  one : EventFilterDef N → ListenTo N

pub data ListenUntil (N : Type 0) : Type 0 where
  expression : String → ListenUntil N
  strategy : List (EventFilterDef N) → ListenUntil N

-- the body of `foreach` stands beside its variable names
pub record ListenForeachDef : Type 0 where
  pub item : String
  pub at : Option String

pub record ListenDef (N : Type 0) : Type 0 where
  pub to : ListenTo N
  pub read : Option String
  pub until : Option (ListenUntil N)
  pub foreach : Option ListenForeachDef

-- `dsl_models::ErrorDefinition` of the SDK, with the fields that the runtime reads
pub record ErrorDefinition (N : Type 0) : Type 0 where
  pub type_ : String
  pub title : String
  pub status : Value N
  pub detail : Option String
  pub instance_ : Option String

pub data ErrorRef (N : Type 0) : Type 0 where
  inline : ErrorDefinition N → ErrorRef N
  reference : String → ErrorRef N

pub record CallDef (N : Type 0) : Type 0 where
  pub call : String
  pub with_ : Option (Fields N)

-- the fields of `CompiledTask` other than `kind`
pub record TaskHead (N : Type 0) : Type 0 where
  pub name : String
  pub reference : String
  pub if_ : Option String
  pub input : DataDef N
  pub output : DataDef N
  pub export : DataDef N
  pub timeout : Option ℕ
  pub then_ : Option String
  pub metadata : Option (Fields N)
  pub descriptor : Value N

mutual
  pub data CompiledTask (N : Type 0) : Type 0 where
    task : TaskHead N → CompiledTaskKind N → CompiledTask N

  pub data Tasks (N : Type 0) : Type 0 where
    no_tasks : Tasks N
    more : CompiledTask N → Tasks N → Tasks N

  pub data Handler (N : Type 0) : Type 0 where
    no_handler : Handler N
    handler : Tasks N → Handler N

  pub data CompiledTaskKind (N : Type 0) : Type 0 where
    set : SetValues N → CompiledTaskKind N
    do_ : Tasks N → CompiledTaskKind N
    for_ : ForDef → Tasks N → CompiledTaskKind N
    fork : Tasks N → Bool → CompiledTaskKind N
    switch : List SwitchCase → CompiledTaskKind N
    try_ : Tasks N → CatchDef N → Handler N → CompiledTaskKind N
    emit : Fields N → CompiledTaskKind N
    listen : ListenDef N → Tasks N → CompiledTaskKind N
    raise : ErrorRef N → CompiledTaskKind N
    call : CallDef N → CompiledTaskKind N
    run : RunDef N → CompiledTaskKind N
    wait : ℕ → CompiledTaskKind N

module _ {N : Type 0} where
  abbrev pub head : CompiledTask N → TaskHead N
  head (task h k) = h

  abbrev pub kind : CompiledTask N → CompiledTaskKind N
  kind (task h k) = k

  abbrev pub list_of_tasks : Tasks N → List (CompiledTask N)
  list_of_tasks no_tasks = []
  list_of_tasks (more t ts) = t ∷ list_of_tasks ts

  unfoldable pub type_name : CompiledTaskKind N → String
  type_name (set _) = "set"
  type_name (do_ _) = "do"
  type_name (for_ _ _) = "for"
  type_name (fork _ _) = "fork"
  type_name (switch _) = "switch"
  type_name (try_ _ _ _) = "try"
  type_name (emit _) = "emit"
  type_name (listen _ _) = "listen"
  type_name (raise _) = "raise"
  type_name (call _) = "call"
  type_name (run _) = "run"
  type_name (wait _) = "wait"

pub record CompiledExtension (N : Type 0) : Type 0 where
  pub extend : String
  pub when : Option String
  pub before : Tasks N
  pub after : Tasks N

-- The fields that the engine reads. `definition` is the definition as a JSON value, and `errors`
-- the named errors of `components`.
pub record CompiledWorkflow (N : Type 0) : Type 0 where
  pub namespace : String
  pub name : String
  pub version : String
  pub definition : Value N
  pub tasks : Tasks N
  pub input : DataDef N
  pub output : DataDef N
  pub timeout : Option ℕ
  pub secrets : List String
  pub errors : Option (List (String × ErrorDefinition N))
  pub extensions : List (CompiledExtension N)

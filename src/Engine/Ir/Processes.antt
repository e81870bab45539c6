-- ===== src/Engine/Ir/Processes.antt =====
-- The processes of a `run` task: `RunDef` and its parts, of crates/ows-runtime/src/ir.rs.
use ows_runtime_rust.Prelude.{String, Bool, Option, List}
use ows_runtime_rust.Json.{Value}

pub data RunReturn : Type 0 where
  stdout stderr code all none : RunReturn

pub record RunContainer : Type 0 where
  pub image : String
  pub command : Option String
  pub arguments : List String
  pub environment : List (String × String)
  pub stdin : Option String
  pub name : Option String

pub record RunScript : Type 0 where
  pub language : String
  pub code : String
  pub arguments : List String
  pub environment : List (String × String)
  pub stdin : Option String

pub record RunShell : Type 0 where
  pub command : String
  pub arguments : List String
  pub environment : List (String × String)
  pub stdin : Option String

pub record RunWorkflow (N : Type 0) : Type 0 where
  pub namespace : String
  pub name : String
  pub version : String
  pub input : Option (Value N)

pub data RunProcess (N : Type 0) : Type 0 where
  container : RunContainer → RunProcess N
  script : RunScript → RunProcess N
  shell : RunShell → RunProcess N
  workflow : RunWorkflow N → RunProcess N

pub record RunDef (N : Type 0) : Type 0 where
  pub process : RunProcess N
  pub await_ : Bool
  pub return_ : RunReturn

-- ===== src/Core/Store.antt =====
-- crates/ows-runtime-core/src/store.rs: the records of an execution, and the in-memory store.
-- Its two locks guard single reads and writes, so an operation is one step on the pair of
-- contents. `records` is read and written by key only.
pub mod Lookup
use ows_runtime_rust.Prelude.{
  ℕ, String, Option, none, some, List, [], ◌∷◌, str_eq, if◌then◌else◌, push,
}
use ows_runtime_rust.Json.{Value}
use ows_runtime_rust.Core.Phase.{Phase}

pub record ExecutionRecord (N : Type 0) : Type 0 where
  pub execution_id : String
  pub workflow : String
  pub namespace : String
  pub name : String
  pub version : String
  pub phase : Phase
  pub context : Value N
  pub pointer : Value N
  pub error : Option (Value N)
  pub started_at : ℕ

pub record StoredEvent (N : Type 0) : Type 0 where
  pub execution_id : String
  pub sequence : ℕ  -- u64
  pub event_type : String
  pub payload : Value N
  pub timestamp : ℕ

pub record InMemoryExecutionStore (N : Type 0) : Type 0 where
  pub records : List (String × ExecutionRecord N)
  pub log : List (StoredEvent N)

module _ {N : Type 0} where
  unfoldable pub find_record :
      String → List (String × ExecutionRecord N) → Option (ExecutionRecord N)
  find_record k [] = none
  find_record k ((j, r) ∷ rest) = if str_eq j k then some r else find_record k rest

  -- `HashMap::insert`
  unfoldable pub put_record :
      String
      → ExecutionRecord N
      → List (String × ExecutionRecord N)
      → List (String × ExecutionRecord N)
  put_record k r [] = (k, r) ∷ []
  put_record k r ((j, q) ∷ rest) =
      if str_eq j k then (k, r) ∷ rest else (j, q) ∷ put_record k r rest

  unfoldable pub store_new : InMemoryExecutionStore N
  store_new = record { records = []; log = [] }

  unfoldable pub create : ExecutionRecord N → InMemoryExecutionStore N → InMemoryExecutionStore N
  unfolding put_record
  create r s = record s { records = put_record r.execution_id r s.records }

  unfoldable pub load : String → InMemoryExecutionStore N → Option (ExecutionRecord N)
  unfolding find_record
  load id s = find_record id s.records

  unfoldable pub update : ExecutionRecord N → InMemoryExecutionStore N → InMemoryExecutionStore N
  unfolding put_record
  update r s = record s { records = put_record r.execution_id r s.records }

  unfoldable pub append_event : StoredEvent N → InMemoryExecutionStore N → InMemoryExecutionStore N
  append_event e s = record s { log = push s.log e }

  unfoldable pub events_of : String → List (StoredEvent N) → List (StoredEvent N)
  events_of id [] = []
  events_of id (e ∷ es) =
      let rest = events_of id es in if str_eq e.execution_id id then e ∷ rest else rest

  unfoldable pub events : String → InMemoryExecutionStore N → List (StoredEvent N)
  unfolding events_of
  events id s = events_of id s.log

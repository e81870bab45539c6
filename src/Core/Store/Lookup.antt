-- ===== src/Core/Store/Lookup.antt =====
-- What the in-memory store of Core/Store.antt promises its clients.
use ows_runtime_rust.Prelude.{
  String, ◌≡◌, refl, some, List, [], ◌∷◌, str_eq, eq_iff, arith, if◌then◌else◌, push,
}
use ows_runtime_rust.Core.Store.{
  ExecutionRecord, StoredEvent, InMemoryExecutionStore, find_record, put_record, create, load,
  update, append_event, events, events_of,
}

module _ {N : Type 0} where
  find-put :
      (k j : String) (r : ExecutionRecord N) (rs : List (String × ExecutionRecord N))
      → find_record j (put_record k r rs) ≡ (if str_eq k j then some r else find_record j rs)
  unfolding find_record put_record
  find-put k j r [] = refl
  find-put k j r ((i, q) ∷ rs) =
      ground (arith, eq_iff k j, eq_iff i k, eq_iff i j, find-put k j r rs)

  events-push :
      (id : String) (e : StoredEvent N) (es : List (StoredEvent N))
      → events_of id (push es e)
        ≡ (if str_eq e.execution_id id then push (events_of id es) e else events_of id es)
  unfolding events_of
  events-push id e [] = refl
  events-push id e (x ∷ es) = ground (arith, events-push id e es)

  pub load-update_same :
      (r : ExecutionRecord N) (s : InMemoryExecutionStore N)
      → load r.execution_id (update r s) ≡ some r
  unfolding load update
  load-update_same r s = ground (
    arith,
    find-put r.execution_id r.execution_id r s.records,
    eq_iff r.execution_id r.execution_id,
  )

  -- A record is found under its own id once it is created or updated, whatever was there before,
  -- and no other record is touched; neither operation touches an event, and an appended event is
  -- the last of its execution's, in no other execution's list, and touches no record.
  pub store_keeps :
      (s : InMemoryExecutionStore N) (r : ExecutionRecord N) (e : StoredEvent N) (id : String)
      → (load id (create r s) ≡ (if str_eq r.execution_id id then some r else load id s))
        × (load id (update r s) ≡ (if str_eq r.execution_id id then some r else load id s))
        × (events id (create r s) ≡ events id s)
        × (events id (update r s) ≡ events id s)
        × (load id (append_event e s) ≡ load id s)
        × (events id (append_event e s)
            ≡ (if str_eq e.execution_id id then push (events id s) e else events id s))
  unfolding create load update append_event events
  store_keeps s r e id = (
    find-put r.execution_id id r s.records,
    find-put r.execution_id id r s.records,
    refl,
    refl,
    refl,
    events-push id e s.log,
  )

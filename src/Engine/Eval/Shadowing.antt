-- ===== src/Engine/Eval/Shadowing.antt =====
-- Which variables an expression of Engine/Eval.antt sees.
use ows_runtime_rust.Prelude.{
  ◌≡◌, refl, ap, ◌∙◌, String, Option, none, some, or_else, str_eq, eq_iff, Bool-cases, inl, inr,
  arith, sym,
}
use ows_runtime_rust.Json.{Value, Fields, end, field, get, insert, extend, get-insert}
use ows_runtime_rust.Engine.State.{State, Execution, Outcome, done}
use ows_runtime_rust.Engine.Runtime.{Runtime}
use ows_runtime_rust.Engine.Eval.{variables, context_value_sync}

module _ {N : Type 0} where
  -- no key stands twice, as in a map
  abbrev pub Distinct : Fields N → Type 0
  Distinct end = Unit
  Distinct (field k v m) = (get k m ≡ none) × Distinct m

  get-extend :
      (k : String) (m n : Fields N) → Distinct n → get k (extend m n) ≡ or_else (get k n) (get k m)
  unfolding get extend
  get-extend k m end d = refl
  get-extend k m (field j v n) d = elim (Bool-cases (str_eq j k)) [
    | inl same ↦
        let absent : get k n ≡ none = ap (λ x. get x n) (sym ((eq_iff j k).0 same)) ∙ d.0 in
        ground (arith, get-extend k (insert j v m) n d.1, get-insert j k v m, absent)
    | inr other ↦ ground (arith, get-extend k (insert j v m) n d.1, get-insert j k v m)
  ]

  -- a map stays one when a key is written
  pub insert-Distinct :
      (k : String) (v : Value N) (m : Fields N) → Distinct m → Distinct (insert k v m)
  unfolding insert get
  insert-Distinct k v end d = (refl, tt)
  insert-Distinct k v (field j w m) d = elim (Bool-cases (str_eq j k)) [
    | inl same ↦
        let absent : get k m ≡ none = ap (λ x. get x m) (sym ((eq_iff j k).0 same)) ∙ d.0 in
        rw same (absent, d.1)
    | inr other ↦ rw other (
      get-insert k j v m ∙ ground (arith, eq_iff j k, eq_iff k j, d.0),
      insert-Distinct k v m d.1,
    )
  ]

  shadowed :
      (k : String) (v : Value N) (m n : Fields N)
      → Distinct n
      → get k n ≡ some v
      → get k (extend m n) ≡ some v
  shadowed k v m n d h = get-extend k m n d ∙ ap (λ o. or_else o (get k m)) h

-- the variable's value, where an outcome gives variables
abbrev pub Binds : {N : Type 0} → String → Value N → Outcome N (Fields N) → Type 0
Binds k v (done vars) = get k vars ≡ some v
Binds k v _ = ⊥

module _ {N W : Type 0} (rt : Runtime N W) (ex : Execution N) where
  -- A variable that the loops or the error handlers of an execution have bound is what an
  -- expression sees under its name, whatever else goes by that name: it hides `context`, `input`
  -- and the other variables of the runtime.
  pub variables_shadow :
      (k : String) (v input output : Value N) (t : Option (Value N)) (s : State N W)
      → Distinct s.loop_vars
      → get k s.loop_vars ≡ some v
      → Binds k v (variables rt ex input output t s).0
  unfolding variables context_value_sync
  variables_shadow k v input output t s d h = elim (Bool-cases (rt.lock_is_free s.world).0) [
    | inl free ↦ rw free (shadowed k v _ s.loop_vars d h)
    | inr taken ↦ rw taken (shadowed k v _ s.loop_vars d h)
  ]

-- ===== src/Expressions/Eval/Access.antt =====
-- Access by index and the tests of one value against another, of
-- crates/ows-runtime-expressions/src/eval.rs.
use Prim.Native.Char.{Char}
use ows_runtime_rust.Expressions.Error.{Evaluated, done, failed, type_error}
use ows_runtime_rust.Expressions.Text.{contains}
use ows_runtime_rust.Json.{
  get, null, number, string, array, object, field, end, nil, cons, Items, Fields, Value,
  list_of_items,
}
use ows_runtime_rust.Expressions.Int64.{ℤ, pos, negsuc}
use ows_runtime_rust.Expressions.Number.{Numbers}
use ows_runtime_rust.Prelude.{
  ℕ, List, String, Option, unwrap_or, Bool, some, length, false, true, ◌<>◌, get_elem?, ◌∷◌, none,
  if◌then◌else◌, ◌&&◌, ltb, ◌||◌, [], ◌-◌, suc,
}
use ows_runtime_rust.Expressions.Text.Chars.{chars, collect}
use ows_runtime_rust.Expressions.Eval.Values.{equal}

-- `if i < 0 { len + i } else { i }`, when it is an index below `len`
unfoldable pub real_index : ℤ → ℕ → Option ℕ
real_index (pos i) len = if ltb i len then some i else none
real_index (negsuc i) len = if ltb i len then some (len - suc i) else none

module _ {N F : Type 0} (num : Numbers N F) where
  -- `real` and the element there, `Null` without one
  abbrev pub at_or_null : List (Value N) → Option ℕ → Value N
  at_or_null vs none = null
  at_or_null vs (some i) = unwrap_or (get_elem? vs i) null

  abbrev char_or_null : List Char → Option ℕ → Value N
  char_or_null cs none = null
  char_or_null cs (some i) = elim (get_elem? cs i) [
    | none ↦ null
    | some c ↦ string (collect (c ∷ []))
  ]

  abbrev index_of : N → ℤ
  index_of n = num.to_i64 (num.as_f64 n)

  unfoldable pub index_error : String → Value N → Evaluated (Value N)
  index_error what other = failed (type_error (what <> ", got `" <> num.show_value other <> "`"))

  unfoldable pub index_array : Items N → Value N → Evaluated (Value N)
  unfolding real_index index_error
  index_array xs (number n) =
      let vs = list_of_items xs in done (at_or_null vs (real_index (index_of n) (length vs)))
  index_array xs (string _) = done null
  index_array xs other = index_error "array index must be a number" other

  unfoldable pub index_object : Fields N → Value N → Evaluated (Value N)
  unfolding get index_error
  index_object m (string s) = done (unwrap_or (get s m) null)
  index_object m (number _) = done null
  index_object m other = index_error "object index must be a string" other

  unfoldable pub index_string : String → Value N → Evaluated (Value N)
  unfolding real_index chars collect
  index_string s (number n) =
      let cs = chars s in done (char_or_null cs (real_index (index_of n) (length cs)))
  index_string s _ = failed (type_error "string index must be a number")

  unfoldable pub index_access : Value N → Value N → Evaluated (Value N)
  unfolding index_array index_object index_string
  index_access (array xs) idx = index_array xs idx
  index_access (object m) idx = index_object m idx
  index_access (string s) idx = index_string s idx
  index_access _ idx = done null

  abbrev any : (Value N → Bool) → List (Value N) → Bool
  any test [] = false
  any test (v ∷ vs) = test v || any test vs

  abbrev found_contains : (Value N → Bool) → Option (Value N) → Bool
  found_contains test none = false
  found_contains test (some v) = test v

  -- `contains_value`, its arguments swapped: a text inside a text, every item inside some item, every
  -- field inside the field of its key
  unfoldable mutual
    unfolding contains chars equal get

    pub is_within : Value N → Value N → Bool
    is_within (string n) (string h) = contains (chars h) (chars n)
    is_within (array ns) (array hs) = items_within ns (list_of_items hs)
    is_within (object ns) (object hs) = fields_within ns hs
    is_within n h = equal num h n

    pub items_within : Items N → List (Value N) → Bool
    items_within nil hs = true
    items_within (cons n ns) hs = any (is_within n) hs && items_within ns hs

    pub fields_within : Fields N → Fields N → Bool
    fields_within end hs = true
    fields_within (field k n ns) hs = found_contains (is_within n) (get k hs) && fields_within ns hs

  unfoldable pub contains_value : Value N → Value N → Bool
  unfolding is_within
  contains_value h n = is_within n h

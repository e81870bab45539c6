-- ===== src/Expressions/Eval/Values.antt =====
-- The helpers on values of crates/ows-runtime-expressions/src/eval.rs: texts, numbers, comparison,
-- and access by key or index.
use Prim.Native.String.{compare as compare_text}
use Prim.Native.Nat.{compare, Ordering}
use mathlib.Core.List.{map}
use ows_runtime_rust.Json.{
  Value, Fields, get, null, array, object, string, field, items_of_list, list_of_items, number,
  bool, values_equal, end, Items, cons, nil,
}
use ows_runtime_rust.Prelude.{
  List, String, Bool, Option, [], if◌then◌else◌, false, some, ◌∷◌, unwrap_or, push, true, none,
  length, ◌<>◌,
}
use ows_runtime_rust.Expressions.Number.{Numbers}
use ows_runtime_rust.Expressions.Int64.{ℤ}
use ows_runtime_rust.Expressions.Error.{ExpressionError, Evaluated, type_error, done, failed}

-- `sort` of texts
unfoldable pub insert_sorted : String → List String → List String
insert_sorted k [] = k ∷ []
insert_sorted k (j ∷ js) = elim (compare_text k j) [
  | Ordering.gt ↦ j ∷ insert_sorted k js
  | _ ↦ k ∷ j ∷ js
]

unfoldable pub sort : List String → List String
unfolding insert_sorted
sort [] = []
sort (k ∷ ks) = insert_sorted k (sort ks)

module _ {N : Type 0} where
  -- only `false` and `null` are not
  unfoldable pub truthy : Value N → Bool
  truthy null = false
  truthy (bool b) = b
  truthy _ = true

  unfoldable pub as_str : Value N → Option String
  as_str (string s) = some s
  as_str _ = none

  -- `stream.first().cloned().unwrap_or(Value::Null)`
  unfoldable pub first_or_null : List (Value N) → Value N
  first_or_null [] = null
  first_or_null (v ∷ _) = v

  -- `stream.last().cloned().unwrap_or(Value::Null)`
  unfoldable pub last_or_null : List (Value N) → Value N
  last_or_null [] = null
  last_or_null (v ∷ []) = v
  last_or_null (_ ∷ w ∷ vs) = last_or_null (w ∷ vs)

  -- `map.keys()`
  abbrev pub keys_of : Fields N → List String
  keys_of end = []
  keys_of (field k _ m) = k ∷ keys_of m

  -- `map.into_values()`: in the order of the keys
  unfoldable pub list_of_values : Fields N → List (Value N)
  unfolding sort get
  list_of_values m = map (λ k. unwrap_or (get k m) null) (sort (keys_of m))

  abbrev pub array_of : List (Value N) → Value N
  array_of vs = array (items_of_list vs)

  abbrev get_field : String → Value N → Value N
  get_field name (object m) = unwrap_or (get name m) null
  get_field name _ = null

  unfoldable pub field_access : Value N → String → Value N
  unfolding get
  field_access (object m) name = get_field name (object m)
  field_access (array xs) name = array_of (map (get_field name) (list_of_items xs))
  field_access _ name = null

  unfoldable mutual
    pub flatten_into : Value N → List (Value N) → List (Value N)
    flatten_into (array xs) out = flatten_items xs out
    flatten_into other out = push out other

    pub flatten_items : Items N → List (Value N) → List (Value N)
    flatten_items nil out = out
    flatten_items (cons x xs) out = flatten_items xs (flatten_into x out)

module _ {N F : Type 0} (num : Numbers N F) where
  unfoldable pub json_num : F → Value N
  json_num n =
      if num.is_exact n
      then number (num.from_i64 (num.to_i64 n))
      else elim (num.from_f64 n) [ none ↦ null | some m ↦ number m ]

  unfoldable pub json_int : ℤ → Value N
  json_int n = number (num.from_i64 n)

  unfoldable pub to_string : Value N → String
  to_string (string s) = s
  to_string (bool true) = "true"
  to_string (bool false) = "false"
  to_string null = "null"
  to_string (number n) = num.show_number n
  to_string (array xs) = num.to_json (array xs)
  to_string (object m) = num.to_json (object m)

  -- numbers are compared as floats
  unfoldable pub equal : Value N → Value N → Bool
  equal l r = values_equal (λ a b. num.f_eq (num.as_f64 a) (num.as_f64 b)) l r

  unfoldable pub cmp_error : Value N → Value N → ExpressionError
  cmp_error l r =
      type_error ("cannot compare `" <> num.show_value l <> "` and `" <> num.show_value r <> "`")

  abbrev or_equal : Option Ordering → Ordering
  or_equal none = Ordering.eq
  or_equal (some o) = o

  -- an order other than `Equal` ends the comparison
  abbrev next_unless_equal : Evaluated Ordering → Evaluated Ordering → Evaluated Ordering
  next_unless_equal (done Ordering.eq) rest = rest
  next_unless_equal first rest = first

  unfoldable mutual
    pub cmp : Value N → Value N → Evaluated Ordering
    cmp (number a) (number b) = done (or_equal (num.f_cmp (num.as_f64 a) (num.as_f64 b)))
    cmp (string a) (string b) = done (compare_text a b)
    cmp (array xs) (array ys) =
        next_unless_equal (cmp_items xs ys)
          (done (compare (length (list_of_items xs)) (length (list_of_items ys))))
    cmp l r = failed (cmp_error l r)

    -- the first order other than `Equal` of two items at the same index
    pub cmp_items : Items N → Items N → Evaluated Ordering
    cmp_items (cons x xs) (cons y ys) = next_unless_equal (cmp x y) (cmp_items xs ys)
    cmp_items _ _ = done Ordering.eq

  abbrev found_contains : (Value N → Bool) → Option (Value N) → Bool
  found_contains test none = false
  found_contains test (some v) = test v

-- ===== src/Expressions/Eval/Builtins/Arrays.antt =====
-- The built-in functions on arrays and objects of crates/ows-runtime-expressions/src/eval.rs.
-- A function takes the filters of its arguments.
use ows_runtime_rust.Expressions.Eval.Arith.{add}
use ows_runtime_rust.Prelude.{◌+◌, ◌-◌}
use ows_runtime_rust.Prelude.{
  ◌+◌, false, none, some, suc, zero, String, List, Option, ◌∷◌, [], ℕ, join_text, ◌<>◌, unwrap_or,
  Bool, if◌then◌else◌, ltb, not, length, is_none,
}
use mathlib.Core.List.{map}
use ows_runtime_rust.Expressions.Error.{
  Evaluated, done, failed, ◌>>=◌, flat_map, type_error, eval, try_map,
}
use ows_runtime_rust.Expressions.Int64.{ℤ, pos, negsuc, ◌+ℤ◌}
use ows_runtime_rust.Json.{
  Value, null, bool, number, string, array, object, get, list_of_items, count_fields,
}
use ows_runtime_rust.Expressions.Eval.Values.{
  truthy, first_or_null, last_or_null, flatten_into, json_num, to_string, array_of, as_str, sort,
  keys_of,
}
use ows_runtime_rust.Expressions.Number.{Numbers}
use ows_runtime_rust.Expressions.Eval.Compose.{Filter}
use ows_runtime_rust.Expressions.Eval.Access.{contains_value}
use ows_runtime_rust.Expressions.Text.Chars.{chars}

module _ {N : Type 0} where
  -- the stream of the first argument, if there is one
  unfoldable pub first_arg : List (Filter N) → Value N → Evaluated (Option (List (Value N)))
  first_arg [] input = done none
  first_arg (f ∷ _) input = f input >>= λ vs. done (some vs)

  unfoldable pub first_value : Option (List (Value N)) → Option (Value N)
  first_value (some (v ∷ _)) = some v
  first_value _ = none

  unfoldable pub text_in : Option (Value N) → Option String
  text_in (some (string s)) = some s
  text_in _ = none

  unfoldable pub call_select : List (Filter N) → Filter N
  unfolding truthy first_or_null
  call_select [] input = failed (eval "select requires a filter")
  call_select (f ∷ _) input =
      f input >>= λ vs. done (if truthy (first_or_null vs) then input ∷ [] else [])

  unfoldable pub call_first : Filter N
  unfolding first_or_null
  call_first (array xs) = done (first_or_null (list_of_items xs) ∷ [])
  call_first other = done (other ∷ [])

  unfoldable pub call_last : Filter N
  unfolding last_or_null
  call_last (array xs) = done (last_or_null (list_of_items xs) ∷ [])
  call_last other = done (other ∷ [])

  unfoldable pub call_flatten : Filter N
  unfolding flatten_into
  call_flatten input = done (array_of (flatten_into input []) ∷ [])

  -- the items in front of `rest`, in reverse
  abbrev pub reverse_onto : List (Value N) → List (Value N) → List (Value N)
  reverse_onto [] rest = rest
  reverse_onto (v ∷ vs) rest = reverse_onto vs (v ∷ rest)

module _ {N F : Type 0} (num : Numbers N F) where
  abbrev got : String → Value N → Evaluated (List (Value N))
  got what other = failed (type_error (what <> ", got `" <> num.show_value other <> "`"))

  abbrev json_usize : ℕ → Value N
  json_usize n = json_num num (num.of_usize n)

  unfoldable pub call_length : Filter N
  unfolding json_num count_fields chars
  call_length (object m) = done (json_usize (count_fields m) ∷ [])
  call_length (array xs) = done (json_usize (length (list_of_items xs)) ∷ [])
  call_length (string s) = done (json_usize (length (chars s)) ∷ [])
  call_length (number n) = done (json_usize (num.to_usize (num.f_abs (num.as_f64 n))) ∷ [])
  call_length null = done (json_usize 0 ∷ [])
  call_length (bool _) = failed (type_error "length of unsupported type")

  -- the numbers of the indices from `i` on
  abbrev pub indices : ℕ → List (Value N) → List (Value N)
  indices i [] = []
  indices i (_ ∷ vs) = json_usize i ∷ indices (suc i) vs

  unfoldable pub call_keys : Filter N
  unfolding sort json_num
  call_keys (object m) = done (array_of (map (λ k. string k) (sort (keys_of m))) ∷ [])
  call_keys (array xs) = done (array_of (indices 0 (list_of_items xs)) ∷ [])
  call_keys _ = failed (type_error "keys of non-object/array")

  unfoldable pub call_map : List (Filter N) → Filter N
  unfolding flat_map
  call_map [] input = failed (eval "map requires a filter")
  call_map (f ∷ _) (array xs) = flat_map f (list_of_items xs) >>= λ vs. done (array_of vs ∷ [])
  call_map (f ∷ _) other = got "map expects an array" other

  abbrev join_items : String → Value N → Evaluated (List (Value N))
  join_items sep (array xs) =
      done (string (join_text sep (map (to_string num) (list_of_items xs))) ∷ [])
  join_items sep other = got "join expects an array" other

  unfoldable pub call_join : List (Filter N) → Filter N
  unfolding first_arg first_value text_in to_string join_text
  call_join args input =
      first_arg args input >>= λ a. join_items (unwrap_or (text_in (first_value a)) "") input

  unfoldable pub call_contains : List (Filter N) → Filter N
  unfolding first_arg first_value contains_value
  call_contains args input = first_arg args input >>= λ a.
      done (bool (contains_value num input (unwrap_or (first_value a) null)) ∷ [])

  unfoldable pub call_reverse : Filter N
  call_reverse (array xs) = done (array_of (reverse_onto (list_of_items xs) []) ∷ [])
  call_reverse other = got "reverse expects an array" other

  unfoldable pub add_all : Value N → List (Value N) → Evaluated (Value N)
  unfolding add
  add_all acc [] = done acc
  add_all acc (v ∷ vs) = add num acc v >>= λ acc. add_all acc vs

  unfoldable pub call_add : Filter N
  unfolding add_all
  call_add (array xs) = add_all null (list_of_items xs) >>= λ v. done (v ∷ [])
  call_add other = done (other ∷ [])

  -- `(i as i64) >= 0 && (i as usize) < a.len()`
  abbrev is_index : ℤ → ℕ → ℕ → Bool
  is_index (pos _) i len = ltb i len
  is_index (negsuc _) i len = false

  unfoldable pub has_key : Value N → Value N → Bool
  unfolding get as_str
  has_key (object m) key = not (is_none (get (unwrap_or (as_str key) "") m))
  has_key (array xs) (number n) =
      let i = num.as_f64 n in is_index (num.to_i64 i) (num.to_usize i) (length (list_of_items xs))
  has_key _ key = false

  unfoldable pub call_has : List (Filter N) → Filter N
  unfolding first_arg first_value has_key
  call_has args input = first_arg args input >>= λ a.
      done (bool (has_key input (unwrap_or (first_value a) null)) ∷ [])

  -- `as_f64` of the first value of each argument
  unfoldable pub range_bounds : List (List (Value N)) → Evaluated (List F)
  range_bounds [] = done []
  range_bounds ((number n ∷ _) ∷ rest) = range_bounds rest >>= λ fs. done (num.as_f64 n ∷ fs)
  range_bounds _ = failed (eval "range requires numbers")

  -- how many numbers there are from `a` up to `b`
  unfoldable pub distance : ℤ → ℤ → ℕ
  distance (pos a) (pos b) = b - a
  distance (pos a) (negsuc b) = 0
  distance (negsuc a) (pos b) = suc a + b
  distance (negsuc a) (negsuc b) = a - b

  -- `count` numbers from `i` on
  unfoldable pub count_up : ℤ → ℕ → List (Value N)
  unfolding json_num ◌+ℤ◌
  count_up i zero = []
  count_up i (suc count) = json_num num (num.of_i64 i) ∷ count_up (i +ℤ pos 1) count

  unfoldable pub range_of : List F → List (Value N)
  unfolding distance count_up
  range_of [] = []
  range_of (n ∷ []) = count_up (pos 0) (distance (pos 0) (num.to_i64 n))
  range_of (a ∷ b ∷ _) = count_up (num.to_i64 a) (distance (num.to_i64 a) (num.to_i64 b))

  unfoldable pub call_range : List (Filter N) → Filter N
  unfolding try_map range_bounds range_of
  call_range args input =
      try_map (λ f. f input) args >>= λ streams. range_bounds streams >>= λ ns. done (range_of ns)

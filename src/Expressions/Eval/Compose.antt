-- ===== src/Expressions/Eval/Compose.antt =====
-- What the cases of `eval` of crates/ows-runtime-expressions/src/eval.rs do with the filters of
-- their subexpressions.
use ows_runtime_rust.Prelude.{true, false}
use mathlib.Core.List.{map, ◌++◌}
use ows_runtime_rust.Expressions.Error.{
  Evaluated, done, failed, ◌>>=◌, flat_map, try_map, type_error,
}
use ows_runtime_rust.Expressions.Syntax.{BinOp, UnaryOp}
use ows_runtime_rust.Json.{
  Value, null, bool, number, string, array, object, Fields, end, list_of_items, insert,
}
use ows_runtime_rust.Prelude.{List, String, Option, ◌∷◌, not, [], ◌<>◌, some, none}
use ows_runtime_rust.Expressions.Eval.Values.{
  field_access, truthy, first_or_null, last_or_null, json_num, list_of_values, to_string,
}
use ows_runtime_rust.Expressions.Number.{Numbers}
use ows_runtime_rust.Expressions.Eval.Access.{index_access}
use ows_runtime_rust.Expressions.Eval.Arith.{apply_binop}

abbrev pub Filter : Type 0 → Type 0
Filter N = Value N → Evaluated (List (Value N))

-- a text that is written out or the result of a filter: a key, or a part of a string
pub data TextFilter (N : Type 0) : Type 0 where
  plain : String → TextFilter N
  of_filter : Filter N → TextFilter N

module _ {N : Type 0} where
  unfoldable pub eval_variable : String → Option (Value N) → Evaluated (List (Value N))
  eval_variable name none = failed (type_error ("undefined variable `$" <> name <> "`"))
  eval_variable name (some v) = done (v ∷ [])

  unfoldable pub eval_field : Filter N → String → Filter N
  unfolding field_access
  eval_field base name input = base input >>= λ vs. done (map (λ v. field_access v name) vs)

  -- what iterating over a value yields
  unfoldable pub values_of : Value N → List (Value N)
  unfolding list_of_values
  values_of (array xs) = list_of_items xs
  values_of (object m) = list_of_values m
  values_of other = other ∷ []

  unfoldable pub eval_iterate : Filter N → Filter N
  unfolding values_of flat_map
  eval_iterate base input = base input >>= λ vs. flat_map (λ v. done (values_of v)) vs

  -- the results of the filters on one input, end to end
  unfoldable pub each_filter : List (Filter N) → Filter N
  each_filter [] input = done []
  each_filter (f ∷ fs) input = f input >>= λ vs. each_filter fs input >>= λ ws. done (vs ++ ws)

  unfoldable pub eval_if : Filter N → Filter N → Filter N → Filter N
  unfolding truthy first_or_null
  eval_if c t f input =
      c input >>= λ vs. elim (truthy (first_or_null vs)) [ true ↦ t input | false ↦ f input ]

  -- whether the last value of the right side holds
  abbrev last_truthy : Filter N → Filter N
  last_truthy r input = r input >>= λ ws. done (bool (truthy (last_or_null ws)) ∷ [])

module _ {N F : Type 0} (num : Numbers N F) where
  unfoldable pub eval_index : Filter N → Filter N → Filter N
  unfolding flat_map try_map index_access
  eval_index base idx input =
      base input >>= λ vs. idx input >>= λ is. flat_map (λ v. try_map (index_access num v) is) vs

  unfoldable pub negate : Value N → Evaluated (Value N)
  unfolding json_num
  negate (number n) = done (json_num num (num.f_neg (num.as_f64 n)))
  negate v = failed (type_error ("cannot negate non-number `" <> num.show_value v <> "`"))

  unfoldable pub eval_unary : UnaryOp → Filter N → Filter N
  unfolding try_map truthy negate
  eval_unary UnaryOp.not inner input = inner input >>= try_map (λ v. done (bool (not (truthy v))))
  eval_unary UnaryOp.negate inner input = inner input >>= try_map negate

  abbrev on_pairs : BinOp → Filter N → List (Value N) → Filter N
  on_pairs op r vs input = r input >>= λ ws. flat_map (λ l. try_map (apply_binop num op l) ws) vs

  -- the last value of the left side decides whether the right side is evaluated
  abbrev after_left : BinOp → Filter N → Value N → List (Value N) → Evaluated (List (Value N))
  after_left BinOp.and r input vs = elim (truthy (last_or_null vs)) [
    | true ↦ last_truthy r input
    | false ↦ done (bool false ∷ [])
  ]
  after_left BinOp.or r input vs = elim (truthy (last_or_null vs)) [
    | true ↦ done (bool true ∷ [])
    | false ↦ last_truthy r input
  ]
  after_left BinOp.alternative r input vs = elim (truthy (last_or_null vs)) [
    | true ↦ done vs
    | false ↦ r input
  ]
  after_left op r input vs = on_pairs op r vs input

  unfoldable pub eval_binary : BinOp → Filter N → Filter N → Filter N
  unfolding truthy last_or_null flat_map try_map apply_binop
  eval_binary op l r input = l input >>= λ vs. after_left op r input vs

  unfoldable pub text_of : TextFilter N → Value N → Evaluated String
  unfolding last_or_null to_string
  text_of (plain s) input = done s
  text_of (of_filter f) input = f input >>= λ vs. done (to_string num (last_or_null vs))

  -- the texts end to end
  unfoldable pub concat_texts : List (TextFilter N) → Value N → Evaluated String
  unfolding text_of
  concat_texts [] input = done ""
  concat_texts (p ∷ ps) input =
      text_of p input >>= λ s. concat_texts ps input >>= λ t. done (s <> t)

  unfoldable pub eval_string : List (TextFilter N) → Filter N
  unfolding concat_texts
  eval_string parts input = concat_texts parts input >>= λ s. done (string s ∷ [])

  -- the keys, each with the stream of its values
  unfoldable pub evaluate_entries :
      List (TextFilter N × Filter N) → Value N → Evaluated (List (String × List (Value N)))
  unfolding text_of
  evaluate_entries [] input = done []
  evaluate_entries ((k, f) ∷ es) input = text_of k input >>= λ key.
      f input >>= λ vs. evaluate_entries es input >>= λ rest. done ((key, vs) ∷ rest)

  -- an object for each value of the stream, `Null` for none
  unfoldable pub with_entry : String → List (Value N) → Fields N → List (Fields N)
  unfolding insert
  with_entry key [] obj = insert key null obj ∷ []
  with_entry key (v ∷ vs) obj = map (λ w. insert key w obj) (v ∷ vs)

  abbrev concat : List (List (Fields N)) → List (Fields N)
  concat [] = []
  concat (ms ∷ mss) = ms ++ concat mss

  -- the cartesian product of the streams
  unfoldable pub product : List (String × List (Value N)) → List (Fields N) → List (Fields N)
  unfolding with_entry
  product [] results = results
  product ((key, vs) ∷ rest) results = product rest (concat (map (with_entry key vs) results))

  unfoldable pub eval_object : List (TextFilter N × Filter N) → Filter N
  unfolding evaluate_entries product
  eval_object entries input = evaluate_entries entries input >>= λ evaluated.
      done (map (λ m. object m) (product evaluated (end ∷ [])))

-- ===== src/Expressions/Eval.antt =====
-- The evaluator: `eval` of crates/ows-runtime-expressions/src/eval.rs. An expression maps an input
-- value to a stream of values; evaluating its parts first gives the filters that it is composed of.
pub mod Values
pub mod Arith
pub mod Access
pub mod Compose
pub mod Builtins
pub mod Streams
pub mod Bounds
pub mod Reversal
pub mod Sorting
pub mod Flattening
pub mod RoundTrip
use ows_runtime_rust.Prelude.{[], ◌∷◌, List}
use ows_runtime_rust.Json.{Value, Fields, get}
use ows_runtime_rust.Expressions.Syntax.{
  no_exprs, expr, no_entries, entry, ident, str_key, computed, no_parts, literal_part, expr_part,
  identity, literal, variable, str, field, index, iterate, binary, unary, pipe, array, object, if_,
  call, stream, Expr, Exprs, expr, Entries, entry, ObjKey, ident, str_key, computed, Parts,
  literal_part, expr_part, no_exprs,
}
use ows_runtime_rust.Expressions.Error.{done, ◌>>=◌, Evaluated, flat_map}
use ows_runtime_rust.Expressions.Eval.Compose.{
  Filter, eval_field, eval_index, eval_iterate, eval_binary, eval_unary, eval_object, eval_string,
  eval_if, each_filter, eval_variable, TextFilter, plain, of_filter,
}
use ows_runtime_rust.Expressions.Number.{Numbers}
use ows_runtime_rust.Expressions.Eval.Values.{last_or_null, array_of}
use ows_runtime_rust.Expressions.Eval.Builtins.{call_function}

module _ {N F : Type 0} (num : Numbers N F) (vars : Fields N) where
  unfoldable mutual
    unfolding get eval_field eval_index eval_iterate eval_binary eval_unary eval_object eval_string
        eval_if flat_map call_function each_filter

    pub eval : Expr N → Filter N
    eval identity = λ v. done (v ∷ [])
    eval (literal v) = λ _. done (v ∷ [])
    eval (variable name) = λ _. eval_variable name (get name vars)
    eval (str parts) = eval_string num (eval_parts parts)
    eval (field base name) = eval_field (eval base) name
    eval (index base idx) = eval_index num (eval base) (eval idx)
    eval (iterate base) = eval_iterate (eval base)
    eval (binary op l r) = eval_binary num op (eval l) (eval r)
    eval (unary op inner) = eval_unary num op (eval inner)
    eval (pipe l r) = λ v. eval l v >>= λ left. flat_map (eval r) left
    eval (array elems) = λ v. each_filter (eval_exprs elems) v >>= λ vs. done (array_of vs ∷ [])
    eval (object entries) = eval_object num (eval_entries entries)
    eval (if_ c t f) = eval_if (eval c) (eval t) (eval f)
    eval (call name args) = call_function num name (eval_exprs args)
    eval (stream parts) = each_filter (eval_exprs parts)

    pub eval_exprs : Exprs N → List (Filter N)
    eval_exprs no_exprs = []
    eval_exprs (expr e es) = eval e ∷ eval_exprs es

    pub eval_entries : Entries N → List (TextFilter N × Filter N)
    eval_entries no_entries = []
    eval_entries (entry k e es) = (eval_key k, eval e) ∷ eval_entries es

    pub eval_key : ObjKey N → TextFilter N
    eval_key (ident s) = plain s
    eval_key (str_key s) = plain s
    eval_key (computed e) = of_filter (eval e)

    pub eval_parts : Parts N → List (TextFilter N)
    eval_parts no_parts = []
    eval_parts (literal_part s ps) = plain s ∷ eval_parts ps
    eval_parts (expr_part e ps) = of_filter (eval e) ∷ eval_parts ps

  unfoldable pub eval_single : Expr N → Value N → Evaluated (Value N)
  unfolding eval last_or_null
  eval_single e input = eval e input >>= λ vs. done (last_or_null vs)

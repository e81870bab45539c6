-- ===== src/Tests/Expressions.antt =====
-- The expression language at concrete texts. A number is an `ℕ`, which stands for floats too.
use Prim.Native.Nat.{compare}
use Prim.Native.Char.{Char, code}
use ows_runtime_rust.Expressions.Syntax.{
  Expr, BinOp, pipe, call, expr, no_exprs, binary, identity, literal, iterate,
}
use mathlib.Core.List.{map}
use ows_runtime_rust.Prelude.{
  ◌≢◌, ◌^◌, arith, not, is_none, ◌+◌, ◌*◌, ◌-◌, ◌%◌, ◌/◌, ℕ, ◌≡◌, refl, some, none, true, [], ◌∷◌,
  err, List, Bool, ◌==◌, show_usize, leb, ◌&&◌, ◌↔◌, String, false,
}
use ows_runtime_rust.Json.{
  null, bool, number, string, array, object, nil, cons, field, end, Items, Fields, Value,
  items_of_list, list_of_items, get,
}
use ows_runtime_rust.Expressions.Int64.{pos, negsuc, ℤ, is_zero}
use ows_runtime_rust.Expressions.Number.{Numbers, Unicode}
use ows_runtime_rust.Expressions.Error.{done, panicked, failed}
use ows_runtime_rust.Expressions.Parsed.{parsed, exhausted, Parsed, rejected}
use ows_runtime_rust.Expressions.Lexer.{tokenize}
use ows_runtime_rust.Expressions.Token.{dot, ident, eof}
use ows_runtime_rust.Expressions.Jq.{evaluate, evaluate_interpolation}
use ows_runtime_rust.Expressions.Text.Chars.{chars}
use ows_runtime_rust.Expressions.Eval.Bounds.{IsI64, mod_op-errors}
use ows_runtime_rust.Expressions.Eval.Arith.{apply_binop}
use ows_runtime_rust.Expressions.Eval.Access.{index_access}
use ows_runtime_rust.Expressions.Eval.Sorting.{Sorted, elem, eval-keys}
use ows_runtime_rust.Expressions.Eval.{eval}
use ows_runtime_rust.Expressions.Error.{eval as eval_error}
use ows_runtime_rust.Expressions.Eval.Streams.{result, map-iterate, pipe_assoc}
use ows_runtime_rust.Expressions.Parser.{parse_source}
use ows_runtime_rust.Expressions.Eval.Builtins.Arrays.{reverse_onto}
use ows_runtime_rust.Expressions.Eval.Flattening.{eval-flatten, leaves, AllFlat}
use ows_runtime_rust.Expressions.Eval.RoundTrip.{with_text, eval-split_join}
use ows_runtime_rust.Expressions.Parser.Halting.{parse_source_halts}
use ows_runtime_rust.Expressions.Jq.Halting.{evaluate_halts}
use ows_runtime_rust.Expressions.Eval.Reversal.{index-reverse}
use ows_runtime_rust.Expressions.Eval.Values.{array_of, list_of_values, sort, insert_sorted}
use ows_runtime_rust.Expressions.Eval.Compose.{eval_iterate, values_of}

abbrev natural : ℤ → ℕ
natural (pos n) = n
natural (negsuc n) = 0

abbrev digits_value : ℕ → List Char → ℕ
digits_value n [] = n
digits_value n (c ∷ cs) = digits_value (n * 10 + (code c - b'0')) cs

abbrev pub naturals : Numbers ℕ ℕ
naturals = record {
  as_i64 = λ n. some (pos n);
  from_i64 = natural;
  as_f64 = λ n. n;
  from_f64 = λ n. some n;
  same_number = λ a b. a == b;
  show_number = show_usize;
  is_exact = λ n. true;
  to_i64 = λ n. pos n;
  to_usize = λ n. n;
  of_i64 = natural;
  of_usize = λ n. n;
  f_one = 1;
  f_zero = 0;
  f_add = λ a b. a + b;
  f_sub = λ a b. a - b;
  f_mul = λ a b. a * b;
  f_div = λ a b. a / b;
  f_rem = λ a b. a % b;
  f_neg = λ n. n;
  f_abs = λ n. n;
  f_floor = λ n. n;
  f_max0 = λ n. n;
  f_is_zero = λ n. n == 0;
  f_eq = λ a b. a == b;
  f_cmp = λ a b. some (compare a b);
  parse_f64 = λ s. some (digits_value 0 (chars s));
  show_f64 = show_usize;
  to_json = λ v. "json";
  from_json = λ s. err "no json";
  show_value = λ v. "a value";
}

abbrev is_letter : Char → Bool
is_letter c = leb b'a' (code c) && leb (code c) b'z'

abbrev pub ascii : Unicode
ascii = record {
  is_alphabetic = is_letter;
  is_numeric = λ c. leb b'0' (code c) && leb (code c) b'9';
  from_u32 = λ n. none;
  debug_text = λ s. s;
}

tokenize_test : tokenize naturals ascii ".a #x" ≡ parsed (dot ∷ ident "a" ∷ eof ∷ [])
unfolding tokenize
tokenize_test = refl

evaluate_test :
    evaluate naturals ascii "${ .items | map(. + 1) | add }"
      (object (field "items" (array (cons (number 2) (cons (number 3) nil))) end))
      end
    ≡ parsed (done (number 7))
unfolding evaluate
evaluate_test = refl

and_test :
    evaluate naturals ascii "${ .a and .b }" (object (field "a" (bool true) end)) end
    ≡ parsed (done null)
unfolding evaluate
and_test = refl

interpolation_test :
    evaluate_interpolation naturals ascii "n=${ [3, 1 + 1][1] }!" null end
    ≡ parsed (done (string "n=2!"))
unfolding evaluate_interpolation show_usize
interpolation_test = refl

nested_test : evaluate naturals ascii "${ \"a\\(1 + 2)b\" }" null end ≡ parsed (done (string "a3b"))
unfolding evaluate show_usize
nested_test = refl

abbrev is_rejected : {A : Type 0} → Parsed A → Bool
is_rejected (rejected _) = true
is_rejected _ = false

-- `then` is read as a field of `.a`
if_test : is_rejected (evaluate naturals ascii "${ if .a then 1 else 2 end }" null end) ≡ true
unfolding evaluate
if_test = refl

-- the brace in the string closes the block
brace_test : is_rejected (evaluate_interpolation naturals ascii "${ \"}\" }" null end) ≡ true
unfolding evaluate_interpolation
brace_test = refl

-- the second `elif` is read as the name of a function
elif_test :
    is_rejected
      (evaluate naturals ascii "${ if 0 then 1 elif 0 then 1 elif 0 then 1 else 2 end }" null end)
    ≡ true
unfolding evaluate
elif_test = refl

-- a number with its sign, in place of `as_i64`
abbrev integers : Numbers ℤ ℤ
integers = record {
  as_i64 = λ n. some n;
  from_i64 = λ n. n;
  as_f64 = λ n. n;
  from_f64 = λ n. some n;
  same_number = λ a b. true;
  show_number = λ n. "a number";
  is_exact = λ n. true;
  to_i64 = λ n. n;
  to_usize = natural;
  of_i64 = λ n. n;
  of_usize = λ n. pos n;
  f_one = pos 1;
  f_zero = pos 0;
  f_add = λ a b. a;
  f_sub = λ a b. a;
  f_mul = λ a b. a;
  f_div = λ a b. a;
  f_rem = λ a b. a;
  f_neg = λ n. n;
  f_abs = λ n. n;
  f_floor = λ n. n;
  f_max0 = λ n. n;
  f_is_zero = is_zero;
  f_eq = λ a b. true;
  f_cmp = λ a b. none;
  parse_f64 = λ s. none;
  show_f64 = λ n. "a number";
  to_json = λ v. "json";
  from_json = λ s. err "no json";
  show_value = λ v. "a value";
}

abbrev least : ℤ
least = negsuc (2 ^ 63 - 1)

least-IsI64 : IsI64 least
unfolding IsI64
least-IsI64 = omega arith

minus_one-IsI64 : IsI64 (negsuc 0)
unfolding IsI64
minus_one-IsI64 = omega arith

mod_op-errors_example :
    let r = apply_binop integers BinOp.mod_ (number least) (number (negsuc 0)) in
    ((r ≡ failed (eval_error "modulo by zero")) ↔ (negsuc 0 ≡ pos 0))
    × ((r ≡ panicked) ↔ ((least ≡ negsuc (2 ^ 63 - 1)) × (negsuc 0 ≡ negsuc 0)))
mod_op-errors_example =
    mod_op-errors integers least (negsuc 0) least (negsuc 0) refl refl least-IsI64 minus_one-IsI64

abbrev three_items : Items ℤ
three_items = cons (number (pos 7)) (cons (number (pos 8)) (cons (number (pos 9)) nil))

-- `.[-2]` of three items
index-reverse_example :
    index_access integers (array three_items) (number (negsuc 1))
    ≡ index_access integers
        (array (items_of_list (reverse_onto (list_of_items three_items) [])))
        (number (pos 1))
index-reverse_example = index-reverse integers three_items (negsuc 1) (pos 1) 1 refl refl

abbrev two_keys : Fields ℕ
two_keys = field "b" null (field "a" (number 1) end)

eval-keys_example :
    (ks : List String) × (eval naturals end (call "keys" no_exprs) (object two_keys)
      ≡ done (array_of (map (λ k. string k) ks) ∷ []))
    × Sorted ks
    × ((k : String) → elem k ks ≡ not (is_none (get k two_keys)))
eval-keys_example = eval-keys naturals end two_keys

abbrev nested_items : Value ℕ
nested_items = array (cons (number 1) (cons (array (cons (number 2) nil)) nil))

eval-flatten_example :
    (eval naturals end (call "flatten" no_exprs) nested_items
      ≡ done (array_of (leaves nested_items) ∷ []))
    × AllFlat (leaves nested_items)
    × (eval naturals end (pipe (call "flatten" no_exprs) (call "flatten" no_exprs)) nested_items
        ≡ eval naturals end (call "flatten" no_exprs) nested_items)
eval-flatten_example = eval-flatten naturals end nested_items

-- an object's values come in the order of its keys
iterates_sorted :
    eval naturals end (iterate identity) (object (field "b" (number 1) (field "a" (number 2) end)))
    ≡ done (number 2 ∷ number 1 ∷ [])
unfolding eval eval_iterate values_of list_of_values sort insert_sorted get
iterates_sorted = refl

eval-split_join_example :
    eval naturals end
      (pipe (with_text naturals end "split" ", ") (with_text naturals end "join" ", "))
      (string "a, b")
    ≡ done (string "a, b" ∷ [])
eval-split_join_example = eval-split_join naturals end "a, b" ", "

abbrev add_one : Expr ℕ
add_one = binary BinOp.add identity (literal (number 1))

map-iterate_example :
    eval naturals end (call "map" (expr add_one no_exprs)) (array (cons (number 2) nil))
    ≡ eval naturals end
        (Expr.array (expr (pipe (iterate identity) add_one) no_exprs))
        (array (cons (number 2) nil))
map-iterate_example = map-iterate naturals end add_one (cons (number 2) nil)

pipe_assoc_example :
    result (eval naturals end (pipe (pipe add_one add_one) add_one) (number 2))
    ≡ result (eval naturals end (pipe add_one (pipe add_one add_one)) (number 2))
pipe_assoc_example = pipe_assoc naturals end add_one add_one add_one (number 2)

parse_source_halts_example : parse_source naturals ascii 40 "\"a\\(.b)\" | [.c, 1]" ≢ exhausted
unfolding chars
parse_source_halts_example =
    parse_source_halts naturals ascii 40 "\"a\\(.b)\" | [.c, 1]" (omega arith)

evaluate_halts_example : evaluate naturals ascii "x ${ .a }" null end ≢ exhausted
evaluate_halts_example = evaluate_halts naturals ascii "x ${ .a }" null end

-- ===== src/Expressions/Eval/Arith.antt =====
-- The binary operators on two values: `apply_binop` of crates/ows-runtime-expressions/src/eval.rs
-- and the functions it calls.
use Prim.Native.Nat.{Ordering}
use mathlib.Core.List.{map, ◌++◌}
use ows_runtime_rust.Expressions.Error.{Evaluated, done, failed, panicked, ◌>>=◌, type_error, eval}
use ows_runtime_rust.Expressions.Syntax.{BinOp}
use ows_runtime_rust.Json.{
  null, bool, number, string, array, object, nil, cons, extend, list_of_items,
}
use ows_runtime_rust.Prelude.{
  Bool, true, Option, String, ℕ, false, some, if◌then◌else◌, none, ◌<>◌, not, ◌||◌,
}
use ows_runtime_rust.Expressions.Number.{Numbers}
use ows_runtime_rust.Expressions.Int64.{ℤ, ◌+ℤ◌, ◌*ℤ◌, rem, wrap64, neg, is_zero}
use ows_runtime_rust.Json.{extend, Value, values_equal, Items, cons, bool, nil}
use ows_runtime_rust.Expressions.Eval.Values.{json_num, equal, to_string, json_int, cmp, array_of}
use ows_runtime_rust.Expressions.Text.{split, repeat}
use ows_runtime_rust.Expressions.Text.Chars.{chars}

abbrev is_lt : Ordering → Bool
is_lt Ordering.lt = true
is_lt _ = false

abbrev is_gt : Ordering → Bool
is_gt Ordering.gt = true
is_gt _ = false

module _ {N F : Type 0} (num : Numbers N F) where
  -- `as_i64` of both numbers, when both have one
  abbrev pub both_i64 : Option ℤ → Option ℤ → Option (ℤ × ℤ)
  both_i64 (some a) (some b) = some (a, b)
  both_i64 _ _ = none

  -- an operation on two numbers: on `i64` when both are such, and otherwise on floats
  abbrev on_numbers :
      (ℤ → ℤ → Evaluated (Value N)) → (F → F → Evaluated (Value N)) → N → N → Evaluated (Value N)
  on_numbers int float a b = elim (both_i64 (num.as_i64 a) (num.as_i64 b)) [
    | some (ai, bi) ↦ int ai bi
    | none ↦ float (num.as_f64 a) (num.as_f64 b)
  ]

  unfoldable pub mixed_error : String → Value N → String → Value N → Evaluated (Value N)
  mixed_error verb l between r = failed (
      type_error (
        "cannot "
        <> verb
        <> " `"
        <> num.show_value l
        <> "` "
        <> between
        <> " `"
        <> num.show_value r
        <> "`"))

  unfoldable pub add_numbers : N → N → Evaluated (Value N)
  unfolding ◌+ℤ◌ wrap64 json_int json_num
  add_numbers a b =
      on_numbers (λ ai bi. done (json_int num (wrap64 (ai +ℤ bi))))
        (λ x y. done (json_num num (num.f_add x y))) a b

  -- `null` is the identity
  unfoldable pub add : Value N → Value N → Evaluated (Value N)
  unfolding add_numbers extend to_string mixed_error
  add null r = done r
  add l null = done l
  add (number a) (number b) = add_numbers a b
  add (string a) (string b) = done (string (a <> b))
  add (array xs) (array ys) = done (array_of (list_of_items xs ++ list_of_items ys))
  add (string a) b = done (string (a <> to_string num b))
  add a (string b) = done (string (to_string num a <> b))
  add (object m) (object n) = done (object (extend m n))
  add l r = mixed_error "add" l "and" r

  -- `b.contains(x)`
  abbrev contains_item : Value N → Items N → Bool
  contains_item x nil = false
  contains_item x (cons y ys) = values_equal num.same_number y x || contains_item x ys

  -- the items of the first that the second does not contain
  unfoldable pub without : Items N → Items N → Items N
  unfolding values_equal
  without nil ys = nil
  without (cons x xs) ys =
      let rest = without xs ys in if contains_item x ys then rest else cons x rest

  unfoldable pub sub : Value N → Value N → Evaluated (Value N)
  unfolding ◌+ℤ◌ neg wrap64 json_int json_num without mixed_error
  sub (number a) (number b) =
      on_numbers (λ ai bi. done (json_int num (wrap64 (ai +ℤ neg bi))))
        (λ x y. done (json_num num (num.f_sub x y))) a b
  sub (array xs) (array ys) = done (array (without xs ys))
  sub l r = mixed_error "subtract" r "from" l

  -- `n.as_f64().unwrap().max(0.0) as usize`
  abbrev times : N → ℕ
  times n = num.to_usize (num.f_max0 (num.as_f64 n))

  unfoldable pub mul : Value N → Value N → Evaluated (Value N)
  unfolding ◌*ℤ◌ wrap64 json_int json_num repeat mixed_error
  mul (number a) (number b) =
      on_numbers (λ ai bi. done (json_int num (wrap64 (ai *ℤ bi))))
        (λ x y. done (json_num num (num.f_mul x y))) a b
  mul (string s) (number n) = done (string (repeat s (times n)))
  mul (number n) (string s) = done (string (repeat s (times n)))
  mul l r = mixed_error "multiply" l "and" r

  unfoldable pub div : Value N → Value N → Evaluated (Value N)
  unfolding json_num split chars mixed_error
  div (number a) (number b) =
      if num.f_is_zero (num.as_f64 b)
      then failed (eval "division by zero")
      else done (json_num num (num.f_div (num.as_f64 a) (num.as_f64 b)))
  div (string a) (string b) = done (array_of (map (λ s. string s) (split (chars a) (chars b))))
  div l r = mixed_error "divide" l "by" r

  unfoldable pub mod_i64 : ℤ → ℤ → Evaluated (Value N)
  unfolding rem json_int
  mod_i64 a b =
      if is_zero b
      then failed (eval "modulo by zero")
      else elim (rem a b) [ none ↦ panicked | some r ↦ done (json_int num r) ]

  unfoldable pub mod_f64 : F → F → Evaluated (Value N)
  unfolding json_num
  mod_f64 a b =
      if num.f_is_zero b
      then failed (eval "modulo by zero")
      else done (json_num num (num.f_rem a b))

  unfoldable pub mod_op : Value N → Value N → Evaluated (Value N)
  unfolding mod_i64 mod_f64 mixed_error
  mod_op (number a) (number b) = on_numbers mod_i64 mod_f64 a b
  mod_op l r = mixed_error "take" l "modulo" r

  -- `and`, `or` and `//` never come here: the code calls this `unreachable!`
  unfoldable pub apply_binop : BinOp → Value N → Value N → Evaluated (Value N)
  unfolding add sub mul div mod_op equal cmp
  apply_binop BinOp.add l r = add l r
  apply_binop BinOp.sub l r = sub l r
  apply_binop BinOp.mul l r = mul l r
  apply_binop BinOp.div l r = div l r
  apply_binop BinOp.mod_ l r = mod_op l r
  apply_binop BinOp.eq l r = done (bool (equal num l r))
  apply_binop BinOp.ne l r = done (bool (not (equal num l r)))
  apply_binop BinOp.lt l r = cmp num l r >>= λ o. done (bool (is_lt o))
  apply_binop BinOp.le l r = cmp num l r >>= λ o. done (bool (not (is_gt o)))
  apply_binop BinOp.gt l r = cmp num l r >>= λ o. done (bool (is_gt o))
  apply_binop BinOp.ge l r = cmp num l r >>= λ o. done (bool (not (is_lt o)))
  apply_binop _ l r = panicked

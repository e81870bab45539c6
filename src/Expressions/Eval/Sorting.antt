-- ===== src/Expressions/Eval/Sorting.antt =====
-- The function `keys` of crates/ows-runtime-expressions/src/eval.rs on an object.
use Prim.Native.Nat.{Ordering, compare as compare_ℕ}
use Prim.Native.Char.{code}
use Prim.Native.String.{compare, then}
use Prim.Native.String.compare.{nil-cons, cons-cons}
use ows_runtime_rust.Prelude.{
  ◌≡◌, ◌≢◌, refl, List, [], ◌∷◌, String, sym, ◌∙◌, ap, arith, ℕ, Bool, str_eq, false, ◌||◌, not,
  is_none,
}
use mathlib.Core.List.{map}
use ows_runtime_rust.Expressions.Error.{done}
use ows_runtime_rust.Expressions.Eval.{eval}
use ows_runtime_rust.Expressions.Eval.Builtins.{call_function}
use ows_runtime_rust.Expressions.Eval.Values.{array_of, insert_sorted, sort, keys_of}
use ows_runtime_rust.Json.{object, string, get, Fields, field, end}
use ows_runtime_rust.Expressions.Number.{Numbers}
use ows_runtime_rust.Expressions.Eval.Builtins.Arrays.{call_keys}
use ows_runtime_rust.Expressions.Syntax.{call, no_exprs}

-- no text comes after the next one
pub data Sorted : List String → Type 0 where
  empty : Sorted []
  one : (k : String) → Sorted (k ∷ [])
  more :
      (j k : String) (ks : List String)
      → compare j k ≢ Ordering.gt
      → Sorted (k ∷ ks)
      → Sorted (j ∷ k ∷ ks)

ℕ-swap-lt : (a b : ℕ) → compare_ℕ a b ≡ Ordering.gt → compare_ℕ b a ≡ Ordering.lt
ℕ-swap-lt a b e = ground (arith, e)

ℕ-swap-eq : (a b : ℕ) → compare_ℕ a b ≡ Ordering.eq → compare_ℕ b a ≡ Ordering.eq
ℕ-swap-eq a b e = ground (arith, e)

then-swap :
    (a b : ℕ) (o p x : Ordering)
    → compare_ℕ a b ≡ x
    → (o ≡ Ordering.gt → p ≡ Ordering.lt)
    → then x o ≡ Ordering.gt
    → then (compare_ℕ b a) p ≡ Ordering.lt
then-swap a b o p Ordering.lt q h e = absurd (cc)
then-swap a b o p Ordering.eq q h e = rw (ℕ-swap-eq a b q) (h e)
then-swap a b o p Ordering.gt q h e = rw (ℕ-swap-lt a b q) refl

compare-swap : (s t : String) → compare s t ≡ Ordering.gt → compare t s ≡ Ordering.lt
compare-swap String.[] String.[] h = absurd (let q : Ordering.eq ≡ Ordering.gt = h in cc)
compare-swap String.[] (String.◌∷◌ d t) h =
    absurd (let q : Ordering.lt ≡ Ordering.gt = sym (nil-cons d t) ∙ h in cc)
compare-swap (String.◌∷◌ c s) String.[] h = nil-cons c s
compare-swap (String.◌∷◌ c s) (String.◌∷◌ d t) h =
    cons-cons d c t s
    ∙ then-swap (code c) (code d) (compare s t) (compare t s) (compare_ℕ (code c) (code d)) refl
        (compare-swap s t) (sym (cons-cons c d s t) ∙ h)

-- the first key of an insertion is the new one or the old first one
insert_under :
    (i k : String) (ks : List String)
    → compare i k ≢ Ordering.gt
    → Sorted (i ∷ ks)
    → Sorted (insert_sorted k ks)
    → Sorted (i ∷ insert_sorted k ks)
unfolding insert_sorted
insert_under i k [] h s t = more i k [] h t
insert_under i k (j ∷ js) h (more i' j' js' q s) t =
    elim (compare k j)
        as (λ o.
          Sorted (elim o [ Ordering.gt ↦ j ∷ insert_sorted k js | _ ↦ k ∷ j ∷ js ])
          → Sorted (i ∷ elim o [ Ordering.gt ↦ j ∷ insert_sorted k js | _ ↦ k ∷ j ∷ js ])) [
            | Ordering.gt ↦ λ t. more i j (insert_sorted k js) q t
            | _ ↦ λ t. more i k (j ∷ js) h t
          ]
      t

tail-Sorted : (j : String) (js : List String) → Sorted (j ∷ js) → Sorted js
tail-Sorted j [] s = empty
tail-Sorted j (k ∷ ks) (more j' k' ks' q s) = s

insert_sorted-Sorted : (k : String) (ks : List String) → Sorted ks → Sorted (insert_sorted k ks)
unfolding insert_sorted
insert_sorted-Sorted k [] s = one k
insert_sorted-Sorted k (j ∷ js) s =
    go (compare k j) refl (insert_sorted-Sorted k js (tail-Sorted j js s))
  where
    go :
        (o : Ordering)
        → compare k j ≡ o
        → Sorted (insert_sorted k js)
        → Sorted (elim o [ Ordering.gt ↦ j ∷ insert_sorted k js | _ ↦ k ∷ j ∷ js ])
    go Ordering.lt q t = more k j js (λ h. absurd (cc)) s
    go Ordering.eq q t = more k j js (λ h. absurd (cc)) s
    go Ordering.gt q t =
        insert_under j k js
          (λ h. absurd (let r : Ordering.lt ≡ Ordering.gt = sym (compare-swap k j q) ∙ h in cc)) s t

sort-Sorted : (ks : List String) → Sorted (sort ks)
unfolding sort
sort-Sorted [] = empty
sort-Sorted (k ∷ ks) = insert_sorted-Sorted k (sort ks) (sort-Sorted ks)

abbrev pub elem : String → List String → Bool
elem k [] = false
elem k (j ∷ js) = str_eq j k || elem k js

elem-insert_sorted :
    (x k : String) (ks : List String) → elem x (insert_sorted k ks) ≡ (str_eq k x || elem x ks)
unfolding insert_sorted
elem-insert_sorted x k [] = refl
elem-insert_sorted x k (j ∷ js) = go (compare k j) (elem-insert_sorted x k js)
  where
    go :
        (o : Ordering)
        → elem x (insert_sorted k js) ≡ (str_eq k x || elem x js)
        → elem x (elim o [ Ordering.gt ↦ j ∷ insert_sorted k js | _ ↦ k ∷ j ∷ js ])
          ≡ (str_eq k x || (str_eq j x || elem x js))
    go Ordering.lt h = refl
    go Ordering.eq h = refl
    go Ordering.gt h = ground (arith, h)

elem-sort : (x : String) (ks : List String) → elem x (sort ks) ≡ elem x ks
unfolding sort
elem-sort x [] = refl
elem-sort x (k ∷ ks) = elem-insert_sorted x k (sort ks) ∙ ap (λ b. str_eq k x || b) (elem-sort x ks)

module _ {N : Type 0} where
  elem-keys_of : (x : String) (m : Fields N) → elem x (keys_of m) ≡ not (is_none (get x m))
  unfolding get
  elem-keys_of x end = refl
  elem-keys_of x (field k v m) = ground (arith, elem-keys_of x m)

module _ {N F : Type 0} (num : Numbers N F) (vars : Fields N) where
  -- On an object the function `keys` gives one array, of texts that are sorted and are exactly the
  -- keys of the object.
  pub eval-keys :
      (m : Fields N)
      → (ks : List String) × (eval num vars (call "keys" no_exprs) (object m)
          ≡ done (array_of (map (λ k. string k) ks) ∷ []))
        × Sorted ks
        × ((k : String) → elem k ks ≡ not (is_none (get k m)))
  unfolding eval call_keys call_function
  eval-keys m = (
    sort (keys_of m),
    refl,
    sort-Sorted (keys_of m),
    λ k. elem-sort k (keys_of m) ∙ elem-keys_of k m,
  )

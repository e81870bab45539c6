-- ===== src/Expressions/Eval/Flattening.antt =====
-- The function `flatten` of crates/ows-runtime-expressions/src/eval.rs.
use ows_runtime_rust.Prelude.{◌≡◌, refl, ap, sym, ◌∙◌, List, [], ◌∷◌, push, Bool, false, true}
use mathlib.Core.List.{◌++◌, append_assoc}
use mathlib.Core.Path.{subst}
use ows_runtime_rust.Json.{
  Value, Items, array, nil, cons, items_of_list, null, bool, number, string, object, Fields,
}
use ows_runtime_rust.Expressions.Syntax.{call, no_exprs, pipe}
use ows_runtime_rust.Expressions.Eval.{eval}
use ows_runtime_rust.Expressions.Eval.Values.{flatten_into, flatten_items, array_of}
use ows_runtime_rust.Expressions.Number.{Numbers}
use ows_runtime_rust.Expressions.Error.{done}
use ows_runtime_rust.Expressions.Eval.Streams.{append-nil}

module _ {N : Type 0} where
  abbrev pub is_array : Value N → Bool
  is_array (array _) = true
  is_array _ = false

  -- no value is an array
  abbrev pub AllFlat : List (Value N) → Type 0
  AllFlat [] = Unit {0}
  AllFlat (v ∷ vs) = (is_array v ≡ false) × AllFlat vs

  unfoldable mutual
    -- the values inside that are no arrays, in order
    pub leaves : Value N → List (Value N)
    leaves (array xs) = leaves_of xs
    leaves v = v ∷ []

    pub leaves_of : Items N → List (Value N)
    leaves_of nil = []
    leaves_of (cons x xs) = leaves x ++ leaves_of xs

  push-append : (out vs : List (Value N)) (v : Value N) → push out v ++ vs ≡ out ++ (v ∷ vs)
  push-append [] vs v = refl
  push-append (w ∷ out) vs v = ap (λ l. w ∷ l) (push-append out vs v)

  push-last : (out : List (Value N)) (v : Value N) → push out v ≡ out ++ (v ∷ [])
  push-last out v = sym (append-nil (push out v)) ∙ push-append out [] v

  append-AllFlat : (vs ws : List (Value N)) → AllFlat vs → AllFlat ws → AllFlat (vs ++ ws)
  append-AllFlat [] ws h k = k
  append-AllFlat (v ∷ vs) ws (h, hs) k = (h, append-AllFlat vs ws hs k)

  mutual
    unfolding leaves

    leaves-AllFlat : (v : Value N) → AllFlat (leaves v)
    leaves-AllFlat (array xs) = leaves_of-AllFlat xs
    leaves-AllFlat null = (refl, tt)
    leaves-AllFlat (bool b) = (refl, tt)
    leaves-AllFlat (number n) = (refl, tt)
    leaves-AllFlat (string s) = (refl, tt)
    leaves-AllFlat (object m) = (refl, tt)

    leaves_of-AllFlat : (xs : Items N) → AllFlat (leaves_of xs)
    leaves_of-AllFlat nil = tt
    leaves_of-AllFlat (cons x xs) =
        append-AllFlat (leaves x) (leaves_of xs) (leaves-AllFlat x) (leaves_of-AllFlat xs)

  mutual
    unfolding leaves flatten_into

    flatten_into-leaves :
        (v : Value N) (out : List (Value N)) → flatten_into v out ≡ out ++ leaves v
    flatten_into-leaves (array xs) out = flatten_items-leaves xs out
    flatten_into-leaves null out = push-last out null
    flatten_into-leaves (bool b) out = push-last out (bool b)
    flatten_into-leaves (number n) out = push-last out (number n)
    flatten_into-leaves (string s) out = push-last out (string s)
    flatten_into-leaves (object m) out = push-last out (object m)

    flatten_items-leaves :
        (xs : Items N) (out : List (Value N)) → flatten_items xs out ≡ out ++ leaves_of xs
    flatten_items-leaves nil out = sym (append-nil out)
    flatten_items-leaves (cons x xs) out =
        flatten_items-leaves xs (flatten_into x out)
        ∙ ap (λ o. o ++ leaves_of xs) (flatten_into-leaves x out)
        ∙ append_assoc out (leaves x) (leaves_of xs)

  -- arrays aside, a list of values is all leaves
  leaves_of-flat : (vs : List (Value N)) → AllFlat vs → leaves_of (items_of_list vs) ≡ vs
  unfolding leaves
  leaves_of-flat [] h = refl
  leaves_of-flat (array xs ∷ vs) (h, hs) = absurd (cc)
  leaves_of-flat (null ∷ vs) (h, hs) = ap (λ l. null ∷ l) (leaves_of-flat vs hs)
  leaves_of-flat (bool b ∷ vs) (h, hs) = ap (λ l. bool b ∷ l) (leaves_of-flat vs hs)
  leaves_of-flat (number n ∷ vs) (h, hs) = ap (λ l. number n ∷ l) (leaves_of-flat vs hs)
  leaves_of-flat (string s ∷ vs) (h, hs) = ap (λ l. string s ∷ l) (leaves_of-flat vs hs)
  leaves_of-flat (object m ∷ vs) (h, hs) = ap (λ l. object m ∷ l) (leaves_of-flat vs hs)

module _ {N F : Type 0} (num : Numbers N F) (vars : Fields N) where
  -- `flatten` gives one array, of the values inside its input that are no arrays, in order, however
  -- deep they stand. It has no array inside, and to flatten it again changes nothing.
  pub eval-flatten :
      (v : Value N)
      → (eval num vars (call "flatten" no_exprs) v ≡ done (array_of (leaves v) ∷ []))
        × AllFlat (leaves v)
        × (eval num vars (pipe (call "flatten" no_exprs) (call "flatten" no_exprs)) v
            ≡ eval num vars (call "flatten" no_exprs) v)
  unfolding eval leaves flatten_into
  eval-flatten v =
      let once = flatten_into-leaves v [] in
      (
        ap (λ l. done (array_of l ∷ [])) once,
        leaves-AllFlat v,
        ap (λ l. done (array_of l ∷ []))
            (flatten_items-leaves (items_of_list (flatten_into v [])) []
              ∙ leaves_of-flat (flatten_into v []) (subst AllFlat (sym once) (leaves-AllFlat v))),
      )

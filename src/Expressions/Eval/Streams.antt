-- ===== src/Expressions/Eval/Streams.antt =====
-- How the filters of crates/ows-runtime-expressions/src/eval.rs compose.
use mathlib.Core.List.{◌++◌}
use ows_runtime_rust.Prelude.{◌≡◌, refl, ap, sym, ◌∙◌, [], ◌∷◌, List, Option, some, none}
use ows_runtime_rust.Expressions.Error.{Evaluated, done, failed, panicked, ◌>>=◌, flat_map}
use ows_runtime_rust.Expressions.Syntax.{Expr, pipe, iterate, identity, array, call, expr, no_exprs}
use ows_runtime_rust.Expressions.Eval.{eval}
use ows_runtime_rust.Json.{Value, Items, Fields, list_of_items}
use ows_runtime_rust.Expressions.Number.{Numbers}
use ows_runtime_rust.Expressions.Eval.Values.{array_of}
use ows_runtime_rust.Expressions.Eval.Compose.{Filter}

pub append-nil : {A : Type 0} (xs : List A) → xs ++ [] ≡ xs
append-nil [] = refl
append-nil (x ∷ xs) = ap (λ ys. x ∷ ys) (append-nil xs)

append_assoc : {A : Type 0} (xs ys zs : List A) → (xs ++ ys) ++ zs ≡ xs ++ (ys ++ zs)
append_assoc [] ys zs = refl
append_assoc (x ∷ xs) ys zs = ap (λ l. x ∷ l) (append_assoc xs ys zs)

>>=-append_nil : {A : Type 0} (m : Evaluated (List A)) → (m >>= λ vs. done (vs ++ [])) ≡ m
>>=-append_nil (done vs) = ap (λ v. done v) (append-nil vs)
>>=-append_nil (failed e) = refl
>>=-append_nil panicked = refl

-- the result, without what went wrong if there is none
abbrev pub result : {A : Type 0} → Evaluated A → Option A
result (done a) = some a
result (failed e) = none
result panicked = none

-- results without errors: what a stream comes to, if it comes to anything
abbrev bind_option : {A B : Type 0} → Option A → (A → Option B) → Option B
bind_option none f = none
bind_option (some a) f = f a

module _ {B : Type 0} where
  abbrev append_option : Option (List B) → Option (List B) → Option (List B)
  append_option (some ys) (some zs) = some (ys ++ zs)
  append_option _ _ = none

  append_option_assoc :
      (p q r : Option (List B))
      → append_option p (append_option q r) ≡ append_option (append_option p q) r
  append_option_assoc none q r = refl
  append_option_assoc (some a) none r = refl
  append_option_assoc (some a) (some b) none = refl
  append_option_assoc (some a) (some b) (some c) = ap (λ l. some l) (sym (append_assoc a b c))

  append_option_empty : (p : Option (List B)) → append_option (some []) p ≡ p
  append_option_empty none = refl
  append_option_empty (some a) = refl

  append_option_none : (p : Option (List B)) → append_option p none ≡ none
  append_option_none none = refl
  append_option_none (some a) = refl

  result-append :
      (m n : Evaluated (List B))
      → result (m >>= λ ys. n >>= λ zs. done (ys ++ zs)) ≡ append_option (result m) (result n)
  result-append (done ys) (done zs) = refl
  result-append (done ys) (failed e) = refl
  result-append (done ys) panicked = refl
  result-append (failed e) n = refl
  result-append panicked n = refl

module _ {A B : Type 0} where
  result->>= :
      (m : Evaluated A) (k : A → Evaluated B)
      → result (m >>= k) ≡ bind_option (result m) (λ a. result (k a))
  result->>= (done a) k = refl
  result->>= (failed e) k = refl
  result->>= panicked k = refl

  concat_option : (A → Option (List B)) → List A → Option (List B)
  concat_option f [] = some []
  concat_option f (x ∷ xs) = append_option (f x) (concat_option f xs)

  result-flat_map :
      (f : A → Evaluated (List B)) (xs : List A)
      → result (flat_map f xs) ≡ concat_option (λ x. result (f x)) xs
  unfolding flat_map concat_option
  result-flat_map f [] = refl
  result-flat_map f (x ∷ xs) =
      result-append (f x) (flat_map f xs)
      ∙ ap (λ o. append_option (result (f x)) o) (result-flat_map f xs)

  concat_option-append :
      (f : A → Option (List B)) (xs ys : List A)
      → concat_option f (xs ++ ys) ≡ append_option (concat_option f xs) (concat_option f ys)
  unfolding concat_option
  concat_option-append f [] ys = sym (append_option_empty (concat_option f ys))
  concat_option-append f (x ∷ xs) ys =
      ap (λ o. append_option (f x) o) (concat_option-append f xs ys)
      ∙ append_option_assoc (f x) (concat_option f xs) (concat_option f ys)

  -- the law of a homomorphism, which makes pipes associative
  bind-append :
      (f : A → Option (List B)) (p q : Option (List A))
      → bind_option (append_option p q) (concat_option f)
        ≡ append_option (bind_option p (concat_option f)) (bind_option q (concat_option f))
  bind-append f none q = refl
  bind-append f (some xs) none = sym (append_option_none (concat_option f xs))
  bind-append f (some xs) (some ys) = concat_option-append f xs ys

result-concat :
    {A B : Type 0} (f : A → Evaluated (List B)) (m : Evaluated (List A))
    → result (m >>= flat_map f) ≡ bind_option (result m) (concat_option (λ x. result (f x)))
result-concat f m =
    result->>= m (flat_map f) ∙ ap (λ k. bind_option (result m) k) (λ i xs. result-flat_map f xs i)

module _ {A B C : Type 0} (f : A → Option (List B)) (g : B → Option (List C)) where
  concat_option-bind :
      (xs : List A)
      → bind_option (concat_option f xs) (concat_option g)
        ≡ concat_option (λ x. bind_option (f x) (concat_option g)) xs
  unfolding concat_option
  concat_option-bind [] = refl
  concat_option-bind (x ∷ xs) =
      bind-append g (f x) (concat_option f xs)
      ∙ ap (λ o. append_option (bind_option (f x) (concat_option g)) o) (concat_option-bind xs)

module _ {A B C : Type 0} where
  bind_option_assoc :
      (p : Option A) (f : A → Option B) (g : B → Option C)
      → bind_option (bind_option p f) g ≡ bind_option p (λ a. bind_option (f a) g)
  bind_option_assoc none f g = refl
  bind_option_assoc (some a) f g = refl

module _ {N F : Type 0} (num : Numbers N F) (vars : Fields N) where
  -- On an array, the function `map(f)` gives what the expression `[.[] | f]` gives, errors included.
  pub map-iterate :
      (f : Expr N) (xs : Items N)
      → eval num vars (call "map" (expr f no_exprs)) (Value.array xs)
        ≡ eval num vars (array (expr (pipe (iterate identity) f) no_exprs)) (Value.array xs)
  unfolding eval
  map-iterate f xs =
      ap (λ m. m >>= λ vs. done (array_of vs ∷ []))
        (sym (
          >>=-append_nil (flat_map (eval num vars f) (list_of_items xs ++ []))
          ∙ ap (λ l. flat_map (eval num vars f) l) (append-nil (list_of_items xs))))

  -- Where pipes are grouped makes no difference to the result: `(a | b) | c` has one exactly when
  -- `a | (b | c)` has one, and they are equal. When there is none, the errors may differ.
  pub pipe_assoc :
      (a b c : Expr N) (v : Value N)
      → result (eval num vars (pipe (pipe a b) c) v) ≡ result (eval num vars (pipe a (pipe b c)) v)
  unfolding eval
  pipe_assoc a b c v =
      let g : Filter N = eval num vars b in
      let h : Filter N = eval num vars c in
      let m : Evaluated (List (Value N)) = eval num vars a v in
      result-concat h (m >>= flat_map g)
      ∙ ap (λ o. bind_option o (concat_option (λ x. result (h x)))) (result-concat g m)
      ∙ bind_option_assoc (result m) (concat_option (λ x. result (g x)))
          (concat_option (λ x. result (h x)))
      ∙ ap (λ k. bind_option (result m) k)
          (λ i xs. concat_option-bind (λ x. result (g x)) (λ x. result (h x)) xs i)
      ∙ ap (λ k. bind_option (result m) (concat_option k)) (λ i x. sym (result-concat h (g x)) i)
      ∙ sym (result-concat (λ x. g x >>= flat_map h) m)

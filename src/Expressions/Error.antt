-- ===== src/Expressions/Error.antt =====
-- The errors of crates/ows-runtime-expressions/src/error.rs, and what an evaluation comes to.
use mathlib.Core.List.{◌++◌}
use ows_runtime_rust.Prelude.{ℕ, String, List, Option, ◌∷◌, some, ◌<>◌, show_usize, [], none}

pub data ExpressionError : Type 0 where
  lex parse : ℕ → String → ExpressionError
  eval type_error : String → ExpressionError
  unsupported_function : String → ExpressionError

-- `to_string`, the message of the runtime's own error
unfoldable pub display : ExpressionError → String
display (lex pos message) = "lex error at byte " <> show_usize pos <> ": " <> message
display (parse pos message) = "parse error at byte " <> show_usize pos <> ": " <> message
display (eval message) = "eval error: " <> message
display (type_error message) = "type error: " <> message
display (unsupported_function name) = "unsupported function `" <> name <> "`"

-- a result, an error, or a panic of the arithmetic
pub data Evaluated (A : Type 0) : Type 0 where
  done : A → Evaluated A
  failed : ExpressionError → Evaluated A
  panicked : Evaluated A

module _ {A B : Type 0} where
  infixl 1 ◌>>=◌ ◌>>◌
  abbrev pub ◌>>=◌ : Evaluated A → (A → Evaluated B) → Evaluated B
  done a >>= f = f a
  failed e >>= f = failed e
  panicked >>= f = panicked

  abbrev pub ◌>>◌ : Evaluated A → Evaluated B → Evaluated B
  m >> k = m >>= λ _. k

-- the results of a fallible `f` on each value, end to end
unfoldable pub flat_map : {A B : Type 0} → (A → Evaluated (List B)) → List A → Evaluated (List B)
flat_map f [] = done []
flat_map f (x ∷ xs) = f x >>= λ ys. flat_map f xs >>= λ zs. done (ys ++ zs)

-- a missing value is an error
abbrev pub ok_or : {A : Type 0} → Option A → ExpressionError → Evaluated A
ok_or none e = failed e
ok_or (some a) e = done a

-- the result of a fallible `f` on each value
unfoldable pub try_map : {A B : Type 0} → (A → Evaluated B) → List A → Evaluated (List B)
try_map f [] = done []
try_map f (x ∷ xs) = f x >>= λ y. try_map f xs >>= λ ys. done (y ∷ ys)

-- ===== src/Expressions/Parsed.antt =====
-- What reading a source text comes to, and postconditions on it.
use mathlib.Core.Path.{subst}
use ows_runtime_rust.Prelude.{Option, none, some, Bool, true, false, refl, ◌≡◌, ◌≢◌}
use ows_runtime_rust.Expressions.Error.{ExpressionError}

-- `rejected` is an error of the program; `exhausted` is fuel that has run out, which has no
-- counterpart there
pub data Parsed (A : Type 0) : Type 0 where
  parsed : A → Parsed A
  rejected : ExpressionError → Parsed A
  exhausted : Parsed A

infixl 1 ◌>>=◌
abbrev pub ◌>>=◌ : {A B : Type 0} → Parsed A → (A → Parsed B) → Parsed B
parsed a >>= f = f a
rejected e >>= f = rejected e
exhausted >>= f = exhausted

-- the fuel did not run out, and `P` holds of the result if there is one
pub data Ensures {A : Type 0} (P : A → Type 0) : Parsed A → Type 0 where
  holds : {a : A} → P a → Ensures P (parsed a)
  refused : {e : ExpressionError} → Ensures P (rejected e)

module _ {A : Type 0} {P : A → Type 0} where
  pub Ensures-parsed : {r : Parsed A} {a : A} → Ensures P r → r ≡ parsed a → P a
  Ensures-parsed (holds h) e = subst P (cc) h
  Ensures-parsed refused e = cc

  pub Ensures-exhausted : {r : Parsed A} → Ensures P r → r ≢ exhausted
  Ensures-exhausted (holds h) = cc
  Ensures-exhausted refused = cc

  pub Ensures->>= :
      {B : Type 0} {Q : B → Type 0} {r : Parsed A} {f : A → Parsed B}
      → Ensures P r
      → ((a : A) → P a → Ensures Q (f a))
      → Ensures Q (r >>= f)
  Ensures->>= (holds {a} h) k = k a h
  Ensures->>= refused k = refused

  pub Ensures-cases :
      (b : Bool) {x y : Parsed A}
      → (b ≡ true → Ensures P x)
      → (b ≡ false → Ensures P y)
      → Ensures P (elim b [ true ↦ x | false ↦ y ])
  Ensures-cases true hx hy = hx refl
  Ensures-cases false hx hy = hy refl

  pub Ensures-mono :
      {Q : A → Type 0} {r : Parsed A} → Ensures P r → ((a : A) → P a → Q a) → Ensures Q r
  Ensures-mono (holds {a} h) k = holds (k a h)
  Ensures-mono refused k = refused

  pub Ensures-option :
      {B : Type 0} (o : Option B) {x : Parsed A} {f : B → Parsed A}
      → (o ≡ none → Ensures P x)
      → ((b : B) → o ≡ some b → Ensures P (f b))
      → Ensures P (elim o [ none ↦ x | some b ↦ f b ])
  Ensures-option none hx hf = hx refl
  Ensures-option (some b) hx hf = hf b refl

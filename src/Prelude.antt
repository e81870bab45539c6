-- ===== src/Prelude.antt =====
-- Names and small functions that the other modules share.
use Prim.Native.Nat.{compare, Ordering}
use Prim.Native.String.{◌++◌}
pub use Prim.Native.Nat.{ℕ, zero, suc, ◌+◌, ◌-◌, ◌*◌, ◌/◌, ◌%◌, ◌^◌, ◌≤◌, ◌<◌, min}
pub use Prim.Native.String.{String}
pub use mathlib.Core.Path.{◌≡◌, refl, sym, ap, ◌∙◌}
pub use mathlib.Core.Logic.{◌≢◌, ◌⊎◌, inl, inr, ◌↔◌}
pub use mathlib.Core.Bool.{Bool, true, false, ◌&&◌, ◌||◌, not}
pub use mathlib.Core.Option.{Option, none, some}
pub use mathlib.Core.List.{List, [], ◌∷◌}
pub use native.Mathlib.Omega.{arith}
pub use text.Mathlib.Text.{◌==◌ as str_eq}
pub use text.Mathlib.TextEquality.{eq_iff}
pub use text.Mathlib.TextPositions.{eq_refl}

abbrev pub ltb : ℕ → ℕ → Bool
ltb a b = elim (compare a b) [ Ordering.lt ↦ true | _ ↦ false ]

abbrev pub leb : ℕ → ℕ → Bool
leb a b = elim (compare a b) [ Ordering.gt ↦ false | _ ↦ true ]

infix 50 ◌==◌
abbrev pub ◌==◌ : ℕ → ℕ → Bool
a == b = elim (compare a b) [ Ordering.eq ↦ true | _ ↦ false ]

infix 1 if◌then◌else◌
abbrev pub if◌then◌else◌ {ℓ} : {A : Type ℓ} → Bool → A → A → A
if true then x else y = x
if false then x else y = y

pub Bool-cases : (b : Bool) → (b ≡ true) ⊎ (b ≡ false)
Bool-cases true = inl refl
Bool-cases false = inr refl

-- a value, or an error
pub data Result (E : Type 0) (A : Type 0) : Type 0 where
  ok : A → Result E A
  err : E → Result E A

module _ {ℓ} {A : Type ℓ} where
  abbrev pub length : List A → ℕ
  length [] = 0
  length (_ ∷ xs) = suc (length xs)

  abbrev pub get_elem? : List A → ℕ → Option A
  get_elem? [] i = none
  get_elem? (x ∷ xs) zero = some x
  get_elem? (x ∷ xs) (suc i) = get_elem? xs i

  abbrev pub unwrap_or : Option A → A → A
  unwrap_or none d = d
  unwrap_or (some a) d = a

  -- `Vec::push`
  abbrev pub push : List A → A → List A
  push [] x = x ∷ []
  push (y ∷ ys) x = y ∷ push ys x

  -- `a.or(b)`
  abbrev pub or_else : Option A → Option A → Option A
  or_else none b = b
  or_else (some a) b = some a

  abbrev pub is_none : Option A → Bool
  is_none none = true
  is_none (some _) = false

  pub some_inj : {a b : A} → some a ≡ some b → a ≡ b
  some_inj {a} h = ap (λ o. elim o [ none ↦ a | some x ↦ x ]) h

-- texts joined end to end
infixl 65 ◌<>◌
abbrev pub ◌<>◌ : String → String → String
s <> t = s ++ t

digit_text : ℕ → String
digit_text d =
    if d == 0
    then "0"
    else if d == 1
    then "1"
    else if d == 2
    then "2"
    else if d == 3
    then "3"
    else if d == 4
    then "4"
    else if d == 5
    then "5"
    else if d == 6
    then "6"
    else if d == 7
    then "7"
    else if d == 8
    then "8"
    else "9"

show_from : ℕ → ℕ → String
show_from zero n = ""
show_from (suc fuel) n =
    let rest = show_from fuel (n / 10) in
    if ltb n 10 then digit_text n else rest <> digit_text (n % 10)

-- the decimal text of an unsigned integer
unfoldable pub show_usize : ℕ → String
unfolding show_from digit_text
show_usize n = show_from (suc n) n

show_usize_test : show_usize 1000203 ≡ "1000203"
unfolding show_usize
show_usize_test = refl

-- `errors.join("; ")` and the like
unfoldable pub join_text : String → List String → String
join_text sep [] = ""
join_text sep (x ∷ []) = x
join_text sep (x ∷ y ∷ rest) = x <> sep <> join_text sep (y ∷ rest)

-- ===== src/Expressions/Text/Collect.antt =====
-- A text and its characters stand for each other.
use Prim.Native.Char.{Char}
use Prim.Native.String.{String, [], ◌∷◌, ◌++◌}
use Prim.Native.String.append
use mathlib.Core.Path.{◌≡◌, refl, ap, sym, ◌∙◌}
use mathlib.Core.List.{List}
use ows_runtime_rust.Prelude.{push}
use ows_runtime_rust.Expressions.Text.Chars.{chars, collect}

abbrev pub cons_text : Char → String → String
cons_text c s = c ∷ s

-- The characters of a text are that text.
pub collect-chars : (s : String) → collect (chars s) ≡ s
unfolding collect chars
collect-chars [] = refl
collect-chars (c ∷ s) = ap (λ t. c ∷ t) (collect-chars s)

pub collect-push : (s : List Char) (c : Char) → collect (push s c) ≡ collect s ++ (c ∷ [])
unfolding collect
collect-push List.[] c = sym (append.nil (c ∷ []))
collect-push (List.◌∷◌ d s) c =
    ap (λ t. d ∷ t) (collect-push s c) ∙ sym (append.cons d (collect s) (c ∷ []))

pub chars-collect : (s : List Char) → chars (collect s) ≡ s
unfolding collect chars
chars-collect List.[] = refl
chars-collect (List.◌∷◌ c s) = ap (λ t. List.◌∷◌ c t) (chars-collect s)

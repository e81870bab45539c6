-- ===== src/Expressions/Text/Chars.antt =====
-- A text and the list of its characters.
use Prim.Native.Char.{Char}
use Prim.Native.String.{String, [], ◌∷◌}
use mathlib.Core.List.{List}

-- `s.chars().collect::<Vec<char>>()`
unfoldable pub chars : String → List Char
chars [] = List.[]
chars (c ∷ s) = List.◌∷◌ c (chars s)

-- `cs.iter().collect::<String>()`
unfoldable pub collect : List Char → String
collect List.[] = []
collect (List.◌∷◌ c s) = c ∷ collect s

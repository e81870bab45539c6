-- ===== src/Expressions/Text.antt =====
-- Texts as the expression language reads them: the lists of their characters, and the operations of
-- `str` that it calls.
pub mod Chars
pub mod Collect
pub mod Joining
use Prim.Native.Char.{Char, code}
use Prim.Native.String.{char_at}
use ows_runtime_rust.Expressions.Text.Chars.{chars, collect}
use ows_runtime_rust.Engine.Ir.Duration.{is_whitespace}
use ows_runtime_rust.Prelude.{
  ℕ, Bool, List, Option, String, if◌then◌else◌, some, not, ◌∷◌, suc, leb, ◌==◌, none, is_none,
  length, [], ◌||◌, ◌<>◌, ◌&&◌, str_eq, zero, ◌-◌, push,
}

-- the character is the one with this code point
abbrev pub is : ℕ → Char → Bool
is n c = code c == n

abbrev pub is_space : Char → Bool
is_space c = is_whitespace (code c)

-- `s.strip_prefix(t)`
unfoldable pub strip_prefix : List Char → List Char → Option (List Char)
strip_prefix s [] = some s
strip_prefix [] (d ∷ t) = none
strip_prefix (c ∷ s) (d ∷ t) = let rest = strip_prefix s t in if is (code d) c then rest else none

-- `s.starts_with(t)`
abbrev pub starts_with : List Char → List Char → Bool
starts_with s t = not (is_none (strip_prefix s t))

-- `s.contains(t)`
unfoldable pub contains : List Char → List Char → Bool
unfolding strip_prefix
contains [] t = starts_with [] t
contains (c ∷ s) t = starts_with (c ∷ s) t || contains s t

abbrev pub cons_option : Char → Option (List Char) → Option (List Char)
cons_option c none = none
cons_option c (some s) = some (c ∷ s)

-- `s.strip_suffix(t)`
unfoldable pub strip_suffix : List Char → List Char → Option (List Char)
strip_suffix [] [] = some []
strip_suffix [] (d ∷ t) = none
strip_suffix (c ∷ s) t =
    let rest = strip_suffix s t in
    if str_eq (collect (c ∷ s)) (collect t) then some [] else cons_option c rest

-- The parts of `s.split(sep)` for a separator that is not empty, the first of them with `piece` in
-- front; `skip` characters of a separator are still to pass.
unfoldable pub split_from : List Char → List Char → ℕ → List Char → List String
unfolding strip_prefix
split_from sep [] skip piece = collect piece ∷ []
split_from sep (c ∷ s) (suc skip) piece = split_from sep s skip piece
split_from sep (c ∷ s) zero piece =
    let here = split_from sep s (length sep - 1) [] in
    let later = split_from sep s 0 (push piece c) in
    if starts_with (c ∷ s) sep then collect piece ∷ here else later

unfoldable pub split_chars : List Char → List String
split_chars [] = "" ∷ []
split_chars (c ∷ s) = collect (c ∷ []) ∷ split_chars s

-- `s.split(sep)`
unfoldable pub split : List Char → List Char → List String
unfolding split_from split_chars
split s [] = "" ∷ split_chars s
split s (d ∷ sep) = split_from (d ∷ sep) s 0 []

-- `s.repeat(n)`
unfoldable pub repeat : String → ℕ → String
repeat s zero = ""
repeat s (suc n) = s <> repeat s n

abbrev pub to_lower : Char → Char
to_lower c =
    if leb b'A' (code c) && leb (code c) b'Z'
    then char_at "abcdefghijklmnopqrstuvwxyz" (code c - b'A')
    else c

abbrev pub to_upper : Char → Char
to_upper c =
    if leb b'a' (code c) && leb (code c) b'z'
    then char_at "ABCDEFGHIJKLMNOPQRSTUVWXYZ" (code c - b'a')
    else c

-- `s.to_ascii_lowercase()`
unfoldable pub to_ascii_lowercase : List Char → List Char
to_ascii_lowercase [] = []
to_ascii_lowercase (c ∷ s) = to_lower c ∷ to_ascii_lowercase s

-- `s.to_ascii_uppercase()`
unfoldable pub to_ascii_uppercase : List Char → List Char
to_ascii_uppercase [] = []
to_ascii_uppercase (c ∷ s) = to_upper c ∷ to_ascii_uppercase s

unfoldable pub trim_start : List Char → List Char
unfolding is_whitespace
trim_start [] = []
trim_start (c ∷ s) = let rest = trim_start s in if is_space c then rest else c ∷ s

abbrev pub space_or_cons : Char → List Char → List Char
space_or_cons c [] = if is_space c then [] else c ∷ []
space_or_cons c (d ∷ s) = c ∷ d ∷ s

unfoldable pub trim_end : List Char → List Char
unfolding is_whitespace
trim_end [] = []
trim_end (c ∷ s) = space_or_cons c (trim_end s)

-- `s.trim()`
unfoldable pub trim : List Char → List Char
unfolding trim_start trim_end
trim s = trim_end (trim_start s)

-- `chars[i..]`
unfoldable pub drop : ℕ → List Char → List Char
drop zero s = s
drop (suc i) [] = []
drop (suc i) (c ∷ s) = drop i s

-- `chars[..i]`
unfoldable pub take : ℕ → List Char → List Char
take zero s = []
take (suc i) [] = []
take (suc i) (c ∷ s) = c ∷ take i s

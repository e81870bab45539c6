-- ===== src/Expressions/Lexer/Scan.antt =====
-- How the lexer of crates/ows-runtime-expressions/src/lexer.rs passes over characters. `pos` is
-- what has been read: the characters that are left take its place, and `at` gives a position back.
use Prim.Native.Char.{Char, code}
use mathlib.Core.List.{◌++◌}
use ows_runtime_rust.Prelude.{true, false}
use ows_runtime_rust.Engine.Ir.Duration.{is_whitespace}
use ows_runtime_rust.Prelude.{
  Bool, Option, List, ◌∷◌, leb, ℕ, some, none, if◌then◌else◌, ◌&&◌, ◌||◌, [], false, ◌-◌, ◌*◌, true,
  ◌+◌,
}
use ows_runtime_rust.Expressions.Token.{
  Token, recursive_dot, dot, eq_eq, lbracket, ne, rbracket, le, lbrace, ge, rbrace, alternative,
  lparen, rparen, pipe, comma, colon, semicolon, plus, minus, lt, gt, star, slash, percent, assign,
}
use ows_runtime_rust.Expressions.Text.{is, is_space}

-- the characters up to the first that `p` refuses, and the rest
unfoldable pub read_while : (Char → Bool) → List Char → List Char × List Char
read_while p [] = ([], [])
read_while p (c ∷ cs) =
    let (read, rest) = read_while p cs in if p c then (c ∷ read, rest) else ([], c ∷ cs)

-- whitespace and comments are passed over; a comment runs up to the end of its line
unfoldable pub skip : Bool → List Char → List Char
unfolding is_whitespace
skip in_comment [] = []
skip true (c ∷ cs) = elim (is b'\n' c) [ true ↦ skip false cs | false ↦ skip true cs ]
skip false (c ∷ cs) = elim (is_space c) [
  | true ↦ skip false cs
  | false ↦ elim (is b'#' c) [ true ↦ skip true cs | false ↦ c ∷ cs ]
]

-- the tokens of two characters
abbrev pub double_tokens : {F : Type 0} → List (ℕ × ℕ × Token F)
double_tokens =
    (b'.', b'.', recursive_dot)
    ∷ (b'=', b'=', eq_eq)
    ∷ (b'!', b'=', ne)
    ∷ (b'<', b'=', le)
    ∷ (b'>', b'=', ge)
    ∷ (b'/', b'/', alternative)
    ∷ []

abbrev pub find_double : {F : Type 0} → Char → Char → List (ℕ × ℕ × Token F) → Option (Token F)
find_double c d [] = none
find_double c d ((m, n, t) ∷ rest) = if is m c && is n d then some t else find_double c d rest

unfoldable pub double : {F : Type 0} → Char → Char → Option (Token F)
double c d = find_double c d double_tokens

-- the tokens of one character
abbrev pub single_tokens : {F : Type 0} → List (ℕ × Token F)
single_tokens =
    (b'.', dot)
    ∷ (b'[', lbracket)
    ∷ (b']', rbracket)
    ∷ (b'{', lbrace)
    ∷ (b'}', rbrace)
    ∷ (b'(', lparen)
    ∷ (b')', rparen)
    ∷ (b'|', pipe)
    ∷ (b',', comma)
    ∷ (b':', colon)
    ∷ (b';', semicolon)
    ∷ (b'+', plus)
    ∷ (b'-', minus)
    ∷ (b'<', lt)
    ∷ (b'>', gt)
    ∷ (b'*', star)
    ∷ (b'/', slash)
    ∷ (b'%', percent)
    ∷ (b'=', assign)
    ∷ []

abbrev pub find_single : {F : Type 0} → Char → List (ℕ × Token F) → Option (Token F)
find_single c [] = none
find_single c ((n, t) ∷ rest) = if is n c then some t else find_single c rest

unfoldable pub single : {F : Type 0} → Char → Option (Token F)
single c = find_single c single_tokens

abbrev pub is_ascii_digit : Char → Bool
is_ascii_digit c = leb b'0' (code c) && leb (code c) b'9'

-- digits, then a point and digits, then an exponent
unfoldable pub read_digits : List Char → List Char × List Char
unfolding read_while
read_digits cs = read_while is_ascii_digit cs

-- a character that `p` holds of, if it comes next
unfoldable pub read_one : (Char → Bool) → List Char → List Char × List Char
read_one p [] = ([], [])
read_one p (c ∷ cs) = if p c then (c ∷ [], cs) else ([], c ∷ cs)

-- digits after a character that was read
abbrev pub digits_after : List Char × List Char → List Char × List Char
digits_after ([], rest) = ([], rest)
digits_after (c ∷ read, rest) = let (ds, rest) = read_digits rest in (c ∷ read ++ ds, rest)

-- a sign and digits after the letter of an exponent
abbrev pub exponent_after : List Char × List Char → List Char × List Char
exponent_after ([], rest) = ([], rest)
exponent_after (e ∷ read, rest) =
    let (sign, rest) = read_one (λ c. is b'+' c || is b'-' c) rest in
    let (ds, rest) = read_digits rest in (e ∷ read ++ sign ++ ds, rest)

-- the text of a number, and the rest
unfoldable pub read_number_text : List Char → List Char × List Char
unfolding read_digits read_one
read_number_text cs =
    let (whole, cs) = read_digits cs in
    let (fraction, cs) = digits_after (read_one (is b'.') cs) in
    let (exponent, cs) = exponent_after (read_one (λ c. is b'e' c || is b'E' c) cs) in
    (whole ++ fraction ++ exponent, cs)

-- the value of a hexadecimal digit
unfoldable pub hex_digit : Char → Option ℕ
hex_digit c =
    if is_ascii_digit c
    then some (code c - b'0')
    else if leb b'a' (code c) && leb (code c) b'f'
    then some (code c - b'a' + 10)
    else if leb b'A' (code c) && leb (code c) b'F'
    then some (code c - b'A' + 10)
    else none

abbrev shift_in : Option ℕ → ℕ → Option ℕ
shift_in none value = none
shift_in (some d) value = some (value * 16 + d)

unfoldable pub hex_from : Option ℕ → List Char → Option ℕ
unfolding hex_digit
hex_from value [] = value
hex_from none (c ∷ cs) = none
hex_from (some value) (c ∷ cs) = hex_from (shift_in (hex_digit c) value) cs

-- `u32::from_str_radix(hex, 16)` of at most four characters: a sign `+` may come first
unfoldable pub from_str_radix : List Char → Option ℕ
unfolding hex_from
from_str_radix [] = none
from_str_radix (c ∷ []) = hex_from (some 0) (c ∷ [])
from_str_radix (c ∷ d ∷ cs) =
    if is b'+' c then hex_from (some 0) (d ∷ cs) else hex_from (some 0) (c ∷ d ∷ cs)

-- ===== src/Expressions/Lexer.antt =====
-- The lexer: crates/ows-runtime-expressions/src/lexer.rs. The characters that are left stand for
-- its position, which `at` gives back for a message. A round of a loop costs a unit of fuel; the
-- number of characters is enough.
pub mod Scan
pub mod Shorter
pub mod Total
use Prim.Native.Char.{Char, code}
use mathlib.Core.List.{◌++◌}
use ows_runtime_rust.Prelude.{
  true, false, none, some, zero, suc, ℕ, String, List, Bool, Option, ◌∷◌, push, [], length, ◌-◌,
  ◌||◌, ◌<>◌, if◌then◌else◌, ◌+◌,
}
use ows_runtime_rust.Expressions.Error.{lex}
use ows_runtime_rust.Expressions.Parsed.{Parsed, parsed, rejected, exhausted, ◌>>=◌}
use ows_runtime_rust.Expressions.Text.Chars.{chars, collect}
use ows_runtime_rust.Expressions.Token.{Token, eof, variable, ident, number, str, interp}
use ows_runtime_rust.Engine.Ir.Duration.{is_whitespace}
use ows_runtime_rust.Expressions.Number.{Numbers, Unicode}
use ows_runtime_rust.Expressions.Lexer.Scan.{
  read_while, read_number_text, from_str_radix, double, skip, single, is_ascii_digit,
}
use ows_runtime_rust.Expressions.Text.{is}

module _ {N F : Type 0} (num : Numbers N F) (uni : Unicode) (total : ℕ) where
  -- the position where `cs` is left to read
  abbrev at : List Char → ℕ
  at cs = total - length cs

  abbrev pub is_word : Char → Bool
  is_word c = uni.is_alphabetic c || uni.is_numeric c || is b'_' c

  unfoldable pub read_ident : List Char → String × List Char
  unfolding read_while collect
  read_ident cs = let (word, rest) = read_while is_word cs in (collect word, rest)

  abbrev pub number_or_error : ℕ → String → Option F → Parsed F
  number_or_error pos text none = rejected (lex pos ("invalid number `" <> text <> "`"))
  number_or_error pos text (some n) = parsed n

  unfoldable pub read_number : List Char → Parsed (F × List Char)
  unfolding read_number_text collect
  read_number cs =
      let (text, rest) = read_number_text cs in
      number_or_error (at cs) (collect text) (num.parse_f64 (collect text)) >>= λ n.
      parsed (n, rest)

  -- the source of an interpolation, up to the parenthesis that closes the first of `depth + 1`
  unfoldable pub read_interp_source : ℕ → List Char → List Char → Parsed (List Char × List Char)
  read_interp_source depth source [] = rejected (lex total "unterminated interpolation")
  read_interp_source depth source (c ∷ cs) = elim (is b'(' c) [
    | true ↦ read_interp_source (suc depth) (push source c) cs
    | false ↦ elim (is b')' c) [
      | false ↦ read_interp_source depth (push source c) cs
      | true ↦ elim depth [
        | zero ↦ parsed (source, cs)
        | suc depth' ↦ read_interp_source depth' (push source c) cs
      ]
    ]
  ]

  unfoldable pub flush : List (Token F) → List Char → List (Token F)
  unfolding collect
  flush tokens [] = tokens
  flush tokens (c ∷ literal) = push tokens (str (collect (c ∷ literal)))

  abbrev pub or_empty_string : List (Token F) → List (Token F)
  or_empty_string [] = str "" ∷ []
  or_empty_string (t ∷ ts) = t ∷ ts

  -- what an escape other than `(` and `u` adds to the text
  unfoldable pub unescape : Char → List Char
  unescape c =
      if is b'"' c
      then "\"" ∷ []
      else if is b'\\' c
      then "\\" ∷ []
      else if is b'n' c
      then "\n" ∷ []
      else if is b't' c
      then "\t" ∷ []
      else if is b'r' c
      then "\r" ∷ []
      else if is b'f' c
      then "\u{c}" ∷ []
      else if is b'b' c
      then "\u{8}" ∷ []
      else if is b'/' c
      then "/" ∷ []
      else "\\" ∷ c ∷ []

  abbrev pub push_char : List Char → Option Char → List Char
  push_char literal none = literal
  push_char literal (some c) = push literal c

  -- up to `n` characters, and the rest
  unfoldable pub bump_some : ℕ → List Char → List Char × List Char
  bump_some zero cs = ([], cs)
  bump_some (suc n) [] = ([], [])
  bump_some (suc n) (c ∷ cs) = let (read, rest) = bump_some n cs in (c ∷ read, rest)

  -- the text with the character of a code of four hexadecimal digits, and the rest
  unfoldable pub read_unicode : List Char → List Char → Parsed (List Char × List Char)
  unfolding bump_some from_str_radix
  read_unicode literal cs =
      let (hex, rest) = bump_some 4 cs in
      elim (from_str_radix hex) [
        | none ↦ rejected (lex (at rest) "invalid unicode escape")
        | some u ↦ parsed (push_char literal (uni.from_u32 u), rest)
      ]

  -- the characters of a string after its opening quote
  unfoldable pub read_string :
      ℕ → List Char → List (Token F) → List Char → Parsed (List (Token F) × List Char)
  unfolding flush unescape read_unicode read_interp_source collect
  read_string zero cs tokens literal = exhausted
  read_string (suc fuel) [] tokens literal = rejected (lex total "unterminated string")
  read_string (suc fuel) (c ∷ cs) tokens literal = elim (is b'"' c) [
    | true ↦ parsed (or_empty_string (flush tokens literal), cs)
    | false ↦ elim (is b'\\' c) [
      | false ↦ read_string fuel cs tokens (push literal c)
      | true ↦ elim cs [
        | [] ↦ rejected (lex total "unterminated escape")
        | e ∷ rest ↦ elim (is b'(' e) [
          | true ↦ read_interp_source 0 [] rest >>= λ (source, rest).
              read_string fuel rest (push (flush tokens literal) (interp (collect source))) []
          | false ↦ elim (is b'u' e) [
            | true ↦ read_unicode literal rest >>= λ (literal, rest).
                read_string fuel rest tokens literal
            | false ↦ read_string fuel rest tokens (literal ++ unescape e)
          ]
        ]
      ]
    ]
  ]

  abbrev Batch : Type 0
  Batch = Parsed (List (Token F) × List Char)

  -- the tokens that begin with a word, a quote or a digit
  unfoldable pub read_long : ℕ → Char → List Char → Batch
  unfolding read_ident read_string read_number collect
  read_long fuel c cs = elim (is b'$' c) [
    | true ↦ let (name, rest) = read_ident cs in parsed (variable name ∷ [], rest)
    | false ↦ elim (is b'"' c) [
      | true ↦ read_string fuel cs [] []
      | false ↦ elim (is_ascii_digit c) [
        | true ↦ read_number (c ∷ cs) >>= λ (v, rest). parsed (number v ∷ [], rest)
        | false ↦ elim (uni.is_alphabetic c || is b'_' c) [
          | true ↦ let (name, rest) = read_ident (c ∷ cs) in parsed (ident name ∷ [], rest)
          | false ↦
              rejected (lex (at (c ∷ cs)) ("unexpected character `" <> collect (c ∷ []) <> "`"))
        ]
      ]
    ]
  ]

  abbrev pub one_or_long : ℕ → Char → List Char → Option (Token F) → Batch
  one_or_long fuel c cs (some t) = parsed (t ∷ [], cs)
  one_or_long fuel c cs none = read_long fuel c cs

  unfoldable pub next_tokens_at : ℕ → List Char → Batch
  unfolding double single read_long
  next_tokens_at fuel [] = parsed (eof ∷ [], [])
  next_tokens_at fuel (c ∷ []) = one_or_long fuel c [] (single c)
  next_tokens_at fuel (c ∷ d ∷ cs) = elim (double {F = F} c d) [
    | some t ↦ parsed (t ∷ [], cs)
    | none ↦ one_or_long fuel c (d ∷ cs) (single c)
  ]

  unfoldable pub next_tokens : ℕ → List Char → Batch
  unfolding skip next_tokens_at
  next_tokens fuel cs = next_tokens_at fuel (skip false cs)

  abbrev pub begins_with_eof : List (Token F) → Bool
  begins_with_eof (eof ∷ _) = true
  begins_with_eof _ = false

  unfoldable pub tokenize_from : ℕ → List Char → Parsed (List (Token F))
  unfolding next_tokens
  tokenize_from zero cs = exhausted
  tokenize_from (suc fuel) cs = next_tokens fuel cs >>= λ (batch, rest).
      elim (begins_with_eof batch) [
        | true ↦ parsed batch
        | false ↦ tokenize_from fuel rest >>= λ tokens. parsed (batch ++ tokens)
      ]

module _ {N F : Type 0} (num : Numbers N F) (uni : Unicode) where
  unfoldable pub tokenize : String → Parsed (List (Token F))
  unfolding tokenize_from chars
  tokenize source = let cs = chars source in tokenize_from num uni (length cs) (length cs + 2) cs

-- ===== src/Expressions/Lexer/Shorter.antt =====
-- What the lexer of crates/ows-runtime-expressions/src/lexer.rs leaves of a text is no longer than
-- the text, and the sources of interpolations are shorter.
use Prim.Native.Char.{Char}
use ows_runtime_rust.Prelude.{
  ◌||◌, ◌≡◌, ◌<◌, ◌≤◌, ◌+◌, ◌-◌, suc, zero, ℕ, arith, refl, none, some, true, false, List, [], ◌∷◌,
  length, Bool, push, Option, if◌then◌else◌, ap,
}
use ows_runtime_rust.Expressions.Parsed.{
  parsed, rejected, Ensures, holds, refused, Ensures-cases, Ensures-mono,
}
use ows_runtime_rust.Expressions.Token.{Token, interp, eof, str}
use ows_runtime_rust.Expressions.Lexer.Scan.{
  read_while, skip, read_one, read_digits, read_number_text, digits_after, exponent_after,
  is_ascii_digit, from_str_radix,
}
use ows_runtime_rust.Expressions.Number.{Numbers, Unicode}
use ows_runtime_rust.Expressions.Lexer.{
  bump_some, read_interp_source, flush, or_empty_string, read_unicode, push_char,
}
use ows_runtime_rust.Expressions.Text.{is}
use ows_runtime_rust.Expressions.Text.Chars.{chars, collect}
use ows_runtime_rust.Expressions.Error.{lex}

pub read_while-shorter : (p : Char → Bool) (cs : List Char) → length (read_while p cs).1 ≤ length cs
unfolding read_while
read_while-shorter p [] = omega arith
read_while-shorter p (c ∷ cs) = ground (arith, read_while-shorter p cs)

pub skip-shorter : (b : Bool) (cs : List Char) → length (skip b cs) ≤ length cs
unfolding skip
skip-shorter b [] = omega arith
skip-shorter true (c ∷ cs) = ground (arith, skip-shorter false cs, skip-shorter true cs)
skip-shorter false (c ∷ cs) = ground (arith, skip-shorter false cs, skip-shorter true cs)

pub read_one-shorter : (p : Char → Bool) (cs : List Char) → length (read_one p cs).1 ≤ length cs
unfolding read_one
read_one-shorter p [] = omega arith
read_one-shorter p (c ∷ cs) = ground arith

pub read_while-less :
    (p : Char → Bool) (c : Char) (cs : List Char)
    → p c ≡ true
    → length (read_while p (c ∷ cs)).1 ≤ length cs
unfolding read_while
read_while-less p c cs h = rw h (read_while-shorter p cs)

pub digits_after-shorter : (r : List Char × List Char) → length (digits_after r).1 ≤ length r.1
unfolding read_digits
digits_after-shorter ([], rest) = omega arith
digits_after-shorter (c ∷ read, rest) = read_while-shorter is_ascii_digit rest

pub exponent_after-shorter : (r : List Char × List Char) → length (exponent_after r).1 ≤ length r.1
unfolding read_digits
exponent_after-shorter ([], rest) = omega arith
exponent_after-shorter (c ∷ read, rest) =
    let sign : List Char × List Char = read_one (λ c. is b'+' c || is b'-' c) rest in
    omega (
      arith,
      read_one-shorter (λ c. is b'+' c || is b'-' c) rest,
      read_while-shorter is_ascii_digit sign.1,
    )

pub read_number_text-less :
    (c : Char) (cs : List Char)
    → is_ascii_digit c ≡ true
    → length (read_number_text (c ∷ cs)).1 ≤ length cs
unfolding read_number_text read_digits
read_number_text-less c cs h =
    let whole : List Char × List Char = read_while is_ascii_digit (c ∷ cs) in
    let point : List Char × List Char = read_one (is b'.') whole.1 in
    let fraction : List Char × List Char = digits_after point in
    let letter : List Char × List Char = read_one (λ c. is b'e' c || is b'E' c) fraction.1 in
    omega (
      arith,
      read_while-less is_ascii_digit c cs h,
      read_one-shorter (is b'.') whole.1,
      digits_after-shorter point,
      read_one-shorter (λ c. is b'e' c || is b'E' c) fraction.1,
      exponent_after-shorter letter,
    )

-- Within a source of `n` characters: a token is not the end, and an interpolation is shorter.
abbrev pub Fits : {F : Type 0} → ℕ → Token F → Type 0
Fits n (interp s) = length (chars s) < n
Fits n eof = ⊥
Fits n _ = Unit {0}

abbrev pub AllFit : {F : Type 0} → ℕ → List (Token F) → Type 0
AllFit n [] = Unit {0}
AllFit n (t ∷ ts) = Fits n t × AllFit n ts

pub push-AllFit :
    {F : Type 0} (n : ℕ) (ts : List (Token F)) (t : Token F)
    → AllFit n ts
    → Fits n t
    → AllFit n (push ts t)
push-AllFit n [] t hs h = (h, tt)
push-AllFit n (u ∷ ts) t (hu, hs) h = (hu, push-AllFit n ts t hs h)

abbrev OptionFits : {F : Type 0} → ℕ → Option (Token F) → Type 0
OptionFits n none = Unit {0}
OptionFits n (some t) = Fits n t

pub length-push : {A : Type 0} (xs : List A) (x : A) → length (push xs x) ≡ suc (length xs)
length-push [] x = refl
length-push (y ∷ ys) x = ap (λ n. suc n) (length-push ys x)

pub if-Fits :
    {F : Type 0} (n : ℕ) (b : Bool) (t : Token F) (o : Option (Token F))
    → Fits n t
    → OptionFits n o
    → OptionFits n (if b then some t else o)
if-Fits n true t o h k = h
if-Fits n false t o h k = k

-- a token that is neither the end nor an interpolation
abbrev pub is_plain : {F : Type 0} → Token F → Bool
is_plain eof = false
is_plain (interp _) = false
is_plain _ = true

pub is_plain-Fits : {F : Type 0} (n : ℕ) (t : Token F) → is_plain t ≡ true → Fits n t
is_plain-Fits n eof h = cc
is_plain-Fits n (interp _) h = absurd (cc)
is_plain-Fits n _ h = tt

-- what was read and what is left are fewer than `n` characters
abbrev pub Within : ℕ → List Char × List Char → Type 0
Within n (read, rest) = length read + length rest < n

module _ {N F : Type 0} (num : Numbers N F) (uni : Unicode) (total : ℕ) where
  pub bump_some-shorter :
      (n : ℕ) (cs : List Char) → length (bump_some num uni total n cs).1 ≤ length cs
  unfolding bump_some
  bump_some-shorter zero cs = omega arith
  bump_some-shorter (suc n) [] = omega arith
  bump_some-shorter (suc n) (c ∷ cs) = omega (arith, bump_some-shorter n cs)

  pub read_interp_source-shorter :
      (depth : ℕ) (source cs : List Char)
      → Ensures
          (Within (length source + length cs))
          (read_interp_source num uni total depth source cs)
  unfolding read_interp_source
  read_interp_source-shorter depth source [] = refused
  read_interp_source-shorter depth source (c ∷ cs) =
      let further : (d : ℕ)
          → Ensures (Within (length source + suc (length cs)))
              (read_interp_source num uni total d (push source c) cs) =
        λ d.
          Ensures-mono (read_interp_source-shorter d (push source c) cs)
            λ _ h. omega (arith, h, length-push source c) in
      Ensures-cases (is b'(' c) (λ _. further (suc depth))
        λ _. Ensures-cases (is b')' c) (λ _. closing depth further) λ _. further depth
    where
      closing :
          (d : ℕ)
          → ((d : ℕ)
              → Ensures
                  (Within (length source + suc (length cs)))
                  (read_interp_source num uni total d (push source c) cs))
          → Ensures (Within (length source + suc (length cs))) (elim d [
            | zero ↦ parsed (source, cs)
            | suc d' ↦ read_interp_source num uni total d' (push source c) cs
          ])
      closing zero further = holds (omega arith)
      closing (suc d) further = further d

  pub flush-AllFit :
      (n : ℕ) (tokens : List (Token F)) (literal : List Char)
      → AllFit n tokens
      → AllFit n (flush num uni total tokens literal)
  unfolding flush
  flush-AllFit n tokens [] h = h
  flush-AllFit n tokens (c ∷ literal) h = push-AllFit n tokens (str (collect (c ∷ literal))) h tt

  pub or_empty_string-AllFit :
      (n : ℕ) (tokens : List (Token F))
      → AllFit n tokens
      → AllFit n (or_empty_string num uni total tokens)
  or_empty_string-AllFit n [] h = (tt, tt)
  or_empty_string-AllFit n (t ∷ ts) h = h

  pub read_unicode-shorter :
      (literal cs : List Char)
      → Ensures (λ r. length r.1 ≤ length cs) (read_unicode num uni total literal cs)
  unfolding read_unicode
  read_unicode-shorter literal cs = go (from_str_radix (bump_some num uni total 4 cs).0)
    where
      go :
          (o : Option ℕ)
          → Ensures
              (λ (r : List Char × List Char). length r.1 ≤ length cs)
              (elim o [
                | none ↦
                    rejected (
                      lex
                        (total - length (bump_some num uni total 4 cs).1)
                        "invalid unicode escape")
                | some u ↦ parsed (
                  push_char num uni total literal (uni.from_u32 u),
                  (bump_some num uni total 4 cs).1,
                )
              ])
      go none = refused
      go (some u) = holds (bump_some-shorter 4 cs)

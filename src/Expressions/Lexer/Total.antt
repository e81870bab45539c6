-- ===== src/Expressions/Lexer/Total.antt =====
-- The lexer of crates/ows-runtime-expressions/src/lexer.rs comes to an end: a batch of tokens takes
-- at least one character, or it is the end.
use Prim.Native.Char.{Char}
use mathlib.Core.List.{◌++◌}
use mathlib.Core.Logic.{◌⊎◌}
use ows_runtime_rust.Prelude.{
  ◌+◌, ◌&&◌, Bool, ◌≡◌, ◌<◌, ◌≤◌, ◌-◌, suc, zero, ℕ, arith, refl, none, some, true, false, inl, inr,
  List, [], ◌∷◌, length, ◌||◌, push, Option, if◌then◌else◌, String,
}
use ows_runtime_rust.Expressions.Parsed.{
  Parsed, parsed, ◌>>=◌, Ensures, holds, refused, Ensures->>=, Ensures-cases, Ensures-mono,
}
use ows_runtime_rust.Expressions.Token.{Token, eof, interp}
use ows_runtime_rust.Expressions.Lexer.Shorter.{
  AllFit, or_empty_string-AllFit, flush-AllFit, is_plain, read_interp_source-shorter, push-AllFit,
  read_unicode-shorter, read_while-shorter, Fits, read_while-less, read_number_text-less,
  is_plain-Fits, skip-shorter,
}
use ows_runtime_rust.Expressions.Number.{Numbers, Unicode}
use ows_runtime_rust.Expressions.Lexer.{
  read_string, read_long, one_or_long, flush, read_ident, read_number, unescape, next_tokens_at,
  number_or_error, is_word, begins_with_eof, tokenize_from, tokenize,
}
use ows_runtime_rust.Expressions.Text.{is}
use ows_runtime_rust.Expressions.Lexer.Scan.{
  find_single, is_ascii_digit, find_double, single_tokens, double, read_number_text, single,
  double_tokens, skip,
}
use ows_runtime_rust.Expressions.Text.Chars.{collect, chars}
use ows_runtime_rust.Expressions.Text.Collect.{chars-collect}

-- tokens that fit, and at most `m` characters left
abbrev pub Read : {F : Type 0} → ℕ → ℕ → List (Token F) × List Char → Type 0
Read n m (tokens, rest) = AllFit n tokens × length rest ≤ m

-- the end, or tokens that fit and fewer than `m` characters left
abbrev pub Progress : {F : Type 0} → ℕ → ℕ → List (Token F) × List Char → Type 0
Progress n m (tokens, rest) = (tokens ≡ eof ∷ []) ⊎ (AllFit n tokens × length rest < m)

abbrev all_plain2 : {F : Type 0} → List (ℕ × ℕ × Token F) → Bool
all_plain2 [] = true
all_plain2 ((_, _, t) ∷ table) = is_plain t && all_plain2 table

Read-mono :
    {F : Type 0} (n m k : ℕ) {x : Parsed (List (Token F) × List Char)}
    → m ≤ k
    → Ensures (Read n m) x
    → Ensures (Read n k) x
Read-mono n m k h e = Ensures-mono e λ r (p, q). (p, omega (arith, q, h))

abbrev all_plain : {F : Type 0} → List (ℕ × Token F) → Bool
all_plain [] = true
all_plain ((_, t) ∷ table) = is_plain t && all_plain table

module _ {N F : Type 0} (num : Numbers N F) (uni : Unicode) (n : ℕ) where
  read_string-Read :
      (fuel : ℕ) (cs : List Char) (tokens : List (Token F)) (literal : List Char)
      → length cs < fuel
      → length cs ≤ n
      → AllFit n tokens
      → Ensures (Read n (length cs)) (read_string num uni n fuel cs tokens literal)
  unfolding read_string
  read_string-Read zero cs tokens literal h k t = absurd (omega (arith, h))
  read_string-Read (suc fuel) [] tokens literal h k t = refused
  read_string-Read (suc fuel) (c ∷ []) tokens literal h k t =
      Ensures-cases (is b'"' c)
        (λ _. holds (
          or_empty_string-AllFit num uni n n _ (flush-AllFit num uni n n tokens literal t),
          omega arith,
        ))
        λ _.
          Ensures-cases (is b'\\' c) (λ _. refused)
            λ _.
              Ensures-mono
                (read_string-Read fuel [] tokens (push literal c) (omega (arith, h)) (omega arith)
                  t)
                λ r s. (s.0, omega (arith, s.1))
  read_string-Read (suc fuel) (c ∷ e ∷ rest) tokens literal h k t =
      let m : ℕ = suc (suc (length rest)) in
      Ensures-cases (is b'"' c)
        (λ _. holds (
          or_empty_string-AllFit num uni n n _ (flush-AllFit num uni n n tokens literal t),
          omega arith,
        ))
        λ _.
          Ensures-cases (is b'\\' c)
            (λ _.
              Ensures-cases (is b'(' e)
                (λ _.
                  Ensures->>= (read_interp_source-shorter num uni n 0 [] rest) λ (source, left) w.
                    Read-mono n (length left) m (omega (arith, w)) (
                      read_string-Read fuel left
                        (push (flush num uni n tokens literal) (interp (collect source))) []
                        (omega (arith, h, w)) (omega (arith, k, w))
                        (push-AllFit n _ _ (flush-AllFit num uni n n tokens literal t)
                          (rw (chars-collect source) (omega (arith, k, w))))))
                λ _.
                  Ensures-cases (is b'u' e)
                    (λ _.
                      Ensures->>= (read_unicode-shorter num uni n literal rest) λ (text, left) w.
                        Read-mono n (length left) m (omega (arith, w)) (
                          read_string-Read fuel left tokens text (omega (arith, h, w))
                            (omega (arith, k, w)) t))
                    λ _. Read-mono n (length rest) m (omega arith) (
                      read_string-Read fuel rest tokens (literal ++ unescape num uni n e)
                        (omega (arith, h)) (omega (arith, k)) t))
            λ _. Read-mono n (suc (length rest)) m (omega arith) (
              read_string-Read fuel (e ∷ rest) tokens (push literal c) (omega (arith, h))
                (omega (arith, k)) t)

  read_number-less :
      (c : Char) (cs : List Char)
      → is_ascii_digit c ≡ true
      → Ensures (λ (r : F × List Char). length r.1 ≤ length cs) (read_number num uni n (c ∷ cs))
  unfolding read_number
  read_number-less c cs h = go (num.parse_f64 (collect (read_number_text (c ∷ cs)).0))
    where
      go :
          (o : Option F)
          → Ensures
              (λ (r : F × List Char). length r.1 ≤ length cs)
              (number_or_error num uni n
                  (n - length (c ∷ cs))
                  (collect (read_number_text (c ∷ cs)).0)
                  o
                >>= λ v. parsed (v, (read_number_text (c ∷ cs)).1))
      go none = refused
      go (some v) = holds (read_number_text-less c cs h)

  read_long-Progress :
      (fuel : ℕ) (c : Char) (cs : List Char)
      → length cs < fuel
      → length cs < n
      → Ensures (Progress n (suc (length cs))) (read_long num uni n fuel c cs)
  unfolding read_long read_ident
  read_long-Progress fuel c cs h k =
      Ensures-cases (is b'$' c)
        (λ _. holds (inr ((tt, tt), omega (arith, read_while-shorter (is_word num uni n) cs))))
        λ _.
          Ensures-cases (is b'"' c)
            (λ _.
              Ensures-mono (read_string-Read fuel cs [] [] h (omega (arith, k)) tt)
                λ r (p, q). inr (p, omega (arith, q)))
            λ _.
              Ensures-cases (is_ascii_digit c)
                (λ e.
                  Ensures->>= (read_number-less c cs e)
                    λ r q. holds (inr ((tt, tt), omega (arith, q))))
                λ _.
                  Ensures-cases (uni.is_alphabetic c || is b'_' c)
                    (λ e. holds (
                      inr (
                        (tt, tt),
                        omega (arith, read_while-less (is_word num uni n) c cs (ground (arith, e))),
                      )))
                    λ _. refused

  one_or_long-Progress :
      (fuel : ℕ) (c : Char) (cs : List Char) (table : List (ℕ × Token F))
      → all_plain table ≡ true
      → length cs < fuel
      → length cs < n
      → Ensures
          (Progress n (suc (length cs)))
          (one_or_long num uni n fuel c cs (find_single c table))
  one_or_long-Progress fuel c cs [] p h k = read_long-Progress fuel c cs h k
  one_or_long-Progress fuel c cs ((m, t) ∷ table) p h k =
      go (is m c) (is_plain-Fits n t (ground (arith, p)))
        (one_or_long-Progress fuel c cs table (ground (arith, p)) h k)
    where
      go :
          (b : Bool)
          → Fits n t
          → Ensures
              (Progress n (suc (length cs)))
              (one_or_long num uni n fuel c cs (find_single c table))
          → Ensures
              (Progress n (suc (length cs)))
              (one_or_long num uni n fuel c cs (if b then some t else find_single c table))
      go true f e = holds (inr ((f, tt), omega arith))
      go false f e = e

  -- the tokens of two characters, and then the others
  two_or_one : ℕ → Char → Char → List Char → Option (Token F) → Parsed (List (Token F) × List Char)
  two_or_one fuel c d cs o = elim o [
    | some t ↦ parsed (t ∷ [], cs)
    | none ↦ one_or_long num uni n fuel c (d ∷ cs) (find_single c single_tokens)
  ]

  two_or_one-Progress :
      (fuel : ℕ) (c d : Char) (cs : List Char) (table : List (ℕ × ℕ × Token F))
      → all_plain2 table ≡ true
      → suc (length cs) < fuel
      → suc (length cs) < n
      → Ensures
          (Progress n (suc (suc (length cs))))
          (two_or_one fuel c d cs (find_double c d table))
  unfolding two_or_one
  two_or_one-Progress fuel c d cs [] p h k =
      one_or_long-Progress fuel c (d ∷ cs) single_tokens refl h k
  two_or_one-Progress fuel c d cs ((i, j, t) ∷ table) p h k =
      go (is i c && is j d) (is_plain-Fits n t (ground (arith, p)))
        (two_or_one-Progress fuel c d cs table (ground (arith, p)) h k)
    where
      go :
          (b : Bool)
          → Fits n t
          → Ensures
              (Progress n (suc (suc (length cs))))
              (two_or_one fuel c d cs (find_double c d table))
          → Ensures
              (Progress n (suc (suc (length cs))))
              (two_or_one fuel c d cs (if b then some t else find_double c d table))
      go true f e = holds (inr ((f, tt), omega arith))
      go false f e = e

  next_tokens_at-Progress :
      (fuel : ℕ) (cs : List Char)
      → length cs < suc fuel
      → length cs ≤ n
      → Ensures (Progress n (length cs)) (next_tokens_at num uni n fuel cs)
  unfolding next_tokens_at double single two_or_one
  next_tokens_at-Progress fuel [] h k = holds (inl refl)
  next_tokens_at-Progress fuel (c ∷ []) h k =
      one_or_long-Progress fuel c [] single_tokens refl (omega (arith, h)) (omega (arith, k))
  next_tokens_at-Progress fuel (c ∷ d ∷ cs) h k =
      two_or_one-Progress fuel c d cs double_tokens refl (omega (arith, h)) (omega (arith, k))

-- tokens that fit, and the end after them
abbrev pub Ready : {F : Type 0} → ℕ → List (Token F) → Type 0
Ready n [] = ⊥
Ready n (t ∷ []) = t ≡ eof
Ready n (t ∷ u ∷ ts) = Fits n t × Ready n (u ∷ ts)

append-Ready :
    {F : Type 0} (n : ℕ) (xs ys : List (Token F)) → AllFit n xs → Ready n ys → Ready n (xs ++ ys)
append-Ready n [] ys h k = k
append-Ready n (x ∷ []) [] h k = absurd k
append-Ready n (x ∷ []) (y ∷ ys) (h, _) k = (h, k)
append-Ready n (x ∷ w ∷ xs) ys (h, hs) k = (h, append-Ready n (w ∷ xs) ys hs k)

module _ {N F : Type 0} (num : Numbers N F) (uni : Unicode) (n : ℕ) where
  fits_not_eof : (ts : List (Token F)) → AllFit n ts → begins_with_eof num uni n ts ≡ false
  fits_not_eof [] h = refl
  fits_not_eof (eof ∷ ts) (h, _) = absurd h
  fits_not_eof (_ ∷ ts) h = refl

  tokenize_from-Ready :
      (fuel : ℕ) (cs : List Char)
      → length cs < fuel
      → length cs ≤ n
      → Ensures (Ready n) (tokenize_from num uni n fuel cs)
  unfolding tokenize_from
  tokenize_from-Ready zero cs h k = absurd (omega (arith, h))
  tokenize_from-Ready (suc fuel) cs h k =
      Ensures->>=
        (next_tokens_at-Progress num uni n fuel (skip false cs)
          (omega (arith, h, skip-shorter false cs)) (omega (arith, k, skip-shorter false cs)))
        λ r p. elim p [
          | inl e ↦
              let ready : Ready n r.0 = rw e refl in
              let is_end : begins_with_eof num uni n r.0 ≡ true = rw e refl in
              rw is_end (holds ready)
          | inr (fit, shorter) ↦ rw (fits_not_eof r.0 fit) (
              Ensures->>=
                (tokenize_from-Ready fuel r.1 (omega (arith, h, shorter, skip-shorter false cs))
                  (omega (arith, k, shorter, skip-shorter false cs)))
                λ ts ready. holds (append-Ready n r.0 ts fit ready))
        ]

module _ {N F : Type 0} (num : Numbers N F) (uni : Unicode) where
  pub tokenize-Ready :
      (source : String) → Ensures (Ready (length (chars source))) (tokenize num uni source)
  unfolding tokenize
  tokenize-Ready source =
      tokenize_from-Ready num uni (length (chars source)) (length (chars source) + 2) (chars source)
        (omega arith) (omega arith)

-- ===== src/Expressions/Text/Joining.antt =====
-- `join` puts together again what `split` takes apart, in crates/ows-runtime-expressions/src/eval.rs.
use Prim.Native.Char.{Char, code}
use Prim.Native.String.{◌++◌}
use Prim.Native.String.append
use text.Mathlib.TextEquality.{Char-path}
use text.Mathlib.TextLemmas.{append-nil, append_assoc}
use mathlib.Core.List.{List, [], ◌∷◌}
use ows_runtime_rust.Prelude.{
  ◌≡◌, refl, ap, sym, ◌∙◌, ℕ, zero, suc, ◌-◌, String, true, false, none, some, join_text, push,
  Bool, if◌then◌else◌, length, Bool-cases, arith, inl, inr, Option, not, is_none,
}
use ows_runtime_rust.Expressions.Text.{
  strip_prefix, split_from, drop, starts_with, is, split_chars, split,
}
use ows_runtime_rust.Expressions.Text.Chars.{collect, chars}
use ows_runtime_rust.Expressions.Text.Collect.{cons_text, collect-push, collect-chars}

strip_prefix-append :
    (s t rest : List Char)
    → strip_prefix s t ≡ some rest
    → collect s ≡ collect t ++ collect (drop (length t) s)
unfolding strip_prefix collect drop
strip_prefix-append s [] rest h = sym (append.nil (collect s))
strip_prefix-append [] (d ∷ t) rest h = absurd (cc)
strip_prefix-append (c ∷ s) (d ∷ t) rest h = elim (Bool-cases (is (code d) c)) [
  | inl e ↦
      ap (λ x. cons_text x (collect s)) (Char-path c d (ground (arith, e)))
      ∙ ap (λ x. cons_text d x) (strip_prefix-append s t rest (ground (arith, e, h)))
      ∙ sym (append.cons d (collect t) (collect (drop (length t) s)))
  | inr e ↦ absurd (ground (arith, e, h))
]

length-pos : (d : Char) (t : List Char) → length (d ∷ t) - 1 ≡ length t
length-pos d t = omega arith

join-cons :
    (sep x : String) (S s : List Char) (skip : ℕ) (piece : List Char)
    → join_text sep (x ∷ split_from S s skip piece)
      ≡ (x ++ sep) ++ join_text sep (split_from S s skip piece)
unfolding join_text split_from
join-cons sep x S [] skip piece = refl
join-cons sep x S (c ∷ s) (suc skip) piece = join-cons sep x S s skip piece
join-cons sep x S (c ∷ s) zero piece =
    go (starts_with (c ∷ s) S) (join-cons sep x S s 0 (push piece c))
  where
    go :
        (b : Bool)
        → join_text sep (x ∷ split_from S s 0 (push piece c))
          ≡ (x ++ sep) ++ join_text sep (split_from S s 0 (push piece c))
        → join_text sep (
            x
            ∷ (if b
                then collect piece ∷ split_from S s (length S - 1) []
                else split_from S s 0 (push piece c)))
          ≡ (x ++ sep)
            ++ join_text sep (
                if b
                then collect piece ∷ split_from S s (length S - 1) []
                else split_from S s 0 (push piece c))
    go true h = refl
    go false h = h

-- the parts after `skip` characters, joined
module _ (d : Char) (t : List Char) where
  join-split_from :
      (s : List Char) (skip : ℕ) (piece : List Char)
      → join_text (collect (d ∷ t)) (split_from (d ∷ t) s skip piece)
        ≡ collect piece ++ collect (drop skip s)
  unfolding split_from drop join_text collect
  join-split_from [] zero piece = sym (append-nil (collect piece))
  join-split_from [] (suc skip) piece = sym (append-nil (collect piece))
  join-split_from (c ∷ s) (suc skip) piece = join-split_from s skip piece
  join-split_from (c ∷ s) zero piece =
      go (strip_prefix (c ∷ s) (d ∷ t)) refl (join-split_from s (length (d ∷ t) - 1) [])
        (join-split_from s 0 (push piece c))
    where
      S : List Char
      S = d ∷ t

      here : List String
      here = split_from S s (length S - 1) []

      later : List String
      later = split_from S s 0 (push piece c)

      go :
          (o : Option (List Char))
          → strip_prefix (c ∷ s) S ≡ o
          → join_text (collect S) here ≡ "" ++ collect (drop (length S - 1) s)
          → join_text (collect S) later ≡ collect (push piece c) ++ collect s
          → join_text (collect S) (if not (is_none o) then collect piece ∷ here else later)
            ≡ collect piece ++ collect (c ∷ s)
      go (some rest) e h k =
          join-cons (collect S) (collect piece) S s (length S - 1) []
          ∙ ap (λ x. (collect piece ++ collect S) ++ x)
              (h
                ∙ append.nil (collect (drop (length S - 1) s))
                ∙ ap (λ n. collect (drop n s)) (length-pos d t))
          ∙ append_assoc (collect piece) (collect S) (collect (drop (length t) s))
          ∙ ap (λ x. collect piece ++ x) (sym (strip_prefix-append (c ∷ s) S rest e))
      go none e h k =
          k
          ∙ ap (λ x. x ++ collect s) (collect-push piece c)
          ∙ append_assoc (collect piece) (cons_text c "") (collect s)
          ∙ ap (λ x. collect piece ++ x)
              (append.cons c "" (collect s) ∙ ap (λ x. cons_text c x) (append.nil (collect s)))

join-split_chars : (s : List Char) → join_text "" (split_chars s) ≡ collect s
unfolding split_chars join_text collect
join-split_chars [] = refl
join-split_chars (c ∷ []) = append-nil (cons_text c "" ++ "") ∙ append-nil (cons_text c "")
join-split_chars (c ∷ d ∷ s) =
    let rest : String = join_text "" (split_chars (d ∷ s)) in
    ap (λ x. x ++ rest) (append-nil (cons_text c ""))
    ∙ append.cons c "" rest
    ∙ ap (λ x. cons_text c x) (append.nil rest ∙ join-split_chars (d ∷ s))

join-empty : (s : List Char) → join_text "" ("" ∷ split_chars s) ≡ join_text "" (split_chars s)
unfolding split_chars join_text
join-empty [] = append.nil "" ∙ append.nil ""
join-empty (c ∷ s) =
    let rest : String = join_text "" (split_chars (c ∷ s)) in
    ap (λ x. x ++ rest) (append.nil "") ∙ append.nil rest

join-split_list : (s sep : List Char) → join_text (collect sep) (split s sep) ≡ collect s
unfolding split collect drop
join-split_list s [] = join-empty s ∙ join-split_chars s
join-split_list s (d ∷ t) = join-split_from d t s 0 [] ∙ append.nil (collect s)

-- The parts of a text around a separator, joined by that separator, are the text, for the empty
-- separator too.
pub join-split : (s sep : String) → join_text sep (split (chars s) (chars sep)) ≡ s
join-split s sep =
    ap (λ x. join_text x (split (chars s) (chars sep))) (sym (collect-chars sep))
    ∙ join-split_list (chars s) (chars sep)
    ∙ collect-chars s

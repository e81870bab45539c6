-- ===== src/Expressions/Parser/Advance.antt =====
-- The cursor of crates/ows-runtime-expressions/src/parser.rs moves towards the end of the tokens,
-- and does not pass it.
use ows_runtime_rust.Prelude.{
  ◌≡◌, ◌<◌, ◌≤◌, ℕ, arith, refl, true, false, List, [], ◌∷◌, length, Bool, sym, String, ◌∙◌, ap,
}
use ows_runtime_rust.Expressions.Token.{Token, eof, ident, str, dot, lbracket}
use ows_runtime_rust.Expressions.Lexer.Total.{Ready}
use ows_runtime_rust.Expressions.Parser.Cursor.{
  peek, Next, postfix_next, chain_next, advance, peek2, name, is_lbracket, expect, bracket, stop,
}
use ows_runtime_rust.Expressions.Number.{Numbers, Unicode}
use ows_runtime_rust.Expressions.Parsed.{Ensures, Ensures-cases, holds, refused, Parsed}

-- the tokens left can be read on, and they are fewer than `m`
abbrev pub Fewer : {F : Type 0} → ℕ → ℕ → List (Token F) → Type 0
Fewer n m ts = Ready n ts × length ts < m

-- what was read leaves tokens that can be read on, at most `m`
abbrev pub Left : {A F : Type 0} → ℕ → ℕ → A × List (Token F) → Type 0
Left n m (a, ts) = Ready n ts × length ts ≤ m

abbrev pub StrictlyLeft : {A F : Type 0} → ℕ → ℕ → A × List (Token F) → Type 0
StrictlyLeft n m (a, ts) = Fewer n m ts

-- `G` is known in front of a name, and `B` in front of brackets
abbrev pub Allowed : Type 0 → Type 0 → Next → Type 0
Allowed G B (name _) = G
Allowed G B bracket = B
Allowed G B stop = Unit {0}

module _ {A G B : Type 0} {P : A → Type 0} where
  pub Ensures-next :
      (next : Next) {g : String → Parsed A} {x y : Parsed A}
      → Allowed G B next
      → ((s : String) → G → Ensures P (g s))
      → (B → Ensures P x)
      → Ensures P y
      → Ensures P (elim next [ name s ↦ g s | bracket ↦ x | stop ↦ y ])
  Ensures-next (name s) a hg hx hy = hg s a
  Ensures-next bracket a hg hx hy = hx a
  Ensures-next stop a hg hx hy = hy

module _ {F : Type 0} (n : ℕ) where
  pub advance-Fewer :
      (test : Token F → Bool) (ts : List (Token F))
      → test eof ≡ false
      → Ready n ts
      → test (peek ts) ≡ true
      → Fewer n (length ts) (advance ts)
  unfolding peek advance
  advance-Fewer test [] h r e = absurd r
  advance-Fewer test (t ∷ []) h r e = absurd (let q : true ≡ false = sym e ∙ ap test r ∙ h in cc)
  advance-Fewer test (t ∷ u ∷ ts) h (f, r) e = (r, omega arith)

  pub advance2_Fewer :
      (test then_test : Token F → Bool) (ts : List (Token F))
      → test eof ≡ false
      → then_test eof ≡ false
      → Ready n ts
      → test (peek ts) ≡ true
      → then_test (peek2 ts) ≡ true
      → Fewer n (length ts) (advance (advance ts))
  unfolding peek peek2 advance
  advance2_Fewer test next [] h k r e d = absurd r
  advance2_Fewer test next (t ∷ []) h k r e d =
      absurd (let q : true ≡ false = sym e ∙ ap test r ∙ h in cc)
  advance2_Fewer test next (t ∷ u ∷ []) h k (f, r) e d =
      absurd (let q : true ≡ false = sym d ∙ ap next r ∙ k in cc)
  advance2_Fewer test next (t ∷ u ∷ w ∷ ts) h k (f, (g, r)) e d = (r, omega arith)

  -- what the next tokens allow after a complete expression
  abbrev pub NextFewer : List (Token F) → Next → Type 0
  NextFewer ts next =
      Allowed (Fewer n (length ts) (advance (advance ts))) (is_lbracket (peek ts) ≡ true) next

  -- and in a chain
  abbrev pub ChainFewer : List (Token F) → Next → Type 0
  ChainFewer ts next =
      Allowed (Fewer n (length ts) (advance ts)) (is_lbracket (peek ts) ≡ true) next

  pub postfix_next-Fewer : (ts : List (Token F)) → Ready n ts → NextFewer ts (postfix_next ts)
  unfolding postfix_next peek peek2 advance
  postfix_next-Fewer [] r = tt
  postfix_next-Fewer (t ∷ []) r = rw r tt
  postfix_next-Fewer (dot ∷ u ∷ []) (f, r) = rw r tt
  postfix_next-Fewer (dot ∷ ident i ∷ w ∷ ts) (f, (g, r)) = (r, omega arith)
  postfix_next-Fewer (dot ∷ str i ∷ w ∷ ts) (f, (g, r)) = (r, omega arith)
  postfix_next-Fewer (dot ∷ _ ∷ w ∷ ts) r = tt
  postfix_next-Fewer (lbracket ∷ u ∷ ts) r = refl
  postfix_next-Fewer (_ ∷ u ∷ ts) r = tt

  pub chain_next-Fewer : (ts : List (Token F)) → Ready n ts → ChainFewer ts (chain_next (peek ts))
  unfolding chain_next peek advance
  chain_next-Fewer [] r = tt
  chain_next-Fewer (t ∷ []) r = rw r tt
  chain_next-Fewer (ident i ∷ w ∷ ts) (f, r) = (r, omega arith)
  chain_next-Fewer (str i ∷ w ∷ ts) (f, r) = (r, omega arith)
  chain_next-Fewer (lbracket ∷ u ∷ ts) r = refl
  chain_next-Fewer (_ ∷ u ∷ ts) r = tt

module _ {N F : Type 0} (num : Numbers N F) (uni : Unicode) (total n : ℕ) where
  pub expect-Fewer :
      (test : Token F → Bool) (what : String) (ts : List (Token F))
      → test eof ≡ false
      → Ready n ts
      → Ensures (Fewer n (length ts)) (expect num uni total test what ts)
  unfolding expect
  expect-Fewer test what ts h r =
      Ensures-cases (test (peek ts)) (λ e. holds (advance-Fewer n test ts h r e)) λ _. refused

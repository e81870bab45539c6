-- ===== src/Expressions/Parser/Height.antt =====
-- How deep the calls of the parser of crates/ows-runtime-expressions/src/parser.rs are above its base.
use ows_runtime_rust.Prelude.{
  ◌≡◌, ◌<◌, ◌≤◌, ℕ, arith, refl, none, some, true, false, List, Bool, Option,
}
use ows_runtime_rust.Expressions.Token.{Token, eof}
use ows_runtime_rust.Expressions.Parsed.{Parsed, Ensures, Ensures-mono}
use ows_runtime_rust.Expressions.Parser.Build.{Primary, constant, conditional, function}
use ows_runtime_rust.Expressions.Parser.Cursor.{
  Level, binary_op, mult_level, pipe_level, additive_level, or_level, compare_level, and_level,
}
use ows_runtime_rust.Expressions.Parser.Advance.{Left, StrictlyLeft}
use ows_runtime_rust.Json.{Value}

-- how many calls deep a level is above the base
unfoldable pub height : Level → ℕ
height mult_level = 6
height additive_level = 8
height compare_level = 10
height and_level = 12
height or_level = 14
height pipe_level = 16

pub height_pos : (level : Level) → 5 < height level
unfolding height
height_pos mult_level = omega arith
height_pos additive_level = omega arith
height_pos compare_level = omega arith
height_pos and_level = omega arith
height_pos or_level = omega arith
height_pos pipe_level = omega arith

pub height_below : (level : Level) → height level < 17
unfolding height
height_below mult_level = omega arith
height_below additive_level = omega arith
height_below compare_level = omega arith
height_below and_level = omega arith
height_below or_level = omega arith
height_below pipe_level = omega arith

abbrev pub is_some : {A : Type 0} → Option A → Bool
is_some none = false
is_some (some _) = true

pub Left-mono :
    {A F : Type 0} (n m k : ℕ) {x : Parsed (A × List (Token F))}
    → m ≤ k
    → Ensures (Left n m) x
    → Ensures (Left n k) x
Left-mono n m k h e = Ensures-mono e λ r (p, q). (p, omega (arith, q, h))

pub Strictly-mono :
    {A F : Type 0} (n m k : ℕ) {x : Parsed (A × List (Token F))}
    → m < k
    → Ensures (Left n m) x
    → Ensures (StrictlyLeft n k) x
Strictly-mono n m k h e = Ensures-mono e λ r (p, q). (p, omega (arith, q, h))

pub binary_op-eof :
    (N F : Type 0) (level : Level) → is_some (binary_op {N = N} {F = F} level eof) ≡ false
unfolding binary_op
binary_op-eof N F pipe_level = refl
binary_op-eof N F or_level = refl
binary_op-eof N F and_level = refl
binary_op-eof N F compare_level = refl
binary_op-eof N F additive_level = refl
binary_op-eof N F mult_level = refl

abbrev pub is_ident : {F : Type 0} → Token F → Bool
is_ident (Token.ident _) = true
is_ident _ = false

pub Ensures-primary :
    {N A : Type 0} {P : A → Type 0} (p : Primary N) {g : Value N → Parsed A} {x y : Parsed A}
    → ((v : Value N) → Ensures P (g v))
    → Ensures P x
    → Ensures P y
    → Ensures P (elim p [ constant v ↦ g v | conditional ↦ x | function ↦ y ])
Ensures-primary (constant v) hg hx hy = hg v
Ensures-primary conditional hg hx hy = hx
Ensures-primary function hg hx hy = hy

-- ===== src/Expressions/Jq/Halting.antt =====
-- The engine of crates/ows-runtime-expressions/src/engine.rs comes to an end: every block that
-- `parse_blocks` passes takes at least one character.
use Prim.Native.Char.{Char}
use ows_runtime_rust.Prelude.{
  ◌-◌, ◌≢◌, ◌≤◌, ◌<◌, ℕ, arith, length, zero, suc, String, List, [], ◌∷◌, ◌+◌, push,
}
use ows_runtime_rust.Json.{Value, Fields}
use ows_runtime_rust.Expressions.Parsed.{
  Ensures, Ensures->>=, Ensures-cases, Ensures-option, Ensures-exhausted, exhausted, holds, refused,
}
use ows_runtime_rust.Expressions.Text.{drop, trim, take, contains}
use ows_runtime_rust.Expressions.Number.{Numbers, Unicode}
use ows_runtime_rust.Expressions.Jq.{
  parse_text, parse_blocks_from, prepare, evaluate_value, evaluate, Piece, parse_blocks, Prepared,
  whole, plain, interpolated,
}
use ows_runtime_rust.Expressions.Parser.Halting.{parse_source-Ensures}
use ows_runtime_rust.Expressions.Text.Chars.{collect, chars}
use ows_runtime_rust.Expressions.Jq.Blocks.{opens_block, find_block_close, single_block}
use ows_runtime_rust.Expressions.Text.Collect.{chars-collect}

drop-shorter : (i : ℕ) (cs : List Char) → length (drop i cs) ≤ length cs
unfolding drop
drop-shorter zero cs = omega arith
drop-shorter (suc i) [] = omega arith
drop-shorter (suc i) (c ∷ cs) = omega (arith, drop-shorter i cs)

drop-less : (i : ℕ) (c : Char) (cs : List Char) → 0 < i → length (drop i (c ∷ cs)) ≤ length cs
unfolding drop
drop-less zero c cs h = absurd (omega (arith, h))
drop-less (suc i) c cs h = drop-shorter i cs

module _ {N F : Type 0} (num : Numbers N F) (uni : Unicode) where
  parse_text-Ensures : (cs : List Char) → Ensures (λ e. Unit {0}) (parse_text num uni cs)
  unfolding parse_text
  parse_text-Ensures cs =
      parse_source-Ensures num uni (length cs + 1) (collect cs)
        (rw (chars-collect cs) (omega arith))

  parse_blocks_from-Ensures :
      (total fuel : ℕ) (cs : List Char) (pieces : List (Piece N)) (literal : List Char)
      → length cs < fuel
      → Ensures (λ ps. Unit {0}) (parse_blocks_from num uni total fuel cs pieces literal)
  unfolding parse_blocks_from
  parse_blocks_from-Ensures total zero cs pieces literal h = absurd (omega (arith, h))
  parse_blocks_from-Ensures total (suc fuel) [] pieces literal h = holds tt
  parse_blocks_from-Ensures total (suc fuel) (c ∷ cs) pieces literal h =
      Ensures-cases (opens_block (c ∷ cs))
        (λ _.
          Ensures-option (find_block_close (c ∷ cs) 1) (λ _. refused)
            λ close _.
              Ensures->>= (parse_text-Ensures (trim (take (close - 2) (drop 2 (c ∷ cs))))) λ e _.
                parse_blocks_from-Ensures total fuel (drop (close + 1) (c ∷ cs)) _ []
                  (omega (arith, h, drop-less (close + 1) c cs (omega arith))))
        λ _. parse_blocks_from-Ensures total fuel cs pieces (push literal c) (omega (arith, h))

  prepare-Ensures : (source : String) → Ensures (λ p. Unit {0}) (prepare num uni source)
  unfolding prepare parse_blocks
  prepare-Ensures source =
      let trimmed : List Char = trim (chars source) in
      Ensures-option (single_block trimmed)
        (λ _.
          Ensures-cases (contains trimmed (chars "${"))
            (λ _.
              Ensures->>=
                (parse_blocks_from-Ensures (length trimmed) (length trimmed + 1) trimmed [] []
                  (omega arith))
                λ ps _. holds tt)
            λ _. holds tt)
        λ inner _. Ensures->>= (parse_text-Ensures inner) λ e _. holds tt

  evaluate_value-Ensures :
      (p : Prepared N) (input : Value N) (vars : Fields N)
      → Ensures (λ r. Unit {0}) (evaluate_value num uni p input vars)
  unfolding evaluate_value
  evaluate_value-Ensures (whole e) input vars = holds tt
  evaluate_value-Ensures (plain s) input vars =
      Ensures->>= (parse_text-Ensures (chars s)) λ e _. holds tt
  evaluate_value-Ensures (interpolated ps) input vars = holds tt

  -- Compiling and evaluating an expression comes to an end on every text, input and set of variables:
  -- it has a value, an error or a panic, and no fuel of the lexer, the parser or the blocks runs out.
  pub evaluate_halts :
      (source : String) (input : Value N) (vars : Fields N)
      → evaluate num uni source input vars ≢ exhausted
  unfolding evaluate
  evaluate_halts source input vars =
      Ensures-exhausted
        (Ensures->>= (prepare-Ensures source) λ p _. evaluate_value-Ensures p input vars)

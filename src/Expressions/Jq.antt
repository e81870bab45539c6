-- ===== src/Expressions/Jq.antt =====
-- The engine `JqEngine`: crates/ows-runtime-expressions/src/engine.rs. What is parsed may be an
-- error, and what is evaluated may be one too.
pub mod Blocks
pub mod Halting
use ows_runtime_rust.Prelude.{
  true, false, none, some, suc, zero, [], ◌∷◌, String, List, ℕ, length, push, ◌+◌, ◌-◌,
}
use ows_runtime_rust.Json.{Value, null, bool, string, Fields}
use Prim.Native.Char.{Char}
use mathlib.Core.List.{map}
use ows_runtime_rust.Expressions.Error
use ows_runtime_rust.Expressions.Error.{parse, Evaluated, done, failed}
use ows_runtime_rust.Expressions.Parsed.{Parsed, parsed, rejected, exhausted, ◌>>=◌}
use ows_runtime_rust.Expressions.Text.Chars.{chars, collect}
use ows_runtime_rust.Expressions.Syntax.{Expr}
use ows_runtime_rust.Expressions.Number.{Numbers, Unicode}
use ows_runtime_rust.Expressions.Parser.{parse_source}
use ows_runtime_rust.Expressions.Jq.Blocks.{find_block_close, single_block, opens_block}
use ows_runtime_rust.Expressions.Text.{trim, take, drop, contains}
use ows_runtime_rust.Expressions.Eval.Compose.{concat_texts, TextFilter, of_filter}
use ows_runtime_rust.Expressions.Eval.{eval_single, eval}

-- a literal text or an expression block
pub data Piece (N : Type 0) : Type 0 where
  lit : String → Piece N
  block : Expr N → Piece N

pub data Prepared (N : Type 0) : Type 0 where
  whole : Expr N → Prepared N
  plain : String → Prepared N
  interpolated : List (Piece N) → Prepared N

module _ {N F : Type 0} (num : Numbers N F) (uni : Unicode) where
  -- interpolations nest at most as deep as the text is long
  unfoldable pub parse_text : List Char → Parsed (Expr N)
  unfolding parse_source collect
  parse_text cs = parse_source num uni (length cs + 1) (collect cs)

  abbrev flush_piece : List (Piece N) → List Char → List (Piece N)
  flush_piece pieces [] = pieces
  flush_piece pieces (c ∷ literal) = push pieces (lit (collect (c ∷ literal)))

  abbrev or_empty_piece : List (Piece N) → List (Piece N)
  or_empty_piece [] = lit "" ∷ []
  or_empty_piece (p ∷ ps) = p ∷ ps

  -- the pieces of the characters left, of `total`; each round passes one of them at least
  unfoldable pub parse_blocks_from :
      ℕ → ℕ → List Char → List (Piece N) → List Char → Parsed (List (Piece N))
  unfolding parse_text find_block_close trim take drop collect
  parse_blocks_from total zero cs pieces literal = exhausted
  parse_blocks_from total (suc fuel) [] pieces literal =
      parsed (or_empty_piece (flush_piece pieces literal))
  parse_blocks_from total (suc fuel) (c ∷ cs) pieces literal = elim (opens_block (c ∷ cs)) [
    | false ↦ parse_blocks_from total fuel cs pieces (push literal c)
    | true ↦ elim (find_block_close (c ∷ cs) 1) [
      | none ↦ rejected (parse (total - length (c ∷ cs)) "unterminated `${` block")
      | some close ↦ parse_text (trim (take (close - 2) (drop 2 (c ∷ cs)))) >>= λ e.
          parse_blocks_from total fuel (drop (close + 1) (c ∷ cs))
            (push (flush_piece pieces literal) (block e)) []
    ]
  ]

  unfoldable pub parse_blocks : List Char → Parsed (List (Piece N))
  unfolding parse_blocks_from
  parse_blocks cs = parse_blocks_from (length cs) (length cs + 1) cs [] []

  unfoldable pub prepare : String → Parsed (Prepared N)
  unfolding trim single_block parse_text contains parse_blocks chars
  prepare source =
      let trimmed = trim (chars source) in
      elim (single_block trimmed) [
        | some inner ↦ parse_text inner >>= λ e. parsed (whole e)
        | none ↦ elim (contains trimmed (chars "${")) [
          | true ↦ parse_blocks trimmed >>= λ pieces. parsed (interpolated pieces)
          | false ↦ parsed (plain source)
        ]
      ]

  abbrev piece_filter : Fields N → Piece N → TextFilter N
  piece_filter vars (lit s) = TextFilter.plain s
  piece_filter vars (block e) = of_filter (eval num vars e)

  unfoldable pub interpolate : List (Piece N) → Value N → Fields N → Evaluated (Value N)
  unfolding concat_texts eval
  interpolate pieces input vars =
      Error.◌>>=◌ (concat_texts num (map (piece_filter vars) pieces) input) (λ s. done (string s))

  unfoldable pub evaluate_value : Prepared N → Value N → Fields N → Parsed (Evaluated (Value N))
  unfolding eval_single interpolate parse_text chars
  evaluate_value (whole e) input vars = parsed (eval_single num vars e input)
  evaluate_value (plain s) input vars =
      parse_text (chars s) >>= λ e. parsed (eval_single num vars e input)
  evaluate_value (interpolated pieces) input vars = parsed (interpolate pieces input vars)

  unfoldable pub evaluate_interp : Prepared N → Value N → Fields N → Evaluated (Value N)
  unfolding eval_single interpolate
  evaluate_interp (whole e) input vars = eval_single num vars e input
  evaluate_interp (plain s) input vars = done (string s)
  evaluate_interp (interpolated pieces) input vars = interpolate pieces input vars

  -- `compile` and then `evaluate`
  unfoldable pub evaluate : String → Value N → Fields N → Parsed (Evaluated (Value N))
  unfolding prepare evaluate_value
  evaluate source input vars = prepare source >>= λ p. evaluate_value p input vars

  unfoldable pub evaluate_interpolation : String → Value N → Fields N → Parsed (Evaluated (Value N))
  unfolding prepare evaluate_interp
  evaluate_interpolation source input vars =
      prepare source >>= λ p. parsed (evaluate_interp p input vars)

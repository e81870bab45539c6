-- ===== src/Expressions/Parser/Halting.antt =====
-- Lexing and parsing of crates/ows-runtime-expressions/src come to an end, interpolations included.
use ows_runtime_rust.Prelude.{◌≢◌, ◌<◌, ℕ, arith, length, zero, suc, String}
use ows_runtime_rust.Expressions.Parsed.{Ensures, Ensures->>=, Ensures-exhausted, exhausted}
use ows_runtime_rust.Expressions.Number.{Numbers, Unicode}
use ows_runtime_rust.Expressions.Parser.{parse_source}
use ows_runtime_rust.Expressions.Text.Chars.{chars}
use ows_runtime_rust.Expressions.Lexer.Total.{tokenize-Ready}
use ows_runtime_rust.Expressions.Parser.Total.{parse_tokens-Ensures}

module _ {N F : Type 0} (num : Numbers N F) (uni : Unicode) where
  pub parse_source-Ensures :
      (depth : ℕ) (source : String)
      → length (chars source) < depth
      → Ensures (λ e. Unit {0}) (parse_source num uni depth source)
  unfolding parse_source
  parse_source-Ensures zero source h = absurd (omega (arith, h))
  parse_source-Ensures (suc depth) source h = Ensures->>= (tokenize-Ready num uni source) λ ts r.
      parse_tokens-Ensures num uni (length ts) (parse_source num uni depth) (length (chars source))
        (λ s k. parse_source-Ensures depth s (omega (arith, h, k))) ts r

  -- Lexing and parsing come to an end on every text: with one level of nested interpolations for each
  -- character and one more, no fuel runs out.
  pub parse_source_halts :
      (depth : ℕ) (source : String)
      → length (chars source) < depth
      → parse_source num uni depth source ≢ exhausted
  parse_source_halts depth source h = Ensures-exhausted (parse_source-Ensures depth source h)

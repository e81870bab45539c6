-- ===== src/Expressions/Parser.antt =====
-- The parser: crates/ows-runtime-expressions/src/parser.rs. Every call costs a unit of fuel. The
-- source of an interpolation is parsed by `nested`.
pub mod Cursor
pub mod Build
pub mod Advance
pub mod Height
pub mod Total
pub mod Halting
use mathlib.Core.List.{◌++◌}
use ows_runtime_rust.Expressions.Parser.Build.{
  Part, text_part, inner_part, parts_of_list, primary, constant, conditional, function,
  exprs_of_list, entries_of_list, single_or_stream, elements,
}
use ows_runtime_rust.Prelude.{
  true, false, none, some, suc, zero, [], ◌∷◌, List, String, if◌then◌else◌, str_eq, ℕ, Bool, length,
  ◌*◌, ◌<>◌, ◌+◌, push,
}
use ows_runtime_rust.Json.{Value, null, bool}
use ows_runtime_rust.Expressions.Error.{parse, ExpressionError}
use ows_runtime_rust.Expressions.Parsed.{Parsed, parsed, rejected, exhausted, ◌>>=◌}
use ows_runtime_rust.Expressions.Syntax.{
  Expr, Exprs, no_exprs, expr, ObjKey, str_key, computed, Entries, no_entries, entry, Parts,
  no_parts, literal_part, expr_part, identity, literal, array, object, call, stream, str, unary,
  iterate, field, index, if_,
}
use ows_runtime_rust.Expressions.Token.{Token, describe}
use ows_runtime_rust.Expressions.Number.{Numbers, Unicode}
use ows_runtime_rust.Expressions.Lexer.{tokenize}
use ows_runtime_rust.Expressions.Parser.Cursor.{
  is_keyword, peek, expect, peek2, unexpected, describe_next, advance, is_eof, binary_op,
  postfix_next, chain_next, pipe_level, is_comma, Level, tighter, unary_op, name, is_rbracket,
  is_rparen, is_lparen, is_separator, is_lbracket, is_lbrace, is_rbrace, is_colon, bracket, stop,
  cursor_pos,
}
use ows_runtime_rust.Expressions.Eval.Values.{json_num}

module _ {N F : Type 0} (num : Numbers N F) (uni : Unicode) (total : ℕ)
    (nested : String → Parsed (Expr N)) where
  abbrev Parser : Type 0 → Type 0
  Parser A = List (Token F) → Parsed (A × List (Token F))

  abbrev expecting : (Token F → Bool) → String → List (Token F) → Parsed (List (Token F))
  expecting is_token what ts = expect num uni total is_token what ts

  abbrev keyword : String → List (Token F) → Parsed (List (Token F))
  keyword kw ts = expecting (is_keyword kw) ("`" <> kw <> "`") ts

  abbrev key_error : List (Token F) → ExpressionError
  key_error ts =
      parse (cursor_pos num uni total ts)
        ("expected object key, found `" <> describe_next num uni total ts <> "`")

  unfoldable mutual
    unfolding peek peek2 advance expect binary_op postfix_next chain_next single_or_stream elements
        json_num unexpected primary describe

    pub parse_expr : ℕ → Parser (Expr N)
    parse_expr zero ts = exhausted
    parse_expr (suc f) ts = parse_binary f pipe_level ts >>= λ (e, ts). expr_loop f (e ∷ []) ts

    pub expr_loop : ℕ → List (Expr N) → Parser (Expr N)
    expr_loop zero parts ts = exhausted
    expr_loop (suc f) parts ts = elim (is_comma (peek ts)) [
      | true ↦ parse_binary f pipe_level (advance ts) >>= λ (e, ts). expr_loop f (push parts e) ts
      | false ↦ parsed (single_or_stream parts, ts)
    ]

    -- `parse_pipe`, `parse_or`, `parse_and`, `parse_compare`, `parse_additive` and `parse_mult`
    pub parse_binary : ℕ → Level → Parser (Expr N)
    parse_binary zero level ts = exhausted
    parse_binary (suc f) level ts =
        parse_operand f level ts >>= λ (left, ts). binary_loop f level left ts

    pub binary_loop : ℕ → Level → Expr N → Parser (Expr N)
    binary_loop zero level left ts = exhausted
    binary_loop (suc f) level left ts = elim (binary_op level (peek ts)) [
      | none ↦ parsed (left, ts)
      | some combine ↦ parse_operand f level (advance ts) >>= λ (right, ts).
          binary_loop f level (combine left right) ts
    ]

    pub parse_operand : ℕ → Level → Parser (Expr N)
    parse_operand zero level ts = exhausted
    parse_operand (suc f) level ts = elim (tighter level) [
      | some below ↦ parse_binary f below ts
      | none ↦ parse_unary f ts
    ]

    pub parse_unary : ℕ → Parser (Expr N)
    parse_unary zero ts = exhausted
    parse_unary (suc f) ts = elim (unary_op (peek ts)) [
      | some u ↦ parse_unary f (advance ts) >>= λ (inner, ts). parsed (unary u inner, ts)
      | none ↦ parse_base f ts >>= λ (base, ts). postfix_loop f base ts
    ]

    -- the loop of `parse_postfix`
    pub postfix_loop : ℕ → Expr N → Parser (Expr N)
    postfix_loop zero base ts = exhausted
    postfix_loop (suc f) base ts = elim (postfix_next ts) [
      | name n ↦ postfix_loop f (field base n) (advance (advance ts))
      | bracket ↦ parse_bracket f base ts >>= λ (base, ts). postfix_loop f base ts
      | stop ↦ parsed (base, ts)
    ]

    -- `[]` or an index
    pub parse_bracket : ℕ → Expr N → Parser (Expr N)
    parse_bracket zero base ts = exhausted
    parse_bracket (suc f) base ts = elim (is_rbracket (peek2 ts)) [
      | true ↦ parsed (iterate base, advance (advance ts))
      | false ↦ parse_expr f (advance ts) >>= λ (idx, ts).
          expecting is_rbracket "`]`" ts >>= λ ts. parsed (index base idx, ts)
    ]

    -- the loop of `parse_base` after a dot
    pub chain_loop : ℕ → Expr N → Parser (Expr N)
    chain_loop zero base ts = exhausted
    chain_loop (suc f) base ts = elim (chain_next (peek ts)) [
      | name n ↦ chain_loop f (field base n) (advance ts)
      | bracket ↦ parse_bracket f base ts >>= λ (base, ts). chain_loop f base ts
      | stop ↦ parsed (base, ts)
    ]

    pub parse_base : ℕ → Parser (Expr N)
    parse_base zero ts = exhausted
    parse_base (suc f) ts = elim (peek ts) [
      | Token.dot ↦ chain_loop f identity (advance ts)
      | Token.recursive_dot ↦ parsed (identity, advance ts)
      | Token.variable v ↦ parsed (Expr.variable v, advance ts)
      | Token.number n ↦ parsed (literal (json_num num n), advance ts)
      | Token.str s ↦ string_parts f [] ts
      | Token.interp s ↦ string_parts f [] ts
      | Token.lbracket ↦ parse_array f ts
      | Token.lbrace ↦ parse_object f ts
      | Token.lparen ↦ parse_expr f (advance ts) >>= λ (e, ts).
          expecting is_rparen "`)`" ts >>= λ ts. parsed (e, ts)
      | Token.ident i ↦ parse_ident_primary f i ts
      | Token.eof ↦ rejected (parse (cursor_pos num uni total ts) "unexpected end of expression")
      | _ ↦ rejected (unexpected num uni total ts)
    ]

    pub parse_ident_primary : ℕ → String → Parser (Expr N)
    parse_ident_primary zero i ts = exhausted
    parse_ident_primary (suc f) i ts = elim (primary i) [
      | constant v ↦ parsed (literal v, advance ts)
      | conditional ↦ parse_if f ts
      | function ↦ elim (is_lparen (peek2 ts)) [
        | false ↦ parsed (call i no_exprs, advance ts)
        | true ↦ parse_args f (advance (advance ts)) >>= λ (args, ts).
            expecting is_rparen "`)`" ts >>= λ ts. parsed (call i (exprs_of_list args), ts)
      ]
    ]

    pub parse_if : ℕ → Parser (Expr N)
    parse_if zero ts = exhausted
    parse_if (suc f) ts = parse_expr f (advance ts) >>= λ (cond, ts). keyword "then" ts >>= λ ts.
        parse_expr f ts >>= λ (then_branch, ts). parse_elif f ts >>= λ (else_branch, ts).
        keyword "end" ts >>= λ ts. parsed (if_ cond then_branch else_branch, ts)

    -- the branch after `then`: at most one `elif`, and then the tail
    pub parse_elif : ℕ → Parser (Expr N)
    parse_elif zero ts = exhausted
    parse_elif (suc f) ts = elim (is_keyword "elif" (peek ts)) [
      | false ↦ parse_else_tail f ts
      | true ↦ parse_expr f (advance ts) >>= λ (cond, ts). keyword "then" ts >>= λ ts.
          parse_expr f ts >>= λ (body, ts).
          parse_else_tail f ts >>= λ (else_branch, ts). parsed (if_ cond body else_branch, ts)
    ]

    pub parse_else_tail : ℕ → Parser (Expr N)
    parse_else_tail zero ts = exhausted
    parse_else_tail (suc f) ts = elim (is_keyword "else" (peek ts)) [
      | true ↦ parse_expr f (advance ts)
      | false ↦ elim (is_keyword "elif" (peek ts)) [
        | true ↦ parse_expr f ts
        | false ↦ parsed (literal null, ts)
      ]
    ]

    pub parse_args : ℕ → Parser (List (Expr N))
    parse_args zero ts = exhausted
    parse_args (suc f) ts = elim (is_rparen (peek ts)) [
      | true ↦ parsed ([], ts)
      | false ↦ args_loop f [] ts
    ]

    pub args_loop : ℕ → List (Expr N) → Parser (List (Expr N))
    args_loop zero args ts = exhausted
    args_loop (suc f) args ts = parse_binary f pipe_level ts >>= λ (e, ts).
        elim (is_separator (peek ts)) [
          | true ↦ args_loop f (push args e) (advance ts)
          | false ↦ parsed (push args e, ts)
        ]

    pub parse_array : ℕ → Parser (Expr N)
    parse_array zero ts = exhausted
    parse_array (suc f) ts = expecting is_lbracket "`[`" ts >>= λ ts. elim (is_rbracket (peek ts)) [
      | true ↦ parsed (array no_exprs, advance ts)
      | false ↦ array_loop f [] ts
    ]

    pub array_loop : ℕ → List (Expr N) → Parser (Expr N)
    array_loop zero elems ts = exhausted
    array_loop (suc f) elems ts = parse_binary f pipe_level ts >>= λ (e, ts).
        elim (is_comma (peek ts)) [
          | true ↦ array_loop f (elems ++ elements e) (advance ts)
          | false ↦ expecting is_rbracket "`]`" ts >>= λ ts.
              parsed (array (exprs_of_list (elems ++ elements e)), ts)
        ]

    pub parse_object : ℕ → Parser (Expr N)
    parse_object zero ts = exhausted
    parse_object (suc f) ts = expecting is_lbrace "`{`" ts >>= λ ts. elim (is_rbrace (peek ts)) [
      | true ↦ parsed (object no_entries, advance ts)
      | false ↦ object_loop f [] ts
    ]

    pub object_loop : ℕ → List (ObjKey N × Expr N) → Parser (Expr N)
    object_loop zero entries ts = exhausted
    object_loop (suc f) entries ts = parse_object_key f ts >>= λ (key, ts).
        expecting is_colon "`:`" ts >>= λ ts. parse_binary f pipe_level ts >>= λ (value, ts).
        elim (is_comma (peek ts)) [
          | true ↦ object_loop f (push entries (key, value)) (advance ts)
          | false ↦ expecting is_rbrace "`}`" ts >>= λ ts.
              parsed (object (entries_of_list (push entries (key, value))), ts)
        ]

    pub parse_object_key : ℕ → Parser (ObjKey N)
    parse_object_key zero ts = exhausted
    parse_object_key (suc f) ts = elim (peek ts) [
      | Token.ident n ↦ parsed (ObjKey.ident n, advance ts)
      | Token.str s ↦ parsed (str_key s, advance ts)
      | Token.variable n ↦ parsed (ObjKey.ident n, advance ts)
      | Token.lparen ↦ parse_binary f pipe_level (advance ts) >>= λ (e, ts).
          expecting is_rparen "`)`" ts >>= λ ts. parsed (computed e, ts)
      | _ ↦ rejected (key_error ts)
    ]

    -- `parse_string_parts`
    pub string_parts : ℕ → List (Part N) → Parser (Expr N)
    string_parts zero parts ts = exhausted
    string_parts (suc f) parts ts = elim (peek ts) [
      | Token.str s ↦ string_parts f (push parts (text_part s)) (advance ts)
      | Token.interp src ↦
          nested src >>= λ inner. string_parts f (push parts (inner_part inner)) (advance ts)
      | _ ↦ parsed (str (parts_of_list parts), ts)
    ]

  -- enough for every call on so many tokens
  unfoldable pub fuel_for : ℕ → ℕ
  fuel_for n = 20 * n + 20

  unfoldable pub parse_tokens : List (Token F) → Parsed (Expr N)
  unfolding parse_expr peek fuel_for unexpected
  parse_tokens ts = parse_expr (fuel_for (length ts)) ts >>= λ (e, rest).
      if is_eof (peek rest) then parsed e else rejected (unexpected num uni total rest)

module _ {N F : Type 0} (num : Numbers N F) (uni : Unicode) where
  -- `parse`, where interpolations are nested at most `depth` deep
  unfoldable pub parse_source : ℕ → String → Parsed (Expr N)
  unfolding tokenize parse_tokens
  parse_source zero source = exhausted
  parse_source (suc depth) source =
      tokenize num uni source >>= λ ts. parse_tokens num uni (length ts) (parse_source depth) ts

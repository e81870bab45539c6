-- ===== src/Expressions/Parser/Total.antt =====
-- The parser of crates/ows-runtime-expressions/src/parser.rs comes to an end. With at most 20 calls
-- for each token, the fuel of a call is above 20 times the tokens left by the height of the call.
use ows_runtime_rust.Prelude.{
  ◌≡◌, ◌<◌, ◌≤◌, ◌+◌, ◌*◌, suc, zero, ℕ, arith, refl, true, false, List, [], ◌∷◌, length, String,
  Bool, push, ap, ◌<>◌, if◌then◌else◌,
}
use ows_runtime_rust.Expressions.Token.{Token}
use ows_runtime_rust.Expressions.Parsed.{
  Parsed, Ensures, holds, refused, Ensures->>=, Ensures-cases, Ensures-option, parsed, rejected,
}
use ows_runtime_rust.Expressions.Lexer.Total.{Ready}
use ows_runtime_rust.Expressions.Parser.{
  parse_expr, expr_loop, parse_binary, binary_loop, parse_operand, parse_unary, postfix_loop,
  parse_bracket, chain_loop, parse_base, parse_ident_primary, parse_if, parse_elif, parse_else_tail,
  parse_args, args_loop, parse_array, array_loop, parse_object, object_loop, parse_object_key,
  string_parts, ◌++◌, parse_tokens,
}
use ows_runtime_rust.Expressions.Parser.Build.{primary, Part, elements, text_part, inner_part}
use ows_runtime_rust.Expressions.Syntax.{Expr, ObjKey, identity}
use ows_runtime_rust.Expressions.Parser.Cursor.{
  Level, binary_op, mult_level, pipe_level, additive_level, or_level, compare_level, and_level,
  is_comma, peek, advance, unary_op, is_lbracket, is_rbracket, peek2, postfix_next, chain_next,
  is_rparen, is_keyword, is_separator, is_lbrace, is_rbrace, is_colon, is_lparen, unexpected,
  is_eof,
}
use ows_runtime_rust.Expressions.Parser.Advance.{
  Left, StrictlyLeft, advance-Fewer, advance2_Fewer, expect-Fewer, Ensures-next, postfix_next-Fewer,
  chain_next-Fewer,
}
use ows_runtime_rust.Expressions.Number.{Numbers, Unicode}
use ows_runtime_rust.Expressions.Text.Chars.{chars}
use ows_runtime_rust.Expressions.Parser.Height.{
  height, Left-mono, height_pos, is_some, binary_op-eof, height_below, is_ident, Ensures-primary,
}

module _ {N F : Type 0} (num : Numbers N F) (uni : Unicode) (total : ℕ)
    (nested : String → Parsed (Expr N)) (n : ℕ)
    (inner : (s : String) → length (chars s) < n → Ensures (λ e. Unit {0}) (nested s)) where
  mutual
    unfolding parse_expr height

    parse_expr-Left :
        (f : ℕ) (ts : List (Token F))
        → Ready n ts
        → 20 * length ts + 17 < f
        → Ensures (Left n (length ts)) (parse_expr num uni total nested f ts)
    parse_expr-Left zero ts r h = absurd (omega (arith, h))
    parse_expr-Left (suc f) ts r h =
        Ensures->>= (parse_binary-Left f pipe_level ts r (omega (arith, h))) λ (e, us) (r, k).
          Left-mono n (length us) (length ts) k
            (expr_loop-Left f (e ∷ []) us r (omega (arith, h, k)))

    expr_loop-Left :
        (f : ℕ) (parts : List (Expr N)) (ts : List (Token F))
        → Ready n ts
        → 20 * length ts + 1 < f
        → Ensures (Left n (length ts)) (expr_loop num uni total nested f parts ts)
    expr_loop-Left zero parts ts r h = absurd (omega (arith, h))
    expr_loop-Left (suc f) parts ts r h =
        Ensures-cases (is_comma (peek ts))
          (λ e.
            let (r, k) = advance-Fewer n is_comma ts refl r e in
            Ensures->>= (parse_binary-Left f pipe_level (advance ts) r (omega (arith, h, k)))
              λ (e, us) (r, l).
                Left-mono n (length us) (length ts) (omega (arith, k, l))
                  (expr_loop-Left f (push parts e) us r (omega (arith, h, k, l))))
          λ _. holds (r, omega arith)

    parse_binary-Left :
        (f : ℕ) (level : Level) (ts : List (Token F))
        → Ready n ts
        → 20 * length ts + height level < f
        → Ensures (Left n (length ts)) (parse_binary num uni total nested f level ts)
    parse_binary-Left zero level ts r h = absurd (omega (arith, h))
    parse_binary-Left (suc f) level ts r h =
        Ensures->>= (parse_operand-Left f level ts r (omega (arith, h))) λ (e, us) (r, k).
          Left-mono n (length us) (length ts) k
            (binary_loop-Left f level e us r (omega (arith, h, k, height_pos level)))

    binary_loop-Left :
        (f : ℕ) (level : Level) (left : Expr N) (ts : List (Token F))
        → Ready n ts
        → 20 * length ts + 1 < f
        → Ensures (Left n (length ts)) (binary_loop num uni total nested f level left ts)
    binary_loop-Left zero level left ts r h = absurd (omega (arith, h))
    binary_loop-Left (suc f) level left ts r h =
        Ensures-option (binary_op level (peek ts)) (λ _. holds (r, omega arith))
          λ combine e.
            let (r, k) =
              advance-Fewer n (λ t. is_some (binary_op {N = N} level t)) ts
                (binary_op-eof N F level) r (ap (λ o. is_some o) e) in
            Ensures->>=
              (parse_operand-Left f level (advance ts) r (omega (arith, h, k, height_below level)))
              λ (right, us) (r, l).
                Left-mono n (length us) (length ts) (omega (arith, k, l))
                  (binary_loop-Left f level (combine left right) us r (omega (arith, h, k, l)))

    parse_operand-Left :
        (f : ℕ) (level : Level) (ts : List (Token F))
        → Ready n ts
        → 20 * length ts + height level ≤ f
        → Ensures (Left n (length ts)) (parse_operand num uni total nested f level ts)
    parse_operand-Left zero level ts r h = absurd (omega (arith, h, height_pos level))
    parse_operand-Left (suc f) pipe_level ts r h =
        parse_binary-Left f or_level ts r (omega (arith, h))
    parse_operand-Left (suc f) or_level ts r h =
        parse_binary-Left f and_level ts r (omega (arith, h))
    parse_operand-Left (suc f) and_level ts r h =
        parse_binary-Left f compare_level ts r (omega (arith, h))
    parse_operand-Left (suc f) compare_level ts r h =
        parse_binary-Left f additive_level ts r (omega (arith, h))
    parse_operand-Left (suc f) additive_level ts r h =
        parse_binary-Left f mult_level ts r (omega (arith, h))
    parse_operand-Left (suc f) mult_level ts r h = parse_unary-Left f ts r (omega (arith, h))

    parse_unary-Left :
        (f : ℕ) (ts : List (Token F))
        → Ready n ts
        → 20 * length ts + 4 < f
        → Ensures (Left n (length ts)) (parse_unary num uni total nested f ts)
    parse_unary-Left zero ts r h = absurd (omega (arith, h))
    parse_unary-Left (suc f) ts r h =
        Ensures-option (unary_op (peek ts))
          (λ _. Ensures->>= (parse_base-Left f ts r (omega (arith, h))) λ (base, us) (r, k).
            Left-mono n (length us) (length ts) k
              (postfix_loop-Left f base us r (omega (arith, h, k))))
          λ u e.
            let (r, k) =
              advance-Fewer n (λ t. is_some (unary_op t)) ts refl r (ap (λ o. is_some o) e) in
            Ensures->>= (parse_unary-Left f (advance ts) r (omega (arith, h, k)))
              λ (e, us) (r, l). holds (r, omega (arith, k, l))

    postfix_loop-Left :
        (f : ℕ) (base : Expr N) (ts : List (Token F))
        → Ready n ts
        → 20 * length ts + 2 < f
        → Ensures (Left n (length ts)) (postfix_loop num uni total nested f base ts)
    postfix_loop-Left zero base ts r h = absurd (omega (arith, h))
    postfix_loop-Left (suc f) base ts r h =
        Ensures-next (postfix_next ts) (postfix_next-Fewer n ts r)
          (λ s (r, k). Left-mono n _ (length ts) (omega (arith, k)) (
            postfix_loop-Left f (Expr.field base s) (advance (advance ts)) r (omega (arith, h, k))))
          (λ e. Ensures->>= (parse_bracket-Left f base ts r e (omega (arith, h))) λ (e, us) (r, k).
            Left-mono n (length us) (length ts) (omega (arith, k))
              (postfix_loop-Left f e us r (omega (arith, h, k))))
          (holds (r, omega arith))

    parse_bracket-Left :
        (f : ℕ) (base : Expr N) (ts : List (Token F))
        → Ready n ts
        → is_lbracket (peek ts) ≡ true
        → 20 * length ts < f
        → Ensures (StrictlyLeft n (length ts)) (parse_bracket num uni total nested f base ts)
    parse_bracket-Left zero base ts r e h = absurd (omega (arith, h))
    parse_bracket-Left (suc f) base ts r e h =
        Ensures-cases (is_rbracket (peek2 ts))
          (λ d. holds (advance2_Fewer n is_lbracket is_rbracket ts refl refl r e d))
          λ _.
            let (r, k) = advance-Fewer n is_lbracket ts refl r e in
            Ensures->>= (parse_expr-Left f (advance ts) r (omega (arith, h, k))) λ (idx, us) (r, l).
              Ensures->>= (expect-Fewer num uni total n is_rbracket "`]`" us refl r)
                λ vs (r, m). holds (r, omega (arith, k, l, m))

    chain_loop-Left :
        (f : ℕ) (base : Expr N) (ts : List (Token F))
        → Ready n ts
        → 20 * length ts + 2 < f
        → Ensures (Left n (length ts)) (chain_loop num uni total nested f base ts)
    chain_loop-Left zero base ts r h = absurd (omega (arith, h))
    chain_loop-Left (suc f) base ts r h =
        Ensures-next (chain_next (peek ts)) (chain_next-Fewer n ts r)
          (λ s (r, k).
            Left-mono n _ (length ts) (omega (arith, k))
              (chain_loop-Left f (Expr.field base s) (advance ts) r (omega (arith, h, k))))
          (λ e. Ensures->>= (parse_bracket-Left f base ts r e (omega (arith, h))) λ (e, us) (r, k).
            Left-mono n (length us) (length ts) (omega (arith, k))
              (chain_loop-Left f e us r (omega (arith, h, k))))
          (holds (r, omega arith))

    parse_base-Left :
        (f : ℕ) (ts : List (Token F))
        → Ready n ts
        → 20 * length ts + 3 < f
        → Ensures (Left n (length ts)) (parse_base num uni total nested f ts)
    parse_base-Left zero ts r h = absurd (omega (arith, h))
    parse_base-Left (suc f) [] r h = absurd r
    parse_base-Left (suc f) (t ∷ []) r h = rw r refused
    parse_base-Left (suc f) (Token.dot ∷ u ∷ us) (g, r) h =
        Left-mono n _ (suc (suc (length us))) (omega arith)
          (chain_loop-Left f identity (u ∷ us) r (omega (arith, h)))
    parse_base-Left (suc f) (Token.recursive_dot ∷ u ∷ us) (g, r) h = holds (r, omega arith)
    parse_base-Left (suc f) (Token.variable v ∷ u ∷ us) (g, r) h = holds (r, omega arith)
    parse_base-Left (suc f) (Token.number v ∷ u ∷ us) (g, r) h = holds (r, omega arith)
    parse_base-Left (suc f) (Token.str s ∷ u ∷ us) r h =
        string_parts-Left f [] (Token.str s ∷ u ∷ us) r (omega (arith, h))
    parse_base-Left (suc f) (Token.interp s ∷ u ∷ us) r h =
        string_parts-Left f [] (Token.interp s ∷ u ∷ us) r (omega (arith, h))
    parse_base-Left (suc f) (Token.lbracket ∷ u ∷ us) r h =
        parse_array-Left f (Token.lbracket ∷ u ∷ us) r (omega (arith, h))
    parse_base-Left (suc f) (Token.lbrace ∷ u ∷ us) r h =
        parse_object-Left f (Token.lbrace ∷ u ∷ us) r (omega (arith, h))
    parse_base-Left (suc f) (Token.lparen ∷ u ∷ us) (g, r) h =
        Ensures->>= (parse_expr-Left f (u ∷ us) r (omega (arith, h))) λ (e, vs) (r, k).
          Ensures->>= (expect-Fewer num uni total n is_rparen "`)`" vs refl r)
            λ ws (r, l). holds (r, omega (arith, k, l))
    parse_base-Left (suc f) (Token.ident i ∷ u ∷ us) r h =
        parse_ident_primary-Left f i (Token.ident i ∷ u ∷ us) r refl (omega (arith, h))
    parse_base-Left (suc f) (_ ∷ u ∷ us) r h = refused

    parse_ident_primary-Left :
        (f : ℕ) (i : String) (ts : List (Token F))
        → Ready n ts
        → is_ident (peek ts) ≡ true
        → 20 * length ts + 2 < f
        → Ensures (Left n (length ts)) (parse_ident_primary num uni total nested f i ts)
    parse_ident_primary-Left zero i ts r e h = absurd (omega (arith, h))
    parse_ident_primary-Left (suc f) i ts r e h =
        let (s, k) = advance-Fewer n is_ident ts refl r e in
        Ensures-primary (primary i) (λ v. holds (s, omega (arith, k)))
          (parse_if-Left f ts r e (omega (arith, h)))
          (Ensures-cases (is_lparen (peek2 ts))
            (λ d.
              let (r, k) = advance2_Fewer n is_ident is_lparen ts refl refl r e d in
              Ensures->>= (parse_args-Left f (advance (advance ts)) r (omega (arith, h, k)))
                λ (args, us) (r, l).
                  Ensures->>= (expect-Fewer num uni total n is_rparen "`)`" us refl r)
                    λ vs (r, m). holds (r, omega (arith, k, l, m)))
            λ _. holds (s, omega (arith, k)))

    parse_if-Left :
        (f : ℕ) (ts : List (Token F))
        → Ready n ts
        → is_ident (peek ts) ≡ true
        → 20 * length ts < f
        → Ensures (Left n (length ts)) (parse_if num uni total nested f ts)
    parse_if-Left zero ts r e h = absurd (omega (arith, h))
    parse_if-Left (suc f) ts r e h =
        let (r, o) = advance-Fewer n is_ident ts refl r e in
        Ensures->>= (parse_expr-Left f (advance ts) r (omega (arith, h, o))) λ (cond, vs) (r, k).
          Ensures->>=
            (expect-Fewer num uni total n (is_keyword "then") ("`" <> "then" <> "`") vs refl r)
            λ ws (r, l).
              Ensures->>= (parse_expr-Left f ws r (omega (arith, h, o, k, l))) λ (body, xs) (r, m).
                Ensures->>= (parse_elif-Left f xs r (omega (arith, h, o, k, l, m)))
                  λ (other, ys) (r, p).
                    Ensures->>=
                      (expect-Fewer num uni total n (is_keyword "end") ("`" <> "end" <> "`") ys refl
                        r)
                      λ zs (r, q). holds (r, omega (arith, o, k, l, m, p, q))

    parse_elif-Left :
        (f : ℕ) (ts : List (Token F))
        → Ready n ts
        → 20 * length ts + 19 < f
        → Ensures (Left n (length ts)) (parse_elif num uni total nested f ts)
    parse_elif-Left zero ts r h = absurd (omega (arith, h))
    parse_elif-Left (suc f) ts r h =
        Ensures-cases (is_keyword "elif" (peek ts))
          (λ e.
            let (r, k) = advance-Fewer n (is_keyword "elif") ts refl r e in
            Ensures->>= (parse_expr-Left f (advance ts) r (omega (arith, h, k)))
              λ (cond, vs) (r, l).
                Ensures->>=
                  (expect-Fewer num uni total n (is_keyword "then") ("`" <> "then" <> "`") vs refl
                    r)
                  λ ws (r, m).
                    Ensures->>= (parse_expr-Left f ws r (omega (arith, h, k, l, m)))
                      λ (body, xs) (r, p).
                        Ensures->>= (parse_else_tail-Left f xs r (omega (arith, h, k, l, m, p)))
                          λ (other, ys) (r, q). holds (r, omega (arith, k, l, m, p, q)))
          λ _. parse_else_tail-Left f ts r (omega (arith, h))

    parse_else_tail-Left :
        (f : ℕ) (ts : List (Token F))
        → Ready n ts
        → 20 * length ts + 18 < f
        → Ensures (Left n (length ts)) (parse_else_tail num uni total nested f ts)
    parse_else_tail-Left zero ts r h = absurd (omega (arith, h))
    parse_else_tail-Left (suc f) ts r h =
        Ensures-cases (is_keyword "else" (peek ts))
          (λ e.
            let (r, k) = advance-Fewer n (is_keyword "else") ts refl r e in
            Left-mono n _ (length ts) (omega (arith, k))
              (parse_expr-Left f (advance ts) r (omega (arith, h, k))))
          λ _.
            Ensures-cases (is_keyword "elif" (peek ts))
              (λ _. parse_expr-Left f ts r (omega (arith, h))) λ _. holds (r, omega arith)

    parse_args-Left :
        (f : ℕ) (ts : List (Token F))
        → Ready n ts
        → 20 * length ts + 18 < f
        → Ensures (Left n (length ts)) (parse_args num uni total nested f ts)
    parse_args-Left zero ts r h = absurd (omega (arith, h))
    parse_args-Left (suc f) ts r h =
        Ensures-cases (is_rparen (peek ts)) (λ _. holds (r, omega arith))
          λ _. args_loop-Left f [] ts r (omega (arith, h))

    args_loop-Left :
        (f : ℕ) (args : List (Expr N)) (ts : List (Token F))
        → Ready n ts
        → 20 * length ts + 17 < f
        → Ensures (Left n (length ts)) (args_loop num uni total nested f args ts)
    args_loop-Left zero args ts r h = absurd (omega (arith, h))
    args_loop-Left (suc f) args ts r h =
        Ensures->>= (parse_binary-Left f pipe_level ts r (omega (arith, h))) λ (e, us) (r, k).
          Ensures-cases (is_separator (peek us))
            (λ d.
              let (r, l) = advance-Fewer n is_separator us refl r d in
              Left-mono n _ (length ts) (omega (arith, k, l))
                (args_loop-Left f (push args e) (advance us) r (omega (arith, h, k, l))))
            λ _. holds (r, k)

    parse_array-Left :
        (f : ℕ) (ts : List (Token F))
        → Ready n ts
        → 20 * length ts < f
        → Ensures (Left n (length ts)) (parse_array num uni total nested f ts)
    parse_array-Left zero ts r h = absurd (omega (arith, h))
    parse_array-Left (suc f) ts r h =
        Ensures->>= (expect-Fewer num uni total n is_lbracket "`[`" ts refl r) λ us (r, k).
          Ensures-cases (is_rbracket (peek us))
            (λ e.
              let (r, l) = advance-Fewer n is_rbracket us refl r e in
              holds (r, omega (arith, k, l)))
            λ _.
              Left-mono n _ (length ts) (omega (arith, k))
                (array_loop-Left f [] us r (omega (arith, h, k)))

    array_loop-Left :
        (f : ℕ) (elems : List (Expr N)) (ts : List (Token F))
        → Ready n ts
        → 20 * length ts + 17 < f
        → Ensures (Left n (length ts)) (array_loop num uni total nested f elems ts)
    array_loop-Left zero elems ts r h = absurd (omega (arith, h))
    array_loop-Left (suc f) elems ts r h =
        Ensures->>= (parse_binary-Left f pipe_level ts r (omega (arith, h))) λ (e, us) (r, k).
          Ensures-cases (is_comma (peek us))
            (λ d.
              let (r, l) = advance-Fewer n is_comma us refl r d in
              Left-mono n _ (length ts) (omega (arith, k, l))
                (array_loop-Left f (elems ++ elements e) (advance us) r (omega (arith, h, k, l))))
            λ _.
              Ensures->>= (expect-Fewer num uni total n is_rbracket "`]`" us refl r)
                λ vs (r, l). holds (r, omega (arith, k, l))

    parse_object-Left :
        (f : ℕ) (ts : List (Token F))
        → Ready n ts
        → 20 * length ts < f
        → Ensures (Left n (length ts)) (parse_object num uni total nested f ts)
    parse_object-Left zero ts r h = absurd (omega (arith, h))
    parse_object-Left (suc f) ts r h =
        Ensures->>= (expect-Fewer num uni total n is_lbrace "`{`" ts refl r) λ us (r, k).
          Ensures-cases (is_rbrace (peek us))
            (λ e.
              let (r, l) = advance-Fewer n is_rbrace us refl r e in holds (r, omega (arith, k, l)))
            λ _.
              Left-mono n _ (length ts) (omega (arith, k))
                (object_loop-Left f [] us r (omega (arith, h, k)))

    object_loop-Left :
        (f : ℕ) (entries : List (ObjKey N × Expr N)) (ts : List (Token F))
        → Ready n ts
        → 20 * length ts + 17 < f
        → Ensures (Left n (length ts)) (object_loop num uni total nested f entries ts)
    object_loop-Left zero entries ts r h = absurd (omega (arith, h))
    object_loop-Left (suc f) entries ts r h =
        Ensures->>= (parse_object_key-Left f ts r (omega (arith, h))) λ (key, us) (r, k).
          Ensures->>= (expect-Fewer num uni total n is_colon "`:`" us refl r) λ vs (r, l).
            Ensures->>= (parse_binary-Left f pipe_level vs r (omega (arith, h, k, l)))
              λ (e, ws) (r, m).
                Ensures-cases (is_comma (peek ws))
                  (λ d.
                    let (r, p) = advance-Fewer n is_comma ws refl r d in
                    Left-mono n _ (length ts) (omega (arith, k, l, m, p)) (
                      object_loop-Left f (push entries (key, e)) (advance ws) r
                        (omega (arith, h, k, l, m, p))))
                  λ _.
                    Ensures->>= (expect-Fewer num uni total n is_rbrace "`}`" ws refl r)
                      λ xs (r, p). holds (r, omega (arith, k, l, m, p))

    parse_object_key-Left :
        (f : ℕ) (ts : List (Token F))
        → Ready n ts
        → 20 * length ts < f
        → Ensures (Left n (length ts)) (parse_object_key num uni total nested f ts)
    parse_object_key-Left zero ts r h = absurd (omega (arith, h))
    parse_object_key-Left (suc f) [] r h = absurd r
    parse_object_key-Left (suc f) (t ∷ []) r h = rw r refused
    parse_object_key-Left (suc f) (Token.ident i ∷ u ∷ us) (g, r) h = holds (r, omega arith)
    parse_object_key-Left (suc f) (Token.str i ∷ u ∷ us) (g, r) h = holds (r, omega arith)
    parse_object_key-Left (suc f) (Token.variable i ∷ u ∷ us) (g, r) h = holds (r, omega arith)
    parse_object_key-Left (suc f) (Token.lparen ∷ u ∷ us) (g, r) h =
        Ensures->>= (parse_binary-Left f pipe_level (u ∷ us) r (omega (arith, h))) λ (e, vs) (r, k).
          Ensures->>= (expect-Fewer num uni total n is_rparen "`)`" vs refl r)
            λ ws (r, l). holds (r, omega (arith, k, l))
    parse_object_key-Left (suc f) (_ ∷ u ∷ us) r h = refused

    string_parts-Left :
        (f : ℕ) (parts : List (Part N)) (ts : List (Token F))
        → Ready n ts
        → 20 * length ts < f
        → Ensures (Left n (length ts)) (string_parts num uni total nested f parts ts)
    string_parts-Left zero parts ts r h = absurd (omega (arith, h))
    string_parts-Left (suc f) parts [] r h = absurd r
    string_parts-Left (suc f) parts (t ∷ []) r h = rw r (holds (refl, omega arith))
    string_parts-Left (suc f) parts (Token.str s ∷ u ∷ us) (g, r) h =
        Left-mono n _ (suc (suc (length us))) (omega arith)
          (string_parts-Left f (push parts (text_part s)) (u ∷ us) r (omega (arith, h)))
    string_parts-Left (suc f) parts (Token.interp s ∷ u ∷ us) (g, r) h =
        Ensures->>= (inner s g) λ e _.
          Left-mono n _ (suc (suc (length us))) (omega arith)
            (string_parts-Left f (push parts (inner_part e)) (u ∷ us) r (omega (arith, h)))
    string_parts-Left (suc f) parts (_ ∷ u ∷ us) r h = holds (r, omega arith)

  pub parse_tokens-Ensures :
      (ts : List (Token F))
      → Ready n ts
      → Ensures (λ e. Unit {0}) (parse_tokens num uni total nested ts)
  unfolding parse_tokens
  parse_tokens-Ensures ts r =
      Ensures->>= (parse_expr-Left (20 * length ts + 20) ts r (omega arith))
        λ (e, rest) _. end_or_error e rest (is_eof (peek rest))
    where
      end_or_error :
          (e : Expr N) (rest : List (Token F)) (b : Bool)
          → Ensures
              (λ e. Unit {0})
              (if b then parsed e else rejected (unexpected num uni total rest))
      end_or_error e rest true = holds tt
      end_or_error e rest false = refused

-- ===== src/Expressions/Parser/Cursor.antt =====
-- The cursor of the parser of crates/ows-runtime-expressions/src/parser.rs, as the tokens from it
-- on, and what the parser asks of the next tokens.
use ows_runtime_rust.Prelude.{
  true, false, none, some, [], ◌∷◌, List, Bool, String, Option, str_eq, if◌then◌else◌, ℕ, ◌-◌,
  length, ◌<>◌,
}
use ows_runtime_rust.Expressions.Error.{parse, ExpressionError}
use ows_runtime_rust.Expressions.Parsed.{Parsed, parsed, rejected}
use ows_runtime_rust.Expressions.Token.{
  Token, dot, lbracket, rbracket, lbrace, rbrace, lparen, rparen, comma, colon, semicolon, ident,
  str, eof, minus, describe,
}
use ows_runtime_rust.Expressions.Syntax.{Expr, BinOp, UnaryOp, pipe, binary}
use ows_runtime_rust.Expressions.Number.{Numbers, Unicode}

module _ {F : Type 0} where
  -- there is always a token: the last one is not passed
  unfoldable pub peek : List (Token F) → Token F
  peek [] = eof
  peek (t ∷ _) = t

  unfoldable pub peek2 : List (Token F) → Token F
  peek2 [] = eof
  peek2 (t ∷ []) = t
  peek2 (_ ∷ u ∷ _) = u

  unfoldable pub advance : List (Token F) → List (Token F)
  advance [] = []
  advance (t ∷ []) = t ∷ []
  advance (_ ∷ u ∷ ts) = u ∷ ts

  abbrev pub is_lbracket : Token F → Bool
  is_lbracket lbracket = true
  is_lbracket _ = false

  abbrev pub is_rbracket : Token F → Bool
  is_rbracket rbracket = true
  is_rbracket _ = false

  abbrev pub is_lbrace : Token F → Bool
  is_lbrace lbrace = true
  is_lbrace _ = false

  abbrev pub is_rbrace : Token F → Bool
  is_rbrace rbrace = true
  is_rbrace _ = false

  abbrev pub is_lparen : Token F → Bool
  is_lparen lparen = true
  is_lparen _ = false

  abbrev pub is_rparen : Token F → Bool
  is_rparen rparen = true
  is_rparen _ = false

  abbrev pub is_comma : Token F → Bool
  is_comma comma = true
  is_comma _ = false

  abbrev pub is_colon : Token F → Bool
  is_colon colon = true
  is_colon _ = false

  -- what separates the arguments of a function
  abbrev pub is_separator : Token F → Bool
  is_separator comma = true
  is_separator semicolon = true
  is_separator _ = false

  abbrev pub is_eof : Token F → Bool
  is_eof eof = true
  is_eof _ = false

  abbrev pub is_keyword : String → Token F → Bool
  is_keyword kw (ident i) = str_eq i kw
  is_keyword kw _ = false

  -- the prefix operators
  abbrev pub unary_op : Token F → Option UnaryOp
  unary_op (ident i) = if str_eq i "not" then some UnaryOp.not else none
  unary_op minus = some UnaryOp.negate
  unary_op _ = none

-- the levels of the binary operators, from the loosest
pub data Level : Type 0 where
  pipe_level or_level and_level compare_level additive_level mult_level : Level

-- the level of the operands, unless they are unary expressions
abbrev pub tighter : Level → Option Level
tighter pipe_level = some or_level
tighter or_level = some and_level
tighter and_level = some compare_level
tighter compare_level = some additive_level
tighter additive_level = some mult_level
tighter mult_level = none

abbrev op : {N : Type 0} → BinOp → Option (Expr N → Expr N → Expr N)
op b = some (λ l r. binary b l r)

module _ {N F : Type 0} where
  abbrev compare_op : Token F → Option (Expr N → Expr N → Expr N)
  compare_op Token.eq_eq = op BinOp.eq
  compare_op Token.ne = op BinOp.ne
  compare_op Token.lt = op BinOp.lt
  compare_op Token.le = op BinOp.le
  compare_op Token.gt = op BinOp.gt
  compare_op Token.ge = op BinOp.ge
  compare_op _ = none

  abbrev additive_op : Token F → Option (Expr N → Expr N → Expr N)
  additive_op Token.plus = op BinOp.add
  additive_op Token.minus = op BinOp.sub
  additive_op Token.alternative = op BinOp.alternative
  additive_op _ = none

  abbrev mult_op : Token F → Option (Expr N → Expr N → Expr N)
  mult_op Token.star = op BinOp.mul
  mult_op Token.slash = op BinOp.div
  mult_op Token.percent = op BinOp.mod_
  mult_op _ = none

  abbrev pipe_op : Token F → Option (Expr N → Expr N → Expr N)
  pipe_op Token.pipe = some (λ l r. pipe l r)
  pipe_op _ = none

  -- the binary operator of a level that the token is
  unfoldable pub binary_op : Level → Token F → Option (Expr N → Expr N → Expr N)
  binary_op pipe_level t = pipe_op t
  binary_op or_level t = if is_keyword "or" t then op BinOp.or else none
  binary_op and_level t = if is_keyword "and" t then op BinOp.and else none
  binary_op compare_level t = compare_op t
  binary_op additive_level t = additive_op t
  binary_op mult_level t = mult_op t

-- what may follow an expression: a name, brackets, or something else
pub data Next : Type 0 where
  name : String → Next
  bracket stop : Next

module _ {F : Type 0} where
  abbrev name_of : Token F → Next
  name_of (ident i) = name i
  name_of (str s) = name s
  name_of _ = stop

  -- after a complete expression: a dot comes before the name
  unfoldable pub postfix_next : List (Token F) → Next
  unfolding peek peek2
  postfix_next ts = elim (peek ts) [ dot ↦ name_of (peek2 ts) | lbracket ↦ bracket | _ ↦ stop ]

  -- in the chain that a dot opens: the names stand alone
  unfoldable pub chain_next : Token F → Next
  chain_next (ident i) = name i
  chain_next (str s) = name s
  chain_next lbracket = bracket
  chain_next _ = stop

module _ {N F : Type 0} (num : Numbers N F) (uni : Unicode) (total : ℕ) where
  abbrev pub describe_next : List (Token F) → String
  describe_next ts = describe num.show_f64 uni.debug_text (peek ts)

  abbrev pub cursor_pos : List (Token F) → ℕ
  cursor_pos ts = total - length ts

  unfoldable pub expect : (Token F → Bool) → String → List (Token F) → Parsed (List (Token F))
  unfolding peek advance describe
  expect is_token what ts = elim (is_token (peek ts)) [
    | true ↦ parsed (advance ts)
    | false ↦
        rejected
          (parse (cursor_pos ts) ("expected " <> what <> ", found `" <> describe_next ts <> "`"))
  ]

  unfoldable pub unexpected : List (Token F) → ExpressionError
  unfolding peek describe
  unexpected ts = parse (cursor_pos ts) ("unexpected `" <> describe_next ts <> "`")

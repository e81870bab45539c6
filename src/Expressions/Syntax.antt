-- ===== src/Expressions/Syntax.antt =====
-- The syntax tree of crates/ows-runtime-expressions/src/ast.rs. The lists inside an expression are
-- types beside it.
use ows_runtime_rust.Prelude.{String}
use ows_runtime_rust.Json.{Value}

pub data BinOp : Type 0 where
  add sub mul div mod_ eq ne lt le gt ge and or alternative : BinOp

pub data UnaryOp : Type 0 where
  not negate : UnaryOp

mutual
  pub data Expr (N : Type 0) : Type 0 where
    identity : Expr N
    field : Expr N → String → Expr N
    index : Expr N → Expr N → Expr N
    iterate : Expr N → Expr N
    variable : String → Expr N
    literal : Value N → Expr N
    str : Parts N → Expr N
    binary : BinOp → Expr N → Expr N → Expr N
    unary : UnaryOp → Expr N → Expr N
    pipe : Expr N → Expr N → Expr N
    array : Exprs N → Expr N
    object : Entries N → Expr N
    if_ : Expr N → Expr N → Expr N → Expr N
    call : String → Exprs N → Expr N
    stream : Exprs N → Expr N

  pub data Exprs (N : Type 0) : Type 0 where
    no_exprs : Exprs N
    expr : Expr N → Exprs N → Exprs N

  pub data ObjKey (N : Type 0) : Type 0 where
    ident : String → ObjKey N
    str_key : String → ObjKey N
    computed : Expr N → ObjKey N

  pub data Entries (N : Type 0) : Type 0 where
    no_entries : Entries N
    entry : ObjKey N → Expr N → Entries N → Entries N

  pub data Parts (N : Type 0) : Type 0 where
    no_parts : Parts N
    literal_part : String → Parts N → Parts N
    expr_part : Expr N → Parts N → Parts N

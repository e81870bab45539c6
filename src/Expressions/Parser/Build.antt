-- ===== src/Expressions/Parser/Build.antt =====
-- How the parser of crates/ows-runtime-expressions/src/parser.rs puts expressions together.
use ows_runtime_rust.Prelude.{List, [], ◌∷◌, String, str_eq, if◌then◌else◌, true, false}
use ows_runtime_rust.Json.{Value, null, bool}
use ows_runtime_rust.Expressions.Syntax.{
  Expr, Exprs, no_exprs, expr, ObjKey, Entries, no_entries, entry, Parts, no_parts, literal_part,
  expr_part, stream,
}

module _ {N : Type 0} where
  abbrev pub exprs_of_list : List (Expr N) → Exprs N
  exprs_of_list [] = no_exprs
  exprs_of_list (e ∷ es) = expr e (exprs_of_list es)

  abbrev pub list_of_exprs : Exprs N → List (Expr N)
  list_of_exprs no_exprs = []
  list_of_exprs (expr e es) = e ∷ list_of_exprs es

  abbrev pub entries_of_list : List (ObjKey N × Expr N) → Entries N
  entries_of_list [] = no_entries
  entries_of_list ((k, e) ∷ es) = entry k e (entries_of_list es)

  -- one expression alone is no stream
  unfoldable pub single_or_stream : List (Expr N) → Expr N
  single_or_stream [] = stream no_exprs
  single_or_stream (e ∷ []) = e
  single_or_stream (e ∷ f ∷ es) = stream (exprs_of_list (e ∷ f ∷ es))

  -- what an element adds to an array: a stream adds its parts
  unfoldable pub elements : Expr N → List (Expr N)
  elements (stream parts) = list_of_exprs parts
  elements e = e ∷ []

-- what an identifier that begins an expression is
pub data Primary (N : Type 0) : Type 0 where
  constant : Value N → Primary N
  conditional function : Primary N

unfoldable pub primary : {N : Type 0} → String → Primary N
primary i =
    if str_eq i "true"
    then constant (bool true)
    else if str_eq i "false"
    then constant (bool false)
    else if str_eq i "null"
    then constant null
    else if str_eq i "if"
    then conditional
    else function

-- a part of a string
pub data Part (N : Type 0) : Type 0 where
  text_part : String → Part N
  inner_part : Expr N → Part N

abbrev pub parts_of_list : {N : Type 0} → List (Part N) → Parts N
parts_of_list [] = no_parts
parts_of_list (text_part s ∷ ps) = literal_part s (parts_of_list ps)
parts_of_list (inner_part e ∷ ps) = expr_part e (parts_of_list ps)

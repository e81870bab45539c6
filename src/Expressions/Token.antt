-- ===== src/Expressions/Token.antt =====
-- The tokens of crates/ows-runtime-expressions/src/lexer.rs. `F` is the type of floats.
use ows_runtime_rust.Prelude.{String, ◌<>◌}

pub data Token (F : Type 0) : Type 0 where
  dot recursive_dot lbracket rbracket lbrace rbrace lparen rparen : Token F
  pipe comma colon semicolon : Token F
  variable ident str interp : String → Token F
  number : F → Token F
  eq_eq ne lt le gt ge plus minus star slash percent : Token F
  alternative assign eof : Token F

-- `show_f64` prints a float and `debug_text` a text in quotes
unfoldable pub describe : {F : Type 0} → (F → String) → (String → String) → Token F → String
describe show_f64 debug_text dot = "."
describe show_f64 debug_text recursive_dot = ".."
describe show_f64 debug_text lbracket = "["
describe show_f64 debug_text rbracket = "]"
describe show_f64 debug_text lbrace = "{"
describe show_f64 debug_text rbrace = "}"
describe show_f64 debug_text lparen = "("
describe show_f64 debug_text rparen = ")"
describe show_f64 debug_text pipe = "|"
describe show_f64 debug_text comma = ","
describe show_f64 debug_text colon = ":"
describe show_f64 debug_text semicolon = ";"
describe show_f64 debug_text (variable v) = "$" <> v
describe show_f64 debug_text (ident i) = i
describe show_f64 debug_text (number n) = show_f64 n
describe show_f64 debug_text (str s) = debug_text s
describe show_f64 debug_text (interp s) = "\\\\(" <> s <> ")"
describe show_f64 debug_text eq_eq = "=="
describe show_f64 debug_text ne = "!="
describe show_f64 debug_text lt = "<"
describe show_f64 debug_text le = "<="
describe show_f64 debug_text gt = ">"
describe show_f64 debug_text ge = ">="
describe show_f64 debug_text plus = "+"
describe show_f64 debug_text minus = "-"
describe show_f64 debug_text star = "*"
describe show_f64 debug_text slash = "/"
describe show_f64 debug_text percent = "%"
describe show_f64 debug_text alternative = "//"
describe show_f64 debug_text assign = "="
describe show_f64 debug_text eof = "end of input"

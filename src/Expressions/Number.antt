-- ===== src/Expressions/Number.antt =====
-- What the expression language takes from elsewhere: the numbers of serde_json, floating-point
-- arithmetic, JSON texts, and the Unicode tables of characters.
use Prim.Native.Char.{Char}
use Prim.Native.Nat.{Ordering}
use ows_runtime_rust.Prelude.{ℕ, String, Bool, Option, Result}
use ows_runtime_rust.Json.{Value}
use ows_runtime_rust.Expressions.Int64.{ℤ}

pub record Numbers (N F : Type 0) : Type 0 where
  pub as_i64 : N → Option ℤ
  pub from_i64 : ℤ → N
  pub as_f64 : N → F
  -- `Number::from_f64`: none for a NaN or an infinity
  pub from_f64 : F → Option N
  -- `==` of two numbers as JSON
  pub same_number : N → N → Bool
  pub show_number : N → String
  -- `n.fract() == 0.0 && n.abs() < 9_007_199_254_740_992.0`
  pub is_exact : F → Bool
  -- the saturating casts of `as`
  pub to_i64 : F → ℤ
  pub to_usize : F → ℕ
  pub of_i64 : ℤ → F
  pub of_usize : ℕ → F
  pub f_one : F
  pub f_zero : F
  pub f_add : F → F → F
  pub f_sub : F → F → F
  pub f_mul : F → F → F
  pub f_div : F → F → F
  pub f_rem : F → F → F
  pub f_neg : F → F
  pub f_abs : F → F
  pub f_floor : F → F
  pub f_max0 : F → F
  pub f_is_zero : F → Bool
  pub f_eq : F → F → Bool
  -- `partial_cmp`
  pub f_cmp : F → F → Option Ordering
  -- `parse::<f64>`
  pub parse_f64 : String → Option F
  -- `{n}` of a float
  pub show_f64 : F → String
  -- `serde_json::to_string` and `from_str`
  pub to_json : Value N → String
  pub from_json : String → Result String (Value N)
  -- `to_string` of a value inside an error message
  pub show_value : Value N → String

-- `char::is_alphabetic` and `char::is_numeric` (`is_alphanumeric` is either), and `char::from_u32`,
-- and `{s:?}` of a text
pub record Unicode : Type 0 where
  pub is_alphabetic : Char → Bool
  pub is_numeric : Char → Bool
  pub from_u32 : ℕ → Option Char
  pub debug_text : String → String

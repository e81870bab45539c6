-- ===== src/Expressions/Eval/Builtins/Texts.antt =====
-- The built-in functions on texts and numbers of crates/ows-runtime-expressions/src/eval.rs, and
-- those that tell the kinds of values apart.
use Prim.Native.Char.{Char}
use ows_runtime_rust.Prelude.{
  String, Bool, List, Result, if◌then◌else◌, ◌<>◌, str_eq, unwrap_or, err, not, ok, ◌∷◌, [],
  is_none, Option,
}
use mathlib.Core.List.{map}
use ows_runtime_rust.Expressions.Error.{Evaluated, done, failed, ◌>>=◌, ok_or, type_error, eval}
use ows_runtime_rust.Json.{Value, null, bool, number, string, array, object}
use ows_runtime_rust.Expressions.Eval.Builtins.Arrays.{first_arg, first_value, text_in}
use ows_runtime_rust.Expressions.Eval.Values.{as_str, json_num, to_string, first_or_null, array_of}
use ows_runtime_rust.Expressions.Number.{Numbers}
use ows_runtime_rust.Expressions.Eval.Compose.{Filter}
use ows_runtime_rust.Expressions.Text.{
  strip_prefix, split, strip_suffix, starts_with, to_ascii_lowercase, to_ascii_uppercase,
}
use ows_runtime_rust.Expressions.Text.Chars.{chars, collect}

abbrev strip : Bool → List Char → List Char → Option (List Char)
strip left s t = if left then strip_prefix s t else strip_suffix s t

module _ {N : Type 0} where
  unfoldable pub type_name : Value N → String
  type_name null = "null"
  type_name (bool _) = "boolean"
  type_name (number _) = "number"
  type_name (string _) = "string"
  type_name (array _) = "array"
  type_name (object _) = "object"

  -- which values the filter of this name keeps
  unfoldable pub keeps : String → Value N → Bool
  unfolding type_name
  keeps name v =
      if str_eq name "values"
      then not (str_eq (type_name v) "null")
      else if str_eq name "arrays"
      then str_eq (type_name v) "array"
      else if str_eq name "objects"
      then str_eq (type_name v) "object"
      else if str_eq name "strings"
      then str_eq (type_name v) "string"
      else if str_eq name "numbers"
      then str_eq (type_name v) "number"
      else if str_eq name "booleans"
      then str_eq (type_name v) "boolean"
      else str_eq (type_name v) "null"

  unfoldable pub call_kind : String → Filter N
  unfolding keeps
  call_kind name input = done (if keeps name input then input ∷ [] else [])

  -- the text of the first argument's first value
  unfoldable pub text_arg : List (Filter N) → Value N → Evaluated (Option String)
  unfolding first_arg first_value text_in
  text_arg args input = first_arg args input >>= λ a. done (text_in (first_value a))

  unfoldable pub call_starts_or_ends : Bool → List (Filter N) → Filter N
  unfolding text_arg as_str strip_prefix strip_suffix chars
  call_starts_or_ends starts args input = text_arg args input >>= λ a.
      ok_or a (eval "startswith/endswith requires a string") >>= λ needle.
      ok_or (as_str input) (type_error "startswith/endswith expects a string input") >>= λ s. done (
        bool (
          if starts
          then starts_with (chars s) (chars needle)
          else not (is_none (strip_suffix (chars s) (chars needle))))
        ∷ [])

  unfoldable pub call_trimstr : Bool → List (Filter N) → Filter N
  unfolding text_arg as_str strip_prefix strip_suffix chars collect
  call_trimstr left args input = text_arg args input >>= λ a.
      let s = chars (unwrap_or (as_str input) "") in
      done (string (collect (unwrap_or (strip left s (chars (unwrap_or a ""))) s)) ∷ [])

  unfoldable pub call_ascii_case : Bool → Filter N
  unfolding as_str chars collect to_ascii_lowercase to_ascii_uppercase
  call_ascii_case lower input = ok_or (as_str input) (type_error "expects a string") >>= λ s. done (
      string
        (collect (if lower then to_ascii_lowercase (chars s) else to_ascii_uppercase (chars s)))
      ∷ [])

module _ {N F : Type 0} (num : Numbers N F) where
  abbrev split_text : List Char → Value N → Evaluated (List (Value N))
  split_text sep (string s) = done (array_of (map (λ p. string p) (split (chars s) sep)) ∷ [])
  split_text sep other =
      failed (type_error ("split expects a string, got `" <> num.show_value other <> "`"))

  unfoldable pub call_split : List (Filter N) → Filter N
  unfolding text_arg split chars
  call_split args input = text_arg args input >>= λ a. split_text (chars (unwrap_or a "")) input

  unfoldable pub as_number : Value N → Evaluated F
  as_number (number n) = done (num.as_f64 n)
  as_number (string s) = ok_or (num.parse_f64 s) (eval ("cannot parse `" <> s <> "` as a number"))
  as_number (bool b) = done (if b then num.f_one else num.f_zero)
  as_number other =
      failed (type_error ("cannot convert `" <> num.show_value other <> "` to number"))

  unfoldable pub call_tonumber : Filter N
  unfolding as_number json_num
  call_tonumber input = as_number input >>= λ n. done (json_num num n ∷ [])

  abbrev parsed : Result String (Value N) → Evaluated (List (Value N))
  parsed (err e) = failed (eval ("fromjson could not parse JSON: " <> e))
  parsed (ok v) = done (v ∷ [])

  unfoldable pub call_fromjson : Filter N
  unfolding as_str
  call_fromjson input =
      ok_or (as_str input) (type_error "fromjson expects a string input") >>= λ source.
      parsed (num.from_json source)

  unfoldable pub call_error : List (Filter N) → Filter N
  unfolding to_string first_or_null
  call_error [] input = failed (eval (to_string num input))
  call_error (f ∷ _) input = f input >>= λ vs. failed (eval (to_string num (first_or_null vs)))

  -- `fabs` and `floor`
  unfoldable pub call_rounding : String → (F → F) → Filter N
  unfolding json_num
  call_rounding name f (number n) = done (json_num num (f (num.as_f64 n)) ∷ [])
  call_rounding name f other = failed (type_error (name <> " of `" <> num.show_value other <> "`"))

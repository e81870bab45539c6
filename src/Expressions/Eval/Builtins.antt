-- ===== src/Expressions/Eval/Builtins.antt =====
-- `call_function` of crates/ows-runtime-expressions/src/eval.rs.
pub mod Arrays
pub mod Texts
use ows_runtime_rust.Prelude.{
  str_eq, if◌then◌else◌, ◌||◌, true, false, List, String, [], Bool, ◌∷◌, not,
}
use ows_runtime_rust.Expressions.Error.{done, failed, unsupported_function}
use ows_runtime_rust.Expressions.Eval.Compose.{Filter}
use ows_runtime_rust.Expressions.Number.{Numbers}
use ows_runtime_rust.Expressions.Eval.Builtins.Texts.{
  call_split, call_tonumber, call_fromjson, call_error, call_rounding, call_starts_or_ends,
  call_trimstr, call_ascii_case, type_name, call_kind,
}
use ows_runtime_rust.Expressions.Eval.Builtins.Arrays.{
  call_length, call_keys, call_map, call_select, call_join, call_contains, call_range, call_first,
  call_last, call_flatten, call_reverse, call_add, call_has,
}
use ows_runtime_rust.Expressions.Eval.Values.{to_string, truthy}
use ows_runtime_rust.Json.{string, bool}

abbrev is_kind : String → Bool
is_kind name =
    str_eq name "values"
    || str_eq name "arrays"
    || str_eq name "objects"
    || str_eq name "strings"
    || str_eq name "numbers"
    || str_eq name "booleans"
    || str_eq name "nulls"

module _ {N F : Type 0} (num : Numbers N F) where
  -- the functions on texts and numbers, and the filters by kind
  unfoldable pub call_text_function : String → List (Filter N) → Filter N
  unfolding call_split call_tonumber call_fromjson call_error call_rounding call_starts_or_ends
      call_trimstr call_ascii_case type_name call_kind to_string truthy
  call_text_function name args input =
      if str_eq name "tostring"
      then done (string (to_string num input) ∷ [])
      else if str_eq name "tonumber"
      then call_tonumber num input
      else if str_eq name "startswith" || str_eq name "endswith"
      then call_starts_or_ends (str_eq name "startswith") args input
      else if str_eq name "split"
      then call_split num args input
      else if str_eq name "fromjson"
      then call_fromjson num input
      else if str_eq name "type"
      then done (string (type_name input) ∷ [])
      else if str_eq name "not"
      then done (bool (not (truthy input)) ∷ [])
      else if str_eq name "ascii_downcase" || str_eq name "ascii_upcase"
      then call_ascii_case (str_eq name "ascii_downcase") input
      else if str_eq name "ltrimstr" || str_eq name "rtrimstr"
      then call_trimstr (str_eq name "ltrimstr") args input
      else if str_eq name "error"
      then call_error num args input
      else if str_eq name "fabs"
      then call_rounding num name num.f_abs input
      else if str_eq name "floor"
      then call_rounding num name num.f_floor input
      else if is_kind name
      then call_kind name input
      else failed (unsupported_function name)

  unfoldable pub call_function : String → List (Filter N) → Filter N
  unfolding call_length call_keys call_map call_select call_join call_contains call_range call_first
      call_last call_flatten call_reverse call_add call_has call_text_function
  call_function name args input =
      if str_eq name "length"
      then call_length num input
      else if str_eq name "keys"
      then call_keys num input
      else if str_eq name "map"
      then call_map num args input
      else if str_eq name "select"
      then call_select args input
      else if str_eq name "join"
      then call_join num args input
      else if str_eq name "contains"
      then call_contains num args input
      else if str_eq name "empty"
      then done []
      else if str_eq name "range"
      then call_range num args input
      else if str_eq name "first"
      then call_first input
      else if str_eq name "last"
      then call_last input
      else if str_eq name "flatten"
      then call_flatten input
      else if str_eq name "reverse"
      then call_reverse num input
      else if str_eq name "add"
      then call_add num input
      else if str_eq name "has"
      then call_has num args input
      else call_text_function name args input

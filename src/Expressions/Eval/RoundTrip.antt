-- ===== src/Expressions/Eval/RoundTrip.antt =====
-- `split` and `join` as functions of the expression language.
use mathlib.Core.List.{map}
use ows_runtime_rust.Prelude.{◌≡◌, refl, ap, ◌∙◌, List, [], ◌∷◌, String, join_text}
use ows_runtime_rust.Json.{string, Fields}
use ows_runtime_rust.Expressions.Error.{done}
use ows_runtime_rust.Expressions.Syntax.{Expr, pipe, call, literal, expr, no_exprs}
use ows_runtime_rust.Expressions.Eval.{eval}
use ows_runtime_rust.Expressions.Number.{Numbers}
use ows_runtime_rust.Expressions.Eval.Values.{to_string}
use ows_runtime_rust.Expressions.Eval.Reversal.{list_of_items-items_of_list}
use ows_runtime_rust.Expressions.Text.{split}
use ows_runtime_rust.Expressions.Text.Chars.{chars}
use ows_runtime_rust.Expressions.Text.Joining.{join-split}

module _ {N F : Type 0} (num : Numbers N F) (vars : Fields N) where
  texts-strings : (ps : List String) → map (to_string num) (map (λ p. string p) ps) ≡ ps
  unfolding to_string
  texts-strings [] = refl
  texts-strings (p ∷ ps) = ap (λ l. p ∷ l) (texts-strings ps)

  -- a call of a function with one text
  abbrev pub with_text : String → String → Expr N
  with_text name arg = call name (expr (literal (string arg)) no_exprs)

  -- `split(sep) | join(sep)` gives every text back.
  pub eval-split_join :
      (s sep : String)
      → eval num vars (pipe (with_text "split" sep) (with_text "join" sep)) (string s)
        ≡ done (string s ∷ [])
  unfolding eval
  eval-split_join s sep =
      ap (λ t. done (string t ∷ []))
        (ap (λ l. join_text sep (map (to_string num) l))
            (list_of_items-items_of_list (map (λ p. string p) (split (chars s) (chars sep))))
          ∙ ap (λ l. join_text sep l) (texts-strings (split (chars s) (chars sep)))
          ∙ join-split s sep)

-- ===== src/Expressions/Jq/Blocks.antt =====
-- How crates/ows-runtime-expressions/src/engine.rs finds the blocks `${ ... }` of a text.
use Prim.Native.Char.{Char}
use ows_runtime_rust.Prelude.{
  true, false, none, some, suc, [], ◌∷◌, List, Bool, ℕ, Option, ◌&&◌, ◌+◌, if◌then◌else◌, String,
  ◌-◌, not,
}
use ows_runtime_rust.Expressions.Int64.{ℤ, pos, negsuc, ◌+ℤ◌, is_zero}
use ows_runtime_rust.Engine.Ir.Duration.{is_whitespace}
use ows_runtime_rust.Expressions.Text.{
  drop, trim, trim_start, is, is_space, take, strip_prefix, starts_with,
}
use ows_runtime_rust.Expressions.Text.Chars.{chars}

-- whether a text begins with `${`
abbrev pub opens_block : List Char → Bool
opens_block (c ∷ d ∷ _) = is b'$' c && is b'{' d
opens_block _ = false

-- whether the loop that is to pass over a string stops inside the text; `escaped` holds in front
-- of a character that a backslash passes
unfoldable pub string_stops : Bool → List Char → Bool
string_stops escaped [] = false
string_stops true (c ∷ cs) = string_stops false cs
string_stops false (c ∷ cs) = elim (is b'"' c) [
  | true ↦ true
  | false ↦ string_stops (is b'\\' c) cs
]

-- the index of the brace that closes the block, from the index `i` on at a depth
unfoldable pub find_close : ℤ → ℕ → List Char → Option ℕ
unfolding string_stops ◌+ℤ◌
find_close depth i [] = none
find_close depth i (c ∷ cs) = elim (is b'{' c) [
  | true ↦ find_close (depth +ℤ pos 1) (i + 1) cs
  | false ↦ elim (is b'}' c) [
    | true ↦ elim (is_zero (depth +ℤ negsuc 0)) [
      | true ↦ some i
      | false ↦ find_close (depth +ℤ negsuc 0) (i + 1) cs
    ]
    | false ↦ elim (is b'"' c && not (string_stops false (c ∷ cs))) [
      | true ↦ none
      | false ↦ find_close depth (i + 1) cs
    ]
  ]
]

unfoldable pub find_block_close : List Char → ℕ → Option ℕ
unfolding find_close drop
find_block_close cs brace = find_close (pos 0) brace (drop brace cs)

unfoldable pub first_non_ws : List Char → Option ℕ
unfolding is_whitespace
first_non_ws [] = none
first_non_ws (c ∷ cs) =
    let later = first_non_ws cs in
    if is_space c then elim later [ none ↦ none | some i ↦ some (suc i) ] else some 0

abbrev pub all_space : List Char → Bool
all_space [] = true
all_space (c ∷ cs) = is_space c && all_space cs

-- the text inside the block, when nothing but whitespace follows it
abbrev inside : List Char → ℕ → Option ℕ → Option (List Char)
inside cs brace none = none
inside cs brace (some close) =
    if all_space (drop (close + 1) cs)
    then some (trim (take (close - (brace + 1)) (drop (brace + 1) cs)))
    else none

abbrev block_at : List Char → Option ℕ → Option (List Char)
block_at cs none = none
block_at cs (some start) =
    if opens_block (drop start cs)
    then inside cs (start + 1) (find_block_close cs (start + 1))
    else none

unfoldable pub single_block : List Char → Option (List Char)
unfolding is_whitespace first_non_ws find_block_close trim take drop
single_block cs = block_at cs (first_non_ws cs)

-- `value.trim_start().starts_with("${")`
unfoldable pub is_expression : String → Bool
unfolding trim_start strip_prefix chars
is_expression value = starts_with (trim_start (chars value)) (chars "${")

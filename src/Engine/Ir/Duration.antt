-- ===== src/Engine/Ir/Duration.antt =====
-- `parse_iso8601_duration` of crates/ows-runtime/src/ir.rs. A text is the list of its characters'
-- code points. What a number's text is worth in a unit is a parameter: the parsed `f64` times the
-- unit's seconds (a factor left out for seconds), times 1e9, in this order, `as u128`. A sum beyond 128 bits wraps around, as it does without overflow checks.
pub mod Sections
use ows_runtime_rust.Prelude.{
  ℕ, ◌+◌, ◌*◌, ◌%◌, ◌^◌, ◌==◌, leb, Bool, true, false, ◌&&◌, ◌||◌, Option, none, some, List, [],
  ◌∷◌, push, if◌then◌else◌, Result, ok, err,
}

-- '0'..='9' and '.'
unfoldable pub is_number_char : ℕ → Bool
is_number_char c = (leb 48 c && leb c 57) || (c == 46)

-- the nanoseconds of Y, M, W and D
unfoldable pub date_unit : ℕ → Option ℕ
date_unit c =
    if c == 89
    then some 31536000000000000
    else if c == 77
    then some 2592000000000000
    else if c == 87
    then some 604800000000000
    else if c == 68
    then some 86400000000000
    else none

-- the nanoseconds of H, M and S
unfoldable pub time_unit : ℕ → Option ℕ
time_unit c =
    if c == 72
    then some 3600000000000
    else if c == 77
    then some 60000000000
    else if c == 83
    then some 1000000000
    else none

module _ (scaled : List ℕ → ℕ → Option ℕ) (unit : ℕ → Option ℕ) where
  abbrev worth : Bool → List ℕ → Option ℕ → Option ℕ
  worth true num (some u) = scaled num u
  worth _ _ _ = none

  -- A section's characters after `num`, which holds the digits read so far; `none` is the error.
  -- Digits that no unit follows are dropped.
  unfoldable pub read_section : List ℕ → Bool → List ℕ → ℕ → Option ℕ
  read_section [] in_number num total = some total
  read_section (c ∷ cs) in_number num total = elim (is_number_char c) [
    | true ↦ read_section cs true (push num c) total
    | false ↦ elim (worth in_number num (unit c)) [
      | none ↦ none
      | some n ↦ read_section cs false [] ((total + n) % 2 ^ 128)
    ]
  ]

-- `body.split_once('T')`
unfoldable pub split_once : List ℕ → List ℕ × Option (List ℕ)
split_once [] = ([], none)
split_once (c ∷ cs) = let (d, t) = split_once cs in if c == 84 then ([], some cs) else (c ∷ d, t)

-- `char::is_whitespace`
unfoldable pub is_whitespace : ℕ → Bool
is_whitespace c =
    (leb 9 c && leb c 13)
    || (c == 32)
    || (c == 133)
    || (c == 160)
    || (c == 5760)
    || (leb 8192 c && leb c 8202)
    || (c == 8232)
    || (c == 8233)
    || (c == 8239)
    || (c == 8287)
    || (c == 12288)

unfoldable pub trim_start : List ℕ → List ℕ
unfolding is_whitespace
trim_start [] = []
trim_start (c ∷ cs) = let rest = trim_start cs in if is_whitespace c then rest else c ∷ cs

abbrev pub blank_or_cons : ℕ → List ℕ → List ℕ
blank_or_cons c [] = if is_whitespace c then [] else c ∷ []
blank_or_cons c (d ∷ ds) = c ∷ d ∷ ds

unfoldable pub trim_end : List ℕ → List ℕ
trim_end [] = []
trim_end (c ∷ cs) = blank_or_cons c (trim_end cs)

module _ (scaled : List ℕ → ℕ → Option ℕ) where
  unfoldable pub read_time : Option (List ℕ) → ℕ → Option ℕ
  unfolding read_section time_unit
  read_time none total = some total
  read_time (some t) total = read_section scaled time_unit t false [] total

  -- the result is cut to 64 bits
  abbrev pub cut : Option ℕ → Option ℕ
  cut none = none
  cut (some n) = some (n % 2 ^ 64)

  unfoldable pub after_date : Option (List ℕ) → Option ℕ → Option ℕ
  unfolding read_time
  after_date time none = none
  after_date time (some days) = cut (read_time time days)

  unfoldable pub read_split : List ℕ × Option (List ℕ) → Option ℕ
  unfolding read_section date_unit after_date
  read_split (date, time) = after_date time (read_section scaled date_unit date false [] 0)

  -- the text after the `P`
  unfoldable pub read_body : List ℕ → Option ℕ
  unfolding split_once read_split
  read_body body = read_split (split_once body)

  unfoldable pub read_trimmed : List ℕ → Option ℕ
  unfolding read_body
  read_trimmed [] = none
  read_trimmed (c ∷ body) = let r = read_body body in if c == 80 then r else none

  -- `none` stands for the error that quotes the input
  unfoldable pub parse_iso8601_duration : List ℕ → Option ℕ
  unfolding read_trimmed trim_start trim_end
  parse_iso8601_duration input = read_trimmed (trim_end (trim_start input))

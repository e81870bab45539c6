-- ===== src/Tests/Durations.antt =====
-- Durations at concrete texts. A number is worth its decimal value times the unit.
use ows_runtime_rust.Prelude.{ℕ, ◌≡◌, refl, some, none, List, [], ◌∷◌, Option, arith, ◌*◌, ◌+◌, ◌-◌}
use ows_runtime_rust.Engine.Ir.Duration.{
  parse_iso8601_duration, read_trimmed, date_unit, time_unit, is_number_char,
}
use ows_runtime_rust.Engine.Ir.Duration.Sections.{
  Section, part, nothing, AllNumber, read_trimmed-sections,
}

abbrev value_from : ℕ → List ℕ → ℕ
value_from n [] = n
value_from n (c ∷ cs) = value_from (n * 10 + (c - 48)) cs

abbrev decimal : List ℕ → ℕ → Option ℕ
decimal num u = some (value_from 0 num * u)

-- `1D`
abbrev one_day : List ℕ
one_day = 49 ∷ 68 ∷ []

-- `30S`
abbrev thirty_seconds : List ℕ
thirty_seconds = 51 ∷ 48 ∷ 83 ∷ []

one_day-Section : Section decimal date_unit one_day 86400000000000
unfolding is_number_char date_unit
one_day-Section = part 49 [] 68 86400000000000 86400000000000 [] 0 (refl, tt) refl refl refl nothing

thirty_seconds-Section : Section decimal time_unit thirty_seconds 30000000000
unfolding is_number_char time_unit
thirty_seconds-Section =
    part 51 (48 ∷ []) 83 1000000000 30000000000 [] 0 (refl, (refl, tt)) refl refl refl nothing

five_is_number : AllNumber (53 ∷ [])
unfolding is_number_char
five_is_number = (refl, tt)

-- `P1DT30S5`
read_trimmed-sections_example :
    read_trimmed decimal (80 ∷ 49 ∷ 68 ∷ 84 ∷ 51 ∷ 48 ∷ 83 ∷ 53 ∷ []) ≡ some 86430000000000
read_trimmed-sections_example =
    read_trimmed-sections decimal one_day thirty_seconds (53 ∷ []) 86400000000000 30000000000
      one_day-Section thirty_seconds-Section five_is_number (omega arith)

-- ` PT30 ` is accepted and is no time at all
no_unit_test : parse_iso8601_duration decimal (32 ∷ 80 ∷ 84 ∷ 51 ∷ 48 ∷ 32 ∷ []) ≡ some 0
unfolding parse_iso8601_duration is_number_char date_unit
no_unit_test = refl

no_p_test : parse_iso8601_duration decimal (49 ∷ 68 ∷ []) ≡ none
unfolding parse_iso8601_duration
no_p_test = refl

-- ===== src/Engine/Ir/Duration/Sections.antt =====
-- What the parser of Engine/Ir/Duration.antt reads.
use ows_runtime_rust.Prelude.{
  ℕ, ◌+◌, ◌%◌, ◌^◌, ◌<◌, ◌≡◌, refl, ap, ◌∙◌, Bool, true, false, Option, some, List, [], ◌∷◌, push,
  arith, sym, ◌≢◌,
}
use ows_runtime_rust.Engine.Ir.Duration.{
  is_number_char, date_unit, time_unit, read_section, split_once, read_trimmed, read_split,
  after_date, cut,
}

abbrev pub append : List ℕ → List ℕ → List ℕ
append [] ys = ys
append (x ∷ xs) ys = x ∷ append xs ys

abbrev pub AllNumber : List ℕ → Type 0
AllNumber [] = Unit
AllNumber (c ∷ cs) = (is_number_char c ≡ true) × AllNumber cs

-- a section of numbers with their units, worth `total` nanoseconds together
pub data Section (scaled : List ℕ → ℕ → Option ℕ) (unit : ℕ → Option ℕ) : List ℕ → ℕ → Type 0 where
  nothing : Section scaled unit [] 0
  part :
      (d : ℕ) (num : List ℕ) (c u n : ℕ) (rest : List ℕ) (total : ℕ)
      → AllNumber (d ∷ num)
      → is_number_char c ≡ false
      → unit c ≡ some u
      → scaled (d ∷ num) u ≡ some n
      → Section scaled unit rest total
      → Section scaled unit (append (d ∷ num) (c ∷ rest)) (n + total)

push-append : (xs ys : List ℕ) (x : ℕ) → append (push xs x) ys ≡ append xs (x ∷ ys)
push-append [] ys x = refl
push-append (z ∷ xs) ys x = ap (λ l. z ∷ l) (push-append xs ys x)

append-nil : (xs : List ℕ) → append xs [] ≡ xs
append-nil [] = refl
append-nil (x ∷ xs) = ap (λ l. x ∷ l) (append-nil xs)

append_assoc : (xs ys zs : List ℕ) → append (append xs ys) zs ≡ append xs (append ys zs)
append_assoc [] ys zs = refl
append_assoc (x ∷ xs) ys zs = ap (λ l. x ∷ l) (append_assoc xs ys zs)

module _ (scaled : List ℕ → ℕ → Option ℕ) (unit : ℕ → Option ℕ) where
  -- digits are collected
  read_section-digits :
      (ds cs num : List ℕ) (total : ℕ)
      → AllNumber ds
      → read_section scaled unit (append ds cs) true num total
        ≡ read_section scaled unit cs true (append num ds) total
  unfolding read_section
  read_section-digits [] cs num total h = rw append-nil refl
  read_section-digits (d ∷ ds) cs num total h =
      rw (h.0, read_section) (read_section-digits ds cs (push num d) total h.1)
      ∙ ap (λ l. read_section scaled unit cs true l total) (push-append num ds d)

  read_section-trailing :
      (ds num : List ℕ) (b : Bool) (total : ℕ)
      → AllNumber ds
      → read_section scaled unit ds b num total ≡ some total
  unfolding read_section
  read_section-trailing [] num b total h = refl
  read_section-trailing (d ∷ ds) num b total h =
      rw (h.0, read_section) (read_section-trailing ds (push num d) true total h.1)

  read_section-unit :
      (c u n : ℕ) (num cs : List ℕ) (total : ℕ)
      → is_number_char c ≡ false
      → unit c ≡ some u
      → scaled num u ≡ some n
      → read_section scaled unit (c ∷ cs) true num total
        ≡ read_section scaled unit cs false [] ((total + n) % 2 ^ 128)
  unfolding read_section
  read_section-unit c u n num cs total e f g = rw (e, read_section, f, g) refl

  read_section-first :
      (d : ℕ) (cs : List ℕ) (total : ℕ)
      → is_number_char d ≡ true
      → read_section scaled unit (d ∷ cs) false [] total
        ≡ read_section scaled unit cs true (d ∷ []) total
  unfolding read_section
  read_section-first d cs total e = rw (e, read_section) refl

  read_section-Section :
      (cs : List ℕ) (m : ℕ) (ds : List ℕ) (total : ℕ)
      → Section scaled unit cs m
      → AllNumber ds
      → total + m < 2 ^ 128
      → read_section scaled unit (append cs ds) false [] total ≡ some (total + m)
  read_section-Section cs m ds total nothing digits small =
      read_section-trailing ds [] false total digits ∙ ap some (omega arith)
  read_section-Section cs m ds total (part d num c u n rest k all unit_char known worth_n more)
        digits small =
      let below : (total + n) % 2 ^ 128 ≡ total + n = omega arith in
      read_section-first d _ total all.0
      ∙ ap (λ l. read_section scaled unit l true (d ∷ []) total) (append_assoc num (c ∷ rest) ds)
      ∙ read_section-digits num (append (c ∷ rest) ds) (d ∷ []) total all.1
      ∙ read_section-unit c u n (d ∷ num) (append rest ds) total unit_char known worth_n
      ∙ ap (λ t. read_section scaled unit (append rest ds) false [] t) below
      ∙ read_section-Section rest k ds (total + n) more digits (omega arith)
      ∙ ap some (omega arith)

abbrev NoT : List ℕ → Type 0
NoT [] = Unit
NoT (c ∷ cs) = (c ≢ 84) × NoT cs

NoT-append : (xs ys : List ℕ) → NoT xs → NoT ys → NoT (append xs ys)
NoT-append [] ys h g = g
NoT-append (x ∷ xs) ys h g = (h.0, NoT-append xs ys h.1 g)

number_char-not_t : (c : ℕ) → is_number_char c ≡ true → c ≢ 84
unfolding is_number_char
number_char-not_t c h e = ground (arith, h, e)

date_unit-not_t : (c u : ℕ) → date_unit c ≡ some u → c ≢ 84
unfolding date_unit
date_unit-not_t c u h e = ground (arith, h, e)

AllNumber-NoT : (cs : List ℕ) → AllNumber cs → NoT cs
AllNumber-NoT [] h = tt
AllNumber-NoT (c ∷ cs) h = (number_char-not_t c h.0, AllNumber-NoT cs h.1)

split_once-other :
    (c : ℕ) (cs : List ℕ)
    → c ≢ 84
    → split_once (c ∷ cs) ≡ (c ∷ (split_once cs).0, (split_once cs).1)
unfolding split_once
split_once-other c cs h = ground (arith, h)

split_once-NoT : (cs time : List ℕ) → NoT cs → split_once (append cs (84 ∷ time)) ≡ (cs, some time)
unfolding split_once
split_once-NoT [] time h = refl
split_once-NoT (c ∷ cs) time h =
    split_once-other c (append cs (84 ∷ time)) h.0
    ∙ ap (λ r. (c ∷ r.0, r.1)) (split_once-NoT cs time h.1)

module _ (scaled : List ℕ → ℕ → Option ℕ) where
  Section-NoT : (cs : List ℕ) (m : ℕ) → Section scaled date_unit cs m → NoT cs
  Section-NoT cs m nothing = tt
  Section-NoT cs m (part d num c u n rest k all unit_char known worth_n more) =
      NoT-append (d ∷ num) (c ∷ rest) (AllNumber-NoT (d ∷ num) all)
        (date_unit-not_t c u known, Section-NoT rest k more)

  -- A `P`, a date section, a `T` and a time section, both of numbers with their units, are read as
  -- the sum of what the numbers are worth, cut to 64 bits, where the sum fits 128 bits; and digits
  -- at the end that no unit follows change nothing.
  pub read_trimmed-sections :
      (date time digits : List ℕ) (m k : ℕ)
      → Section scaled date_unit date m
      → Section scaled time_unit time k
      → AllNumber digits
      → m + k < 2 ^ 128
      → read_trimmed scaled (80 ∷ append date (84 ∷ append time digits)) ≡ some ((m + k) % 2 ^ 64)
  unfolding read_trimmed
  read_trimmed-sections date time digits m k in_date in_time trailing small =
      let days : read_section scaled date_unit date false [] 0 ≡ some m =
        ap (λ l. read_section scaled date_unit l false [] 0) (sym (append-nil date))
        ∙ read_section-Section scaled date_unit date m [] 0 in_date tt (omega arith)
        ∙ ap some (omega arith) in
      let seconds = read_section-Section scaled time_unit time k digits m in_time trailing small in
      let whole = split_once-NoT date (append time digits) (Section-NoT date m in_date) in
      ap (λ r. read_split scaled r) whole
      ∙ ap (λ o. after_date scaled (some (append time digits)) o) days
      ∙ ap (λ o. cut scaled o) seconds

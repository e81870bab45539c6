-- ===== src/Expressions/Int64.antt =====
-- The `i64` arithmetic of the expression language. A sum, difference or product beyond the range
-- wraps around, as it does without overflow checks.
use ows_runtime_rust.Prelude.{
  ℕ, suc, ◌+◌, ◌-◌, ◌*◌, ◌%◌, ◌^◌, Bool, true, false, ltb, if◌then◌else◌, zero, Option, none, some,
}

pub data ℤ : Type 0 where
  pos negsuc : ℕ → ℤ

unfoldable pub neg : ℤ → ℤ
neg (pos zero) = pos 0
neg (pos (suc n)) = negsuc n
neg (negsuc n) = pos (suc n)

-- `m - n`
infixl 65 ◌⊖◌
unfoldable pub ◌⊖◌ : ℕ → ℕ → ℤ
m ⊖ n = if ltb m n then negsuc (n - m - 1) else pos (m - n)

infixl 65 ◌+ℤ◌
unfoldable pub ◌+ℤ◌ : ℤ → ℤ → ℤ
unfolding ◌⊖◌
pos a +ℤ pos b = pos (a + b)
pos a +ℤ negsuc b = a ⊖ suc b
negsuc a +ℤ pos b = b ⊖ suc a
negsuc a +ℤ negsuc b = negsuc (suc (a + b))

infixl 70 ◌*ℤ◌
unfoldable pub ◌*ℤ◌ : ℤ → ℤ → ℤ
unfolding neg
pos a *ℤ pos b = pos (a * b)
pos a *ℤ negsuc b = neg (pos (a * suc b))
negsuc a *ℤ pos b = neg (pos (suc a * b))
negsuc a *ℤ negsuc b = pos (suc a * suc b)

-- the number of 64 bits with the same bits, from `m < 2 ^ 64`
abbrev pub signed : ℕ → ℤ
signed m = if ltb m (2 ^ 63) then pos m else negsuc (2 ^ 64 - m - 1)

unfoldable pub wrap64 : ℤ → ℤ
wrap64 (pos n) = signed (n % 2 ^ 64)
wrap64 (negsuc n) = signed (2 ^ 64 - 1 - n % 2 ^ 64)

-- The operator `%` of `i64`: the remainder has the sign of the dividend. It panics, which is `none`
-- here, on the divisor 0 and where the quotient overflows, at the least number by -1.
unfoldable pub rem : ℤ → ℤ → Option ℤ
unfolding neg
rem a (pos zero) = none
rem (pos a) (pos (suc b)) = some (pos (a % suc b))
rem (pos a) (negsuc b) = some (pos (a % suc b))
rem (negsuc a) (pos (suc b)) = some (neg (pos (suc a % suc b)))
rem (negsuc a) (negsuc zero) = if ltb (2 ^ 63 - 2) a then none else some (pos 0)
rem (negsuc a) (negsuc (suc b)) = some (neg (pos (suc a % suc (suc b))))

abbrev pub is_zero : ℤ → Bool
is_zero (pos zero) = true
is_zero _ = false

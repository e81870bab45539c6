-- ===== src/Expressions/Eval/Bounds.antt =====
-- The limits of `i64` arithmetic in crates/ows-runtime-expressions/src/eval.rs.
use mathlib.Core.Path.{subst}
use ows_runtime_rust.Expressions.Syntax.{BinOp}
use ows_runtime_rust.Prelude.{
  none, ◌≡◌, ◌<◌, ◌-◌, ◌^◌, suc, zero, ℕ, arith, refl, inl, inr, Bool-cases, ltb, ◌↔◌, ap,
  if◌then◌else◌, sym, ◌∙◌, some, Bool,
}
use ows_runtime_rust.Expressions.Int64.{ℤ, pos, negsuc, rem}
use ows_runtime_rust.Expressions.Error.{panicked, done, failed, eval, Evaluated}
use ows_runtime_rust.Expressions.Number.{Numbers}
use ows_runtime_rust.Expressions.Eval.Arith.{mod_i64, apply_binop, mod_op, both_i64, mod_f64}
use ows_runtime_rust.Expressions.Eval.Values.{json_int}
use ows_runtime_rust.Json.{number, Value}

-- `-2^63 <= i < 2^63`
unfoldable pub IsI64 : ℤ → Type 0
IsI64 (pos n) = n < 2 ^ 63
IsI64 (negsuc n) = n < 2 ^ 63

magnitude : ℤ → ℕ
magnitude (pos n) = n
magnitude (negsuc n) = n

module _ {N F : Type 0} (num : Numbers N F) where
  mod-panics :
      (a b : ℤ)
      → IsI64 a
      → IsI64 b
      → (mod_i64 num a b ≡ panicked) ↔ ((a ≡ negsuc (2 ^ 63 - 1)) × (b ≡ negsuc 0))
  unfolding mod_i64 IsI64 rem
  mod-panics (pos m) (pos zero) ha hb = (λ h. absurd (cc), λ (p, q). absurd (cc))
  mod-panics (pos m) (pos (suc n)) ha hb = (λ h. absurd (cc), λ (p, q). absurd (cc))
  mod-panics (pos m) (negsuc n) ha hb = (λ h. absurd (cc), λ (p, q). absurd (cc))
  mod-panics (negsuc m) (pos zero) ha hb = (λ h. absurd (cc), λ (p, q). absurd (cc))
  mod-panics (negsuc m) (pos (suc n)) ha hb = (λ h. absurd (cc), λ (p, q). absurd (cc))
  mod-panics (negsuc m) (negsuc zero) ha hb = elim (Bool-cases (ltb (2 ^ 63 - 2) m)) [
    | inl e ↦ (λ h. (ap (λ n. negsuc n) (ground (arith, e, ha)), refl), λ _. rw e refl)
    | inr e ↦ (
      λ h. absurd (
          let q : done (json_int num (pos 0)) ≡ panicked =
            ap
              (λ (x : Bool). elim (if x then none else some (pos 0)) as (λ _. Evaluated (Value N)) [
                | none ↦ panicked
                | some r ↦ done (json_int num r)
              ])
              (sym e)
            ∙ h in
          cc),
      λ (p, q). absurd (ground (arith, e, ap magnitude p)),
    )
  ]
  mod-panics (negsuc m) (negsuc (suc n)) ha hb = (λ h. absurd (cc), λ (p, q). absurd (cc))

  mod-fails : (a b : ℤ) → (mod_i64 num a b ≡ failed (eval "modulo by zero")) ↔ (b ≡ pos 0)
  unfolding mod_i64 rem
  mod-fails a (pos zero) = (λ _. refl, λ _. refl)
  mod-fails (pos m) (pos (suc n)) = (λ h. absurd (cc), λ p. absurd (cc))
  mod-fails (pos m) (negsuc n) = (λ h. absurd (cc), λ p. absurd (cc))
  mod-fails (negsuc m) (pos (suc n)) = (λ h. absurd (cc), λ p. absurd (cc))
  mod-fails (negsuc m) (negsuc (suc n)) = (λ h. absurd (cc), λ p. absurd (cc))
  mod-fails (negsuc m) (negsuc zero) = elim (Bool-cases (ltb (2 ^ 63 - 2) m)) [
    | inl e ↦ rw e (λ h. absurd (cc), λ p. absurd (cc))
    | inr e ↦ rw e (λ h. absurd (cc), λ p. absurd (cc))
  ]

  mod_op-both :
      (m n : N) (a b : ℤ)
      → num.as_i64 m ≡ some a
      → num.as_i64 n ≡ some b
      → mod_op num (number m) (number n) ≡ mod_i64 num a b
  unfolding mod_op
  mod_op-both m n a b hm hn = λ i. elim (both_i64 num (hm i) (hn i)) [
    | some (ai, bi) ↦ mod_i64 num ai bi
    | none ↦ mod_f64 num (num.as_f64 m) (num.as_f64 n)
  ]

  -- The remainder of two numbers within 64 bits fails exactly when the divisor is 0, and panics
  -- exactly when the least of the numbers is divided by -1.
  pub mod_op-errors :
      (m n : N) (a b : ℤ)
      → num.as_i64 m ≡ some a
      → num.as_i64 n ≡ some b
      → IsI64 a
      → IsI64 b
      → let r = apply_binop num BinOp.mod_ (number m) (number n) in
        ((r ≡ failed (eval "modulo by zero")) ↔ (b ≡ pos 0))
        × ((r ≡ panicked) ↔ ((a ≡ negsuc (2 ^ 63 - 1)) × (b ≡ negsuc 0)))
  unfolding apply_binop
  mod_op-errors m n a b hm hn ha hb =
      subst
        (λ r.
          ((r ≡ failed (eval "modulo by zero")) ↔ (b ≡ pos 0))
          × ((r ≡ panicked) ↔ ((a ≡ negsuc (2 ^ 63 - 1)) × (b ≡ negsuc 0))))
        (sym (mod_op-both m n a b hm hn)) (mod-fails a b, mod-panics a b ha hb)

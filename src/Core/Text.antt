-- ===== src/Core/Text.antt =====
-- `str::ends_with`, character by character.
use Prim.Native.String.{String, [], ◌∷◌, ◌++◌}
use Prim.Native.String.append
use mathlib.Core.Path.{◌≡◌, refl, ap, sym, ◌∙◌}
use mathlib.Core.Logic.{inl, inr}
use mathlib.Core.Bool.{Bool, true, ◌||◌}
use text.Mathlib.Text.{◌==◌ as str_eq}
use text.Mathlib.TextEquality.{eq_iff}
use text.Mathlib.TextPositions.{eq_refl}
use ows_runtime_rust.Prelude.{Bool-cases}
use native.Mathlib.Omega.{arith}

unfoldable pub ends_with : String → String → Bool
ends_with [] t = str_eq [] t
ends_with (c ∷ s) t = str_eq (c ∷ s) t || ends_with s t

ends_with_refl : (t : String) → ends_with t t ≡ true
unfolding ends_with
ends_with_refl [] = refl
ends_with_refl (c ∷ t) = ground (arith, eq_refl (c ∷ t))

pub append-ends_with : (p t : String) → ends_with (p ++ t) t ≡ true
unfolding ends_with
append-ends_with [] t = ap (λ s. ends_with s t) (append.nil t) ∙ ends_with_refl t
append-ends_with (c ∷ p) t = rw (append.cons c p t) (ground (arith, append-ends_with p t))

pub ends_with-append : (s t : String) → ends_with s t ≡ true → (p : String) × (s ≡ p ++ t)
unfolding ends_with
ends_with-append [] t h = ([], (eq_iff [] t).0 h ∙ sym (append.nil t))
ends_with-append (c ∷ s) t h = elim (Bool-cases (str_eq (c ∷ s) t)) [
  | inl e ↦ ([], (eq_iff (c ∷ s) t).0 e ∙ sym (append.nil t))
  | inr e ↦
      let (p, q) = ends_with-append s t (ground arith) in
      (c ∷ p, ap (λ x. c ∷ x) q ∙ sym (append.cons c p t))
]

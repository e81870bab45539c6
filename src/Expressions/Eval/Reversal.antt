-- ===== src/Expressions/Eval/Reversal.antt =====
-- Indices and `reverse` in crates/ows-runtime-expressions/src/eval.rs.
use ows_runtime_rust.Prelude.{
  ◌≡◌, ◌<◌, ◌+◌, ◌-◌, suc, ℕ, arith, refl, inl, inr, List, [], ◌∷◌, get_elem?, length, ap,
  Bool-cases, ltb, ◌∙◌, sym, unwrap_or,
}
use ows_runtime_rust.Expressions.Int64.{pos, negsuc}
use ows_runtime_rust.Json.{Value, number, array, Items, list_of_items, items_of_list, null}
use ows_runtime_rust.Expressions.Number.{Numbers}
use ows_runtime_rust.Expressions.Eval.Builtins.Arrays.{reverse_onto}
use ows_runtime_rust.Expressions.Eval.Access.{real_index, index_access, at_or_null}
use ows_runtime_rust.Expressions.Error.{done}

module _ {N : Type 0} where
  pub list_of_items-items_of_list : (vs : List (Value N)) → list_of_items (items_of_list vs) ≡ vs
  list_of_items-items_of_list [] = refl
  list_of_items-items_of_list (v ∷ vs) = ap (λ l. v ∷ l) (list_of_items-items_of_list vs)

  length-reverse_onto :
      (vs rest : List (Value N)) → length (reverse_onto vs rest) ≡ length vs + length rest
  length-reverse_onto [] rest = omega arith
  length-reverse_onto (v ∷ vs) rest = omega (arith, length-reverse_onto vs (v ∷ rest))

  get_elem?-reverse_past :
      (vs rest : List (Value N)) (k i : ℕ)
      → i ≡ length vs + k
      → get_elem? (reverse_onto vs rest) i ≡ get_elem? rest k
  get_elem?-reverse_past [] rest k i h =
      ap (λ j. get_elem? rest j) (let q : i ≡ k = omega (arith, h) in q)
  get_elem?-reverse_past (v ∷ vs) rest k i h =
      get_elem?-reverse_past vs (v ∷ rest) (suc k) i (omega (arith, h))

  get_elem?-suc :
      (v : Value N) (vs : List (Value N)) (i j : ℕ)
      → i ≡ suc j
      → get_elem? (v ∷ vs) i ≡ get_elem? vs j
  get_elem?-suc v vs i j h = ap (λ n. get_elem? (v ∷ vs) n) h

  get_elem?-reverse_onto :
      (vs rest : List (Value N)) (k : ℕ)
      → k < length vs
      → get_elem? (reverse_onto vs rest) k ≡ get_elem? vs (length vs - suc k)
  get_elem?-reverse_onto [] rest k h = absurd (omega (arith, h))
  get_elem?-reverse_onto (v ∷ vs) rest k h = elim (Bool-cases (ltb k (length vs))) [
    | inl e ↦
        get_elem?-reverse_onto vs (v ∷ rest) k (ground (arith, e))
        ∙ sym (get_elem?-suc v vs (suc (length vs) - suc k) (length vs - suc k) (ground (arith, e)))
    | inr e ↦
        get_elem?-reverse_past vs (v ∷ rest) 0 k (ground (arith, e, h))
        ∙ ap (λ j. get_elem? (v ∷ vs) j)
            (let q : 0 ≡ suc (length vs) - suc k = ground (arith, e, h) in q)
  ]

  length-reverse : (vs : List (Value N)) → length (reverse_onto vs []) ≡ length vs
  length-reverse vs = omega (arith, length-reverse_onto vs [])

module _ {N F : Type 0} (num : Numbers N F) where
  at-reverse :
      (vs : List (Value N)) (k : ℕ)
      → at_or_null num vs (real_index (negsuc k) (length vs))
        ≡ at_or_null num (reverse_onto vs []) (real_index (pos k) (length (reverse_onto vs [])))
  unfolding real_index
  at-reverse vs k = rw (length-reverse vs) (elim (Bool-cases (ltb k (length vs))) [
    | inl e ↦
        rw e (ap (λ o. unwrap_or o null) (sym (get_elem?-reverse_onto vs [] k (ground (arith, e)))))
    | inr e ↦ rw e refl
  ])

  -- A negative index counts from the end: it gives what the index gives in the reversed array.
  pub index-reverse :
      (xs : Items N) (m n : N) (k : ℕ)
      → num.to_i64 (num.as_f64 m) ≡ negsuc k
      → num.to_i64 (num.as_f64 n) ≡ pos k
      → index_access num (array xs) (number m)
        ≡ index_access num (array (items_of_list (reverse_onto (list_of_items xs) []))) (number n)
  unfolding index_access
  index-reverse xs m n k hm hn =
      rw (hm, hn)
        (ap (λ v. done v)
          (at-reverse (list_of_items xs) k
            ∙ ap (λ l. at_or_null num l (real_index (pos k) (length l)))
                (sym (list_of_items-items_of_list (reverse_onto (list_of_items xs) [])))))

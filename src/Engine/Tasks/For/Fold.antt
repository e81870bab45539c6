-- ===== src/Engine/Tasks/For/Fold.antt =====
-- The `for` task of Engine/Tasks/For.antt as a fold over its items.
use ows_runtime_rust.Prelude.{
  ℕ, ◌+◌, ◌≡◌, ◌≢◌, refl, ◌∙◌, ap, arith, List, [], ◌∷◌, none, some, unwrap_or, true, false, eq_iff,
  ok, length, ◌≤◌,
}
use ows_runtime_rust.Json.{
  Value, null, array, items_of_list, get, insert, get-insert, number, Fields, list_of_items,
}
use ows_runtime_rust.Engine.Ir.{ForDef}
use ows_runtime_rust.Engine.State.{
  State, Execution, done, Exec, pure, observe, modify, ◌>>=◌, gets, continue_with, lift,
}
use ows_runtime_rust.Engine.Runtime.{Runtime}
use ows_runtime_rust.Engine.Eval.{ExpressionContext, as_variable_map, eval_expr}
use ows_runtime_rust.Engine.Tasks.For.{
  task_for, for_loop, bind_item, while_holds, iterate, next_iteration, at_name, items_of,
  check_iterations, unless_cancelled_for,
}

module _ {N W : Type 0} (rt : Runtime N W) (ex : Execution N) (def : ForDef)
    (f : Value N → Value N → Value N) where
  -- the output of each item's body is the input of the next
  abbrev pub fold_items : List (Value N) → Value N → Value N
  fold_items [] v = v
  fold_items (x ∷ xs) v = fold_items xs (f x v)

  abbrev pub folded : List (Value N) → Value N → Value N
  folded [] v = null
  folded (x ∷ xs) v = fold_items (x ∷ xs) v

  -- what the loop's variable for the item is bound to
  abbrev pub item_in : Fields N → Value N
  item_in vars = unwrap_or (get def.each vars) null

  abbrev pub pure_body : Value N → Exec N W (Value N)
  pure_body v s = (done (f (item_in s.loop_vars) v), s)

  item_in-bound :
      (index item : Value N) (vars : Fields N)
      → at_name def ≢ def.each
      → item_in (insert (at_name def) index (insert def.each item vars)) ≡ item
  item_in-bound index item vars apart =
      let found : get def.each (insert (at_name def) index (insert def.each item vars))
          ≡ some item =
        get-insert (at_name def) def.each index (insert def.each item vars)
        ∙ rw (get-insert def.each def.each item vars)
            (ground (arith, eq_iff (at_name def) def.each, eq_iff def.each def.each, apart)) in
      ap (λ o. unwrap_or o null) found

  module _ (live : (w : W) → rt.is_cancelled w ≡ (false, w)) (plain : def.while_ ≡ none)
      (apart : at_name def ≢ def.each) where
    no_while :
        (v : Value N) (s : State N W)
        → while_holds rt ex def pure_body def.while_ v s ≡ (done true, s)
    unfolding while_holds pure
    no_while v s = ap (λ o. while_holds rt ex def pure_body o v s) plain

    iterate-going :
        (rest : Value N → Value N → Exec N W (Value N)) (v out : Value N) (s : State N W)
        → s.ended ≡ false
        → iterate rt ex def pure_body rest v out true s
          ≡ rest (f (item_in s.loop_vars) v) (f (item_in s.loop_vars) v) s
    unfolding iterate next_iteration gets ◌>>=◌
    iterate-going rest v out s going =
        let w = f (item_in s.loop_vars) v in
        ap (λ b. next_iteration rt ex def pure_body (rest w w) w b s) going

    for_round :
        (i : ℕ) (x : Value N) (xs : List (Value N)) (v out : Value N) (s : State N W)
        → s.ended ≡ false
        → for_loop rt ex def pure_body i (x ∷ xs) v out s
          ≡ for_loop rt ex def pure_body
              (i + 1)
              xs
              (f x v)
              (f x v)
              (bind_item rt ex def pure_body i x s)
    unfolding for_loop bind_item unless_cancelled_for observe modify ◌>>=◌
    for_round i x xs v out s going =
        let t = bind_item rt ex def pure_body i x s in
        let rest = for_loop rt ex def pure_body (i + 1) xs in
        let entered : for_loop rt ex def pure_body i (x ∷ xs) v out s
            ≡ iterate rt ex def pure_body rest v out true t =
          rw live (
            ap (λ r. continue_with (iterate rt ex def pure_body rest v out) r.0 r.1)
              (no_while v t)) in
        entered
        ∙ iterate-going rest v out t going
        ∙ ap (λ y. rest (f y v) (f y v) t)
            (item_in-bound (number (rt.number_of i)) x s.loop_vars apart)

    for_loop-fold :
        (i : ℕ) (xs : List (Value N)) (v : Value N) (s : State N W)
        → s.ended ≡ false
        → (for_loop rt ex def pure_body i xs v v s).0 ≡ done (fold_items xs v)
    unfolding for_loop bind_item pure
    for_loop-fold i [] v s going = refl
    for_loop-fold i (x ∷ xs) v s going =
        ap (λ r. r.0) (for_round i x xs v v s going)
        ∙ for_loop-fold (i + 1) xs (f x v) (bind_item rt ex def pure_body i x s) going

    for_loop-folded :
        (xs : List (Value N)) (v : Value N) (s : State N W)
        → s.ended ≡ false
        → (for_loop rt ex def pure_body 0 xs v null s).0 ≡ done (folded xs v)
    unfolding for_loop bind_item pure
    for_loop-folded [] v s going = refl
    for_loop-folded (x ∷ xs) v s going =
        ap (λ r. r.0) (for_round 0 x xs v null s going)
        ∙ for_loop-fold 1 xs (f x v) (bind_item rt ex def pure_body 0 x s) going

    list_of_items-items_of_list : (xs : List (Value N)) → list_of_items (items_of_list xs) ≡ xs
    list_of_items-items_of_list [] = refl
    list_of_items-items_of_list (x ∷ xs) = ap (λ l. x ∷ l) (list_of_items-items_of_list xs)

    within :
        (xs : List (Value N))
        → length xs ≤ rt.max_loop_iterations
        → check_iterations rt (list_of_items (items_of_list xs)) ≡ ok xs
    unfolding check_iterations
    within xs few = rw list_of_items-items_of_list (ground arith)

    -- When the body succeeds on every item without a change of the state, nothing is cancelled or
    -- ended, there is no `while` and the two variables have different names: a `for` task over
    -- items within the policy's limit gives the fold of the body over the items in order, the
    -- output of each the input of the next, or null over no items.
    pub task_for_fold :
        (v : Value N) (c : ExpressionContext N) (s : State N W) (xs : List (Value N))
        → s.ended ≡ false
        → eval_expr rt def.in_ v (as_variable_map c) none ≡ ok (array (items_of_list xs))
        → length xs ≤ rt.max_loop_iterations
        → (task_for rt ex def pure_body v c s).0 ≡ done (folded xs v)
    unfolding task_for items_of modify pure ◌>>=◌ lift
    task_for_fold v c s xs going read few =
        rw (read, within xs few, for_loop-folded xs v s going) refl

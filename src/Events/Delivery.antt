-- ===== src/Events/Delivery.antt =====
-- What the subscribers of the in-memory broker receive.
use ows_runtime_rust.Prelude.{
  ℕ, zero, suc, ◌≡◌, refl, sym, ap, ◌∙◌, Bool, none, some, List, [], ◌∷◌, length, get_elem?, push,
  if◌then◌else◌, arith, Bool-cases, inl, inr,
}
use ows_runtime_rust.Events.CloudEvent.{EventMessage}
use ows_runtime_rust.Events.Broker.{InMemorySubscriber, deliver, publish, publish_all, subscribe}

module _ {A : Type 0} where
  abbrev pub append : List A → List A → List A
  append [] ys = ys
  append (x ∷ xs) ys = x ∷ append xs ys

  abbrev pub accepted : (A → Bool) → List A → List A
  accepted p [] = []
  accepted p (x ∷ xs) = let rest = accepted p xs in if p x then x ∷ rest else rest

  push-append : (xs ys : List A) (x : A) → append (push xs x) ys ≡ append xs (x ∷ ys)
  push-append [] ys x = refl
  push-append (z ∷ xs) ys x = ap (λ l. z ∷ l) (push-append xs ys x)

  append-nil : (xs : List A) → append xs [] ≡ xs
  append-nil [] = refl
  append-nil (x ∷ xs) = ap (λ l. x ∷ l) (append-nil xs)

  get-push : (xs : List A) (x : A) → get_elem? (push xs x) (length xs) ≡ some x
  get-push [] x = refl
  get-push (y ∷ xs) x = get-push xs x

  get-push_old :
      (xs : List A) (x a : A) (i : ℕ) → get_elem? xs i ≡ some a → get_elem? (push xs x) i ≡ some a
  get-push_old [] x a i h = absurd (ground (arith, h))
  get-push_old (y ∷ xs) x a zero h = h
  get-push_old (y ∷ xs) x a (suc i) h = get-push_old xs x a i h

module _ {N : Type 0} where
  abbrev pub with_more : InMemorySubscriber N → List (EventMessage N) → InMemorySubscriber N
  with_more sub es = record sub { queue = append sub.queue (accepted sub.filter es) }

  deliver-more :
      (e : EventMessage N) (es : List (EventMessage N)) (sub : InMemorySubscriber N)
      → with_more (deliver e sub) es ≡ with_more sub (e ∷ es)
  unfolding deliver
  deliver-more e es sub = elim (Bool-cases (sub.filter e)) [
    | inl takes ↦
        rw takes
          (ap (λ q. record sub { queue = q }) (push-append sub.queue (accepted sub.filter es) e))
    | inr leaves ↦ rw leaves refl
  ]

  publish-at :
      (e : EventMessage N) (subs : List (InMemorySubscriber N)) (i : ℕ) (sub : InMemorySubscriber N)
      → get_elem? subs i ≡ some sub
      → get_elem? (publish e subs) i ≡ some (deliver e sub)
  unfolding publish
  publish-at e [] i sub h = absurd (ground (arith, h))
  publish-at e (s ∷ subs) zero sub h =
      ap (λ o. elim o [ none ↦ none | some x ↦ some (deliver e x) ]) h
  publish-at e (s ∷ subs) (suc i) sub h = publish-at e subs i sub h

  publish_all-at :
      (es : List (EventMessage N)) (subs : List (InMemorySubscriber N)) (i : ℕ)
      (sub : InMemorySubscriber N)
      → get_elem? subs i ≡ some sub
      → get_elem? (publish_all es subs) i ≡ some (with_more sub es)
  unfolding publish_all
  publish_all-at [] subs i sub h =
      h ∙ ap (λ q. some (record sub { queue = q })) (sym (append-nil sub.queue))
  publish_all-at (e ∷ es) subs i sub h =
      publish_all-at es (publish e subs) i (deliver e sub) (publish-at e subs i sub h)
      ∙ ap some (deliver-more e es sub)

  -- A new subscription holds the events published after it that its filter accepts, all of them
  -- and in order; an older subscription holds what it held before and then those of the events
  -- that its own filter accepts.
  pub delivered :
      (filter : EventMessage N → Bool) (subs : List (InMemorySubscriber N))
      (es : List (EventMessage N)) (i : ℕ) (sub : InMemorySubscriber N)
      → get_elem? subs i ≡ some sub
      → let after = publish_all es (subscribe filter subs).1 in
        (get_elem? after (subscribe filter subs).0
          ≡ some (record { filter = filter; queue = accepted filter es }))
        × (get_elem? after i ≡ some (with_more sub es))
  unfolding subscribe
  delivered filter subs es i sub h = (
    publish_all-at es _ _ _ (get-push subs _),
    publish_all-at es _ i sub (get-push_old subs _ sub i h),
  )

-- ===== src/Schedule/Firing.antt =====
-- How often the triggers `every` and `after` of crates/ows-runtime/src/schedule.rs fire.
use mathlib.Core.Path.{subst}
use ows_runtime_rust.Prelude.{
  Bool, refl, sym, ap, not, inl, inr, Bool-cases, ◌≡◌, ◌<◌, ◌+◌, ℕ, zero, suc, arith, ◌∙◌, true,
  false, ap, sym, not,
}
use ows_runtime_rust.Json.{null, Value}
use ows_runtime_rust.Schedule.{
  Scheduler, Loop, stopped, run_every, run_after, run_schedule, sleep_or_cancel, fire, every, after,
  running,
}

module _ {N W C : Type 0} (env : Scheduler N W C) (triggered : W → ℕ) where
  -- the trigger's counter is raised by `count_trigger` alone
  pub record Counts : Type 0 where
    pub counted : (w : W) → triggered (env.count_trigger w) ≡ suc (triggered w)
    pub run_keeps : (v : Value N) (w : W) → triggered (env.run_workflow v w) ≡ triggered w
    pub cancelled_keeps : (w : W) → triggered (env.is_cancelled w).1 ≡ triggered w
    pub sleep_keeps : (d : ℕ) (w : W) → triggered (env.sleep_first d w).1 ≡ triggered w

  abbrev checked : W → W
  checked w = (env.is_cancelled w).1

  abbrev rested : ℕ → W → W
  rested d w = (env.sleep_first d (checked w)).1

  -- A sleep that ends by itself: the loop is cancelled neither before nor after it.
  pub record Wakes (d : ℕ) (w : W) : Type 0 where
    pub before : (env.is_cancelled w).0 ≡ false
    pub first : (env.sleep_first d (checked w)).0 ≡ true
    pub after_ : (env.is_cancelled (rested d w)).0 ≡ false

  -- A cancellation: it shows before the sleep, it comes during the sleep, or it shows after it.
  pub data Cancels (d : ℕ) (w : W) : Type 0 where
    before_sleep : (env.is_cancelled w).0 ≡ true → Cancels d w
    in_sleep :
        (env.is_cancelled w).0 ≡ false → (env.sleep_first d (checked w)).0 ≡ false → Cancels d w
    after_sleep :
        (env.is_cancelled w).0 ≡ false
        → (env.sleep_first d (checked w)).0 ≡ true
        → (env.is_cancelled (rested d w)).0 ≡ true
        → Cancels d w

  -- the next `n` sleeps end by themselves, a run after each, and then comes the cancellation
  pub data CancelledAfter (d : ℕ) : ℕ → W → Type 0 where
    now : (w : W) → Cancels d w → CancelledAfter d zero w
    later_ :
        (n : ℕ) (w : W)
        → Wakes d w
        → CancelledAfter d n (env.run_workflow null (env.count_trigger (checked (rested d w))))
        → CancelledAfter d (suc n) w

  Wakes-sleep : (d : ℕ) (w : W) → Wakes d w → sleep_or_cancel env d w ≡ (true, checked (rested d w))
  unfolding sleep_or_cancel
  Wakes-sleep d w h =
      rw (h.before, sleep_or_cancel) (rw h.first (ap (λ c. (not c, checked (rested d w))) h.after_))

  Cancels-sleep : (d : ℕ) (w : W) → Cancels d w → (sleep_or_cancel env d w).0 ≡ false
  unfolding sleep_or_cancel
  Cancels-sleep d w (before_sleep a) = rw (a, sleep_or_cancel) refl
  Cancels-sleep d w (in_sleep a b) = rw (a, sleep_or_cancel) (rw b refl)
  Cancels-sleep d w (after_sleep a b c) = rw (a, sleep_or_cancel) (rw b (ap not c))

  -- the loop has stopped, and its counter is at `n`
  abbrev pub StoppedAt : ℕ → Loop W → Type 0
  StoppedAt n (stopped w) = triggered w ≡ n
  StoppedAt n (running w) = ⊥

  module _ (counts : Counts) where
    fire-triggered : (w : W) → triggered (fire env null w) ≡ suc (triggered w)
    unfolding fire
    fire-triggered w = counts.run_keeps null (env.count_trigger w) ∙ counts.counted w

    sleep-triggered : (d : ℕ) (w : W) → triggered (sleep_or_cancel env d w).1 ≡ triggered w
    unfolding sleep_or_cancel
    sleep-triggered d w =
        let v : W = (env.is_cancelled w).1 in
        elim (Bool-cases (env.is_cancelled w).0) [
          | inl e ↦ rw (e, sleep_or_cancel) (counts.cancelled_keeps w)
          | inr e ↦
              rw (e, sleep_or_cancel)
                (elim (Bool-cases (env.sleep_first d v).0) [
                  | inl k ↦ rw k (
                      counts.cancelled_keeps (env.sleep_first d v).1
                      ∙ counts.sleep_keeps d v
                      ∙ counts.cancelled_keeps w)
                  | inr k ↦ rw k (counts.sleep_keeps d v ∙ counts.cancelled_keeps w)
                ])
        ]

    -- the trigger's counter after a sleep that ends by itself and a run
    woken :
        (d : ℕ) (w : W)
        → Wakes d w
        → triggered (fire env null (checked (rested d w))) ≡ suc (triggered w)
    woken d w h =
        fire-triggered (checked (rested d w))
        ∙ ap (λ r. suc (triggered r.1)) (sym (Wakes-sleep d w h))
        ∙ ap suc (sleep-triggered d w)

    after_every : ℕ → ℕ → Bool × W → Loop W
    after_every d fuel (false, w) = stopped w
    after_every d fuel (true, w) = run_every env d fuel (fire env null w)

    every_round :
        (d fuel : ℕ) (w : W)
        → run_every env d (suc fuel) w ≡ after_every d fuel (sleep_or_cancel env d w)
    unfolding run_every after_every
    every_round d fuel w = elim (Bool-cases (sleep_or_cancel env d w).0) [
      | inl e ↦ rw (e, run_every, after_every) refl
      | inr e ↦ rw (e, run_every, after_every) refl
    ]

    stops_at_start :
        (d : ℕ) (w : W)
        → Cancels d w
        → (r : Loop W)
        → ((e : (sleep_or_cancel env d w).0 ≡ false) → r ≡ stopped (sleep_or_cancel env d w).1)
        → StoppedAt (triggered w + 0) r
    stops_at_start d w c r h =
        subst (λ l. StoppedAt (triggered w + 0) l) (sym (h (Cancels-sleep d w c)))
          (sleep-triggered d w ∙ (let q : triggered w ≡ triggered w + 0 = omega arith in q))

    run_every-StoppedAt :
        (d n fuel : ℕ) (w : W)
        → n < fuel
        → CancelledAfter d n w
        → StoppedAt (triggered w + n) (run_every env d fuel w)
    unfolding after_every fire
    run_every-StoppedAt d n zero w h c = absurd (omega (arith, h))
    run_every-StoppedAt d zero (suc fuel) w h (now w1 c) =
        stops_at_start d w c _ λ e. every_round d fuel w ∙ rw e refl
    run_every-StoppedAt d (suc n) (suc fuel) w h (later_ n1 w1 k cs) =
        let v : W = fire env null (checked (rested d w)) in
        let e = woken d w k in
        let q : triggered v + n ≡ triggered w + suc n = omega (arith, e) in
        subst (λ l. StoppedAt (triggered w + suc n) l)
          (sym (every_round d fuel w ∙ ap (after_every d fuel) (Wakes-sleep d w k)))
          (subst (λ m. StoppedAt m (run_every env d fuel v)) q
            (run_every-StoppedAt d n fuel v (omega (arith, h)) cs))

    after_after : ℕ → ℕ → Bool × W → Loop W
    after_after d fuel (false, w) = stopped w
    after_after d fuel (true, w) = run_after env d fuel w

    after_round :
        (d fuel : ℕ) (w v : W)
        → fire env null w ≡ v
        → run_after env d (suc fuel) w ≡ after_after d fuel (sleep_or_cancel env d v)
    unfolding run_after after_after
    after_round d fuel w v p =
        (let r = sleep_or_cancel env d (fire env null w) in
          elim (Bool-cases r.0) [
            | inl e ↦ rw (e, run_after, after_after) refl
            | inr e ↦ rw (e, run_after, after_after) refl
          ])
        ∙ ap (λ u. after_after d fuel (sleep_or_cancel env d u)) p

    -- from the world after the first run
    after-StoppedAt :
        (d n fuel : ℕ) (w v : W)
        → n < fuel
        → fire env null w ≡ v
        → CancelledAfter d n v
        → StoppedAt (triggered v + n) (run_after env d fuel w)
    unfolding after_after fire
    after-StoppedAt d n zero w v h p c = absurd (omega (arith, h))
    after-StoppedAt d zero (suc fuel) w v h p (now w1 c) =
        stops_at_start d v c _ λ e. after_round d fuel w v p ∙ rw e refl
    after-StoppedAt d (suc n) (suc fuel) w v h p (later_ n1 w1 k cs) =
        let u : W = fire env null (checked (rested d v)) in
        let e = woken d v k in
        let q : triggered u + n ≡ triggered v + suc n = omega (arith, e) in
        subst (λ l. StoppedAt (triggered v + suc n) l)
          (sym (after_round d fuel w v p ∙ ap (after_after d fuel) (Wakes-sleep d v k)))
          (subst (λ m. StoppedAt m (run_after env d fuel (checked (rested d v)))) q
            (after-StoppedAt d n fuel (checked (rested d v)) u (omega (arith, h)) refl cs))

    run_after-StoppedAt :
        (d n fuel : ℕ) (w : W)
        → n < fuel
        → CancelledAfter d n (fire env null w)
        → StoppedAt (triggered w + suc n) (run_after env d fuel w)
    run_after-StoppedAt d n fuel w h c =
        let e = fire-triggered w in
        let q : triggered (fire env null w) + n ≡ triggered w + suc n = omega (arith, e) in
        subst (λ m. StoppedAt m (run_after env d fuel w)) q
          (after-StoppedAt d n fuel w (fire env null w) h refl c)

  -- The triggers `every` and `after` stop at a cancellation, be it before, in or after a sleep.
  -- When the first `n` sleeps end by themselves and the cancellation comes with the next one,
  -- `every` has fired `n` times; and `after`, which fires before it sleeps, once more. Assumed:
  -- nothing but the trigger raises its counter.
  pub schedule_fires :
      (d n fuel : ℕ) (v w : W)
      → Counts
      → n < fuel
      → CancelledAfter d n v
      → CancelledAfter d n (env.run_workflow null (env.count_trigger w))
      → StoppedAt (triggered v + n) (run_schedule env (every d) fuel v)
        × StoppedAt (triggered w + suc n) (run_schedule env (after d) fuel w)
  unfolding run_schedule fire
  schedule_fires d n fuel v w counts h a b =
      (run_every-StoppedAt counts d n fuel v h a, run_after-StoppedAt counts d n fuel w h b)

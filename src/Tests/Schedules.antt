-- ===== src/Tests/Schedules.antt =====
-- Schedules in a world that counts: the pair of the triggers so far and the sleeps left before the
-- cancellation.
use ows_runtime_rust.Prelude.{◌≡◌, ℕ, suc, ◌+◌, ◌-◌, refl, true, false, none, arith, ltb}
use ows_runtime_rust.Schedule.{Scheduler, run_schedule, every, after}
use ows_runtime_rust.Schedule.Firing.{
  Counts, CancelledAfter, StoppedAt, schedule_fires, Wakes, later_, now, after_sleep,
}

abbrev World : Type 0
World = ℕ × ℕ

abbrev counting : Scheduler ℕ World ℕ
counting = record {
  is_cancelled = λ (fired, left). (ltb left 1, (fired, left));
  sleep_first = λ d (fired, left). (true, (fired, left - 1));
  run_workflow = λ input w. w;
  count_trigger = λ (fired, left). (suc fired, left);
  epoch_seconds = λ w. (0, w);
  parse_cron = λ s. none;
  next_after_epoch = λ c now. none;
  subscribe_all = λ w. (false, w);
  receive = λ w. (none, w);
}

counting-Counts : Counts counting (λ w. w.0)
counting-Counts = record {
  counted = λ w. refl;
  run_keeps = λ v w. refl;
  cancelled_keeps = λ w. refl;
  sleep_keeps = λ d w. refl;
}

wakes :
    (fired left : ℕ)
    → ltb left 1 ≡ false
    → ltb (left - 1) 1 ≡ false
    → Wakes counting (λ w. w.0) 5 (fired, left)
wakes fired left p q = record { before = p; first = refl; after_ = q }

two_rounds : (fired : ℕ) → CancelledAfter counting (λ w. w.0) 5 2 (fired, 3)
two_rounds fired =
    later_ 1 (fired, 3) (wakes fired 3 refl refl)
      (later_ 0 (suc fired, 2) (wakes (suc fired) 2 refl refl)
        (now (suc (suc fired), 1) (after_sleep refl refl refl)))

schedule_fires_example :
    StoppedAt counting (λ w. w.0) (0 + 2) (run_schedule counting (every 5) 4 (0, 3))
    × StoppedAt counting (λ w. w.0) (0 + 3) (run_schedule counting (after 5) 4 (0, 3))
schedule_fires_example =
    schedule_fires counting (λ w. w.0) 5 2 4 (0, 3) (0, 3) counting-Counts (omega arith)
      (two_rounds 0) (two_rounds 1)

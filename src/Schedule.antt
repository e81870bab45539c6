-- ===== src/Schedule.antt =====
-- The triggers of crates/ows-runtime/src/schedule.rs. A trigger's loop runs in a world `W`; what it
-- waits for and what it fires are fields of `Scheduler`. A round costs a unit of fuel, since a loop
-- goes on until it is cancelled: `running` is a loop that has not stopped yet.
pub mod Firing
use ows_runtime_rust.Prelude.{
  ℕ, zero, suc, String, Bool, true, false, ◌&&◌, ◌||◌, Option, none, some, List, [], ◌∷◌, str_eq,
  if◌then◌else◌, not, ◌-◌, ◌*◌,
}
use ows_runtime_rust.Json.{
  Value, null, string, array, Fields, field, end, insert, nil, cons, object,
}
use ows_runtime_rust.Events.CloudEvent.{EventMessage}

pub record EventMessageLike : Type 0 where
  pub type_ : String
  pub source : Option String

pub data ScheduleTrigger : Type 0 where
  every after : ℕ → ScheduleTrigger
  cron : String → ScheduleTrigger
  on_events : List EventMessageLike → ScheduleTrigger

-- What a trigger takes from elsewhere. `C` is a parsed cron expression; times are epoch seconds.
pub record Scheduler (N W C : Type 0) : Type 0 where
  pub is_cancelled : W → Bool × W
  -- the sleep raced with the cancellation: whether the sleep came first
  pub sleep_first : ℕ → W → Bool × W
  -- `runtime.run` of the workflow; its outcome is only logged
  pub run_workflow : Value N → W → W
  -- `triggered.fetch_add(1)`
  pub count_trigger : W → W
  pub epoch_seconds : W → ℕ × W
  pub parse_cron : String → Option C
  pub next_after_epoch : C → ℕ → Option ℕ
  -- whether the subscription to all events succeeds
  pub subscribe_all : W → Bool × W
  -- the next event raced with the cancellation; none when cancelled or when there are no more
  pub receive : W → Option (EventMessage N) × W

pub data Loop (W : Type 0) : Type 0 where
  stopped running : W → Loop W

-- one filter against an event
unfoldable pub filter_matches : {N : Type 0} → EventMessage N → EventMessageLike → Bool
filter_matches event f =
    (str_eq f.type_ "*" || str_eq f.type_ event.type_)
    && elim f.source [ none ↦ true | some s ↦ str_eq s event.source ]

abbrev any_matches : {N : Type 0} → EventMessage N → List EventMessageLike → Bool
any_matches event [] = false
any_matches event (f ∷ fs) = filter_matches event f || any_matches event fs

unfoldable pub event_matches : {N : Type 0} → EventMessage N → List EventMessageLike → Bool
unfolding filter_matches
event_matches event [] = true
event_matches event (f ∷ fs) = any_matches event (f ∷ fs)

abbrev insert_some : {N : Type 0} → String → Option (Value N) → Fields N → Fields N
insert_some key none m = m
insert_some key (some v) m = insert key v m

abbrev text_value : {N : Type 0} → Option String → Option (Value N)
text_value none = none
text_value (some s) = some (string s)

unfoldable pub event_envelope : {N : Type 0} → EventMessage N → Value N
unfolding insert
event_envelope {N = N} event =
    let base : Fields N = insert "type" (string event.type_) (
      insert "source" (string event.source)
        (insert "id" (string event.id) (insert "specversion" (string "1.0") end))) in
    object (
      insert_some "subject" (text_value event.subject)
        (insert_some "time" (text_value event.time) (insert_some "data" event.data_ base)))

module _ {N W C : Type 0} (env : Scheduler N W C) where
  -- counts the trigger and runs the workflow
  unfoldable pub fire : Value N → W → W
  fire input w = env.run_workflow input (env.count_trigger w)

  abbrev not_cancelled : Bool × W → Bool × W
  not_cancelled (c, w) = (not c, w)

  -- `false` if cancelled before, while or after sleeping
  unfoldable pub sleep_or_cancel : ℕ → W → Bool × W
  sleep_or_cancel duration w =
      let (c, w) = env.is_cancelled w in
      elim c [
        | true ↦ (false, w)
        | false ↦
            let (first, w) = env.sleep_first duration w in
            elim first [ true ↦ not_cancelled (env.is_cancelled w) | false ↦ (false, w) ]
      ]

  unfoldable pub run_every : ℕ → ℕ → W → Loop W
  unfolding fire sleep_or_cancel
  run_every interval zero w = running w
  run_every interval (suc fuel) w =
      let (awake, w) = sleep_or_cancel interval w in
      elim awake [ false ↦ stopped w | true ↦ run_every interval fuel (fire null w) ]

  unfoldable pub run_after : ℕ → ℕ → W → Loop W
  unfolding fire sleep_or_cancel
  run_after delay zero w = running w
  run_after delay (suc fuel) w =
      let (awake, w) = sleep_or_cancel delay (fire null w) in
      elim awake [ false ↦ stopped w | true ↦ run_after delay fuel w ]

  unfoldable pub run_cron : C → ℕ → W → Loop W
  unfolding fire sleep_or_cancel
  run_cron schedule zero w = running w
  run_cron schedule (suc fuel) w =
      let (now, w) = env.epoch_seconds w in
      elim (env.next_after_epoch schedule now) [
        | none ↦ stopped w
        | some next ↦
            let (awake, w) = sleep_or_cancel ((next - now) * 1000000000) w in
            elim awake [ false ↦ stopped w | true ↦ run_cron schedule fuel (fire null w) ]
      ]

  unfoldable pub run_events : List EventMessageLike → ℕ → W → Loop W
  unfolding fire event_matches event_envelope
  run_events filters zero w = running w
  run_events filters (suc fuel) w =
      let (event, w) = env.receive w in
      elim event [
        | none ↦ stopped w
        | some e ↦ elim (event_matches e filters) [
          | false ↦ run_events filters fuel w
          | true ↦ run_events filters fuel (fire (array (cons (event_envelope e) nil)) w)
        ]
      ]

  unfoldable pub run_schedule : ScheduleTrigger → ℕ → W → Loop W
  unfolding run_every run_after run_cron run_events
  run_schedule (every interval) fuel w = run_every interval fuel w
  run_schedule (after delay) fuel w = run_after delay fuel w
  run_schedule (cron expression) fuel w = elim (env.parse_cron expression) [
    | none ↦ stopped w
    | some schedule ↦ run_cron schedule fuel w
  ]
  run_schedule (on_events filters) fuel w =
      let (subscribed, w) = env.subscribe_all w in
      elim subscribed [ false ↦ stopped w | true ↦ run_events filters fuel w ]

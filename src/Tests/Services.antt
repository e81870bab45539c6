-- ===== src/Tests/Services.antt =====
-- The policy, the store and the events at concrete inputs.
use ows_runtime_rust.Prelude.{ℕ, ◌≡◌, refl, some, none, [], ◌∷◌, ◌↔◌, true, false, get_elem?, ◌==◌}
use ows_runtime_rust.Core.Policy.{
  default_policy, host_allowed, RuntimePolicy, Listed, host_allowed-Listed,
}
use ows_runtime_rust.Core.Store.{
  StoredEvent, ExecutionRecord, InMemoryExecutionStore, load, find_record, events, events_of,
  update, create, append_event,
}
use ows_runtime_rust.Core.Store.Lookup.{store_keeps}
use ows_runtime_rust.Events.CloudEvent.{
  CloudEvent, EventMessage, to_message, from_message, message_round_trip,
}
use ows_runtime_rust.Events.Matcher.{EventMatcher, matches, equals, Accepted, matches_iff}
use ows_runtime_rust.Events.Broker.{InMemorySubscriber, publish_all, subscribe}
use ows_runtime_rust.Json.{null, number, end}
use ows_runtime_rust.Core.Phase.{running}
use ows_runtime_rust.Events.Delivery.{delivered}

abbrev one_host : RuntimePolicy
one_host = record default_policy { allow_network = true; allowed_hosts = "example.com" ∷ [] }

host_allowed-Listed_example :
    host_allowed one_host "api.example.com" ≡ true
    ↔ ((one_host.allow_network ≡ true) × Listed "api.example.com" one_host.allowed_hosts)
host_allowed-Listed_example = host_allowed-Listed one_host "api.example.com" refl

open_policy_test : host_allowed (record default_policy { allow_network = true }) "any.host" ≡ true
unfolding host_allowed
open_policy_test = refl

abbrev stored_event : StoredEvent ℕ
stored_event = record {
  execution_id = "e1";
  sequence = 1;
  event_type = "workflow.started";
  payload = null;
  timestamp = 0;
}

abbrev stored_record : ExecutionRecord ℕ
stored_record = record {
  execution_id = "e1";
  workflow = "ns/wf/1";
  namespace = "ns";
  name = "wf";
  version = "1";
  phase = running;
  context = null;
  pointer = null;
  error = none;
  started_at = 0;
}

abbrev empty_store : InMemoryExecutionStore ℕ
empty_store = record { records = []; log = [] }

store_keeps_example :
    let one_record = update stored_record empty_store in
    (load "e1" (create stored_record empty_store) ≡ some stored_record)
    × (load "e1" one_record ≡ some stored_record)
    × (events "e1" (create stored_record empty_store) ≡ [])
    × (events "e1" one_record ≡ [])
    × (load "e1" (append_event stored_event empty_store) ≡ none)
    × (events "e1" (append_event stored_event empty_store) ≡ stored_event ∷ [])
unfolding load find_record events events_of
store_keeps_example = store_keeps empty_store stored_record stored_event "e1"

abbrev order_event : CloudEvent ℕ
order_event = record {
  id = "1";
  source = "/shop";
  type_ = "order";
  specversion = "1.0";
  time = none;
  subject = none;
  data_content_type = none;
  data_schema = none;
  data_ = some (number 4);
  extensions = end;
}

abbrev order_message : EventMessage ℕ
order_message = record {
  id = "1";
  source = "/shop";
  type_ = "order";
  time = none;
  subject = none;
  data_content_type = none;
  data_schema = none;
  data_ = some (number 4);
  extensions = end;
}

message_round_trip_example :
    (to_message (from_message order_message) ≡ order_message)
    × (from_message (to_message order_event) ≡ order_event)
message_round_trip_example = message_round_trip order_message order_event

abbrev order_matcher : EventMatcher ℕ
order_matcher = record {
  type_ = some "order";
  source = none;
  subject = none;
  attributes = ("data", equals (number 4)) ∷ [];
}

matches_iff_example :
    matches (λ a b. a == b) order_matcher order_event ≡ true
    ↔ Accepted (λ a b. a == b) order_matcher order_event
matches_iff_example = matches_iff (λ a b. a == b) order_matcher order_event

abbrev old_subscriber : InMemorySubscriber ℕ
old_subscriber = record { filter = λ e. false; queue = order_message ∷ [] }

delivered_example :
    let after =
      publish_all
        (order_message ∷ order_message ∷ [])
        (subscribe (λ e. true) (old_subscriber ∷ [])).1 in
    (get_elem? after (subscribe (λ e. true) (old_subscriber ∷ [])).0
      ≡ some (record { filter = λ e. true; queue = order_message ∷ order_message ∷ [] }))
    × (get_elem? after 0 ≡ some old_subscriber)
delivered_example =
    delivered (λ e. true) (old_subscriber ∷ []) (order_message ∷ order_message ∷ []) 0
      old_subscriber refl

-- ===== src/Events/CloudEvent.antt =====
-- The two shapes of an event: `CloudEvent` of crates/ows-runtime-events/src/lib.rs and
-- `EventMessage` of crates/ows-runtime-core/src/service.rs, and the conversions between them. The
-- extensions of both are maps, read and written by key.
use ows_runtime_rust.Prelude.{String, Option, none, ◌≡◌, refl}
use ows_runtime_rust.Json.{Value, Fields, end}

abbrev pub cloudevents_spec_version : String
cloudevents_spec_version = "1.0"

pub record CloudEvent (N : Type 0) : Type 0 where
  pub id : String
  pub source : String
  pub type_ : String
  pub specversion : String
  pub time : Option String
  pub subject : Option String
  pub data_content_type : Option String
  pub data_schema : Option String
  pub data_ : Option (Value N)
  pub extensions : Fields N

pub record EventMessage (N : Type 0) : Type 0 where
  pub id : String
  pub source : String
  pub type_ : String
  pub time : Option String
  pub subject : Option String
  pub data_content_type : Option String
  pub data_schema : Option String
  pub data_ : Option (Value N)
  pub extensions : Fields N

module _ {N : Type 0} where
  -- `EventMessage::new`
  unfoldable pub message_new : String → String → String → EventMessage N
  message_new id source type_ = record {
    id = id;
    source = source;
    type_ = type_;
    time = none;
    subject = none;
    data_content_type = none;
    data_schema = none;
    data_ = none;
    extensions = end;
  }

  -- `CloudEvent::new`
  unfoldable pub event_new : String → String → String → CloudEvent N
  event_new id source type_ = record {
    id = id;
    source = source;
    type_ = type_;
    specversion = cloudevents_spec_version;
    time = none;
    subject = none;
    data_content_type = none;
    data_schema = none;
    data_ = none;
    extensions = end;
  }

  unfoldable pub to_message : CloudEvent N → EventMessage N
  unfolding message_new
  to_message e = record (message_new e.id e.source e.type_) {
    time = e.time;
    subject = e.subject;
    data_content_type = e.data_content_type;
    data_schema = e.data_schema;
    data_ = e.data_;
    extensions = e.extensions;
  }

  unfoldable pub from_message : EventMessage N → CloudEvent N
  from_message msg = record {
    id = msg.id;
    source = msg.source;
    type_ = msg.type_;
    specversion = cloudevents_spec_version;
    time = msg.time;
    subject = msg.subject;
    data_content_type = msg.data_content_type;
    data_schema = msg.data_schema;
    data_ = msg.data_;
    extensions = msg.extensions;
  }

  -- A message survives its trip through the CloudEvents shape, and an event of the runtime's
  -- version its trip through the message; an event of another version comes back with the
  -- runtime's.
  pub message_round_trip :
      (msg : EventMessage N) (e : CloudEvent N)
      → (to_message (from_message msg) ≡ msg)
        × (from_message (to_message e) ≡ record e { specversion = cloudevents_spec_version })
  unfolding to_message from_message message_new
  message_round_trip msg e = (refl, refl)

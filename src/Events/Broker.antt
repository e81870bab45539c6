-- ===== src/Events/Broker.antt =====
-- `InMemoryBroker` of crates/ows-runtime-events/src/lib.rs: its subscribers, each with the queue of
-- its unbounded channel. A publication goes through the subscribers under their lock, so it is one
-- step. What a receiver takes from the channel is left to the channel. A subscription is named by its place in the list, which only grows.
use ows_runtime_rust.Prelude.{ℕ, Bool, List, [], ◌∷◌, length, if◌then◌else◌, push}
use ows_runtime_rust.Events.CloudEvent.{EventMessage}

module _ (N : Type 0) where
  pub record InMemorySubscriber : Type 0 where
    pub filter : EventMessage N → Bool
    pub queue : List (EventMessage N)

module _ {N : Type 0} where
  -- `tx.send` where the filter accepts
  unfoldable pub deliver : EventMessage N → InMemorySubscriber N → InMemorySubscriber N
  deliver event sub = if sub.filter event then record sub { queue = push sub.queue event } else sub

  unfoldable pub publish :
      EventMessage N → List (InMemorySubscriber N) → List (InMemorySubscriber N)
  unfolding deliver
  publish event [] = []
  publish event (sub ∷ rest) = deliver event sub ∷ publish event rest

  -- the new subscription stands last; its place is the result
  unfoldable pub subscribe :
      (EventMessage N → Bool) → List (InMemorySubscriber N) → ℕ × List (InMemorySubscriber N)
  subscribe filter subs = (length subs, push subs (record { filter = filter; queue = [] }))

  unfoldable pub publish_all :
      List (EventMessage N) → List (InMemorySubscriber N) → List (InMemorySubscriber N)
  unfolding publish
  publish_all [] subs = subs
  publish_all (e ∷ es) subs = publish_all es (publish e subs)

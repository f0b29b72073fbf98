-- ===== src/Libevent.antt =====
-- The calls of libevent that can fail, by their socket and events.
use mini_pubsub_broker.Base.{ℕ, Bool}
use mini_pubsub_broker.Client.{Events}

pub record Libevent : Type 0 where
  -- Whether `event_new` returns an event.
  pub event_new : ℕ → Events → Bool
  -- Whether `event_add` returns 0.
  pub event_add : ℕ → Events → Bool

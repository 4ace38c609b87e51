-- ===== src/Ingest/Subscriber/Waking.antt =====
-- What wakes the polling loop when it waits for capacity.
use junando.Common.{ℕ, ◌≤◌}
use junando.Ingest.Subscriber.{
  SubscriberConfig, Loop, at_top, receiving, waiting, ended, Subscriber,
}

-- A loop that waits has all the messages in flight that it may have.
abbrev IsFull : SubscriberConfig → Loop → ℕ → Type 0
IsFull config waiting n = config.max_in_flight ≤ n
IsFull config at_top n = Unit
IsFull config (receiving k) n = Unit
IsFull config ended n = Unit

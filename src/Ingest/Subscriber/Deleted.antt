-- ===== src/Ingest/Subscriber/Deleted.antt =====
-- Which messages the subscriber deletes from the queue.
use junando.Common.{true, some, List, ◌≡◌}
use junando.Common.Lists.{All, Any}
use junando.Ingest.Subscriber.{Message, Task, Subscriber}

-- The message is on the list.
abbrev pub IsIn : List Message → Message → Type 0
IsIn ms m = Any (λ x. x ≡ m) ms

-- A task that is settled with success has a message that was processed.
abbrev IsEarned : List Message → Task → Type 0
IsEarned ms task = task.outcome ≡ some true → IsIn ms task.message

record IsSound (s : Subscriber) : Type 0 where
  tasks : All (All (IsEarned s.succeeded)) s.pending_batches
  deletions : All (IsIn s.succeeded) s.deleted

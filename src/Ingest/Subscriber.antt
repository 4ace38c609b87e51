-- ===== src/Ingest/Subscriber.antt =====
-- packages/ingest/src/polling/sqs-subscriber.ts: the polling loop, the batches that run beside it, and the
-- stop. Each constructor of `Step` is what happens between two waits; they come in any order.
pub mod Capacity
pub mod Deleted
pub mod Waking
use junando.Common.{
  ℕ, suc, ◌+◌, ◌-◌, ◌≤◌, String, Bool, true, false, Option, none, some, List, [], ◌∷◌, ◌++◌, map,
  min, ◌≡◌, ltb, leb, if◌then◌else◌,
}
use junando.Common.Lists.{length, All}

-- `Message` of the queue.
pub record Message : Type 0 where
  pub message_id : Option String
  pub receipt_handle : Option String
  pub body : String

-- The part of `SqsIngestConfig` that the loop reads.
pub record SubscriberConfig : Type 0 where
  pub max_in_flight : ℕ
  pub batch_size : ℕ

-- A promise of `processSingleMessage`: it runs, or it is settled with its success.
pub record Task : Type 0 where
  pub message : Message
  pub outcome : Option Bool

abbrev pub Batch : Type 0
Batch = List Task

-- Where the loop is.
pub data Loop : Type 0 where
  at_top : Loop
  receiving : ℕ → Loop
  waiting : Loop
  ended : Loop

-- The subscriber. `in_flight` is the size of the set, `succeeded` lists the messages whose processing
-- resolved, and `deleted` those that were deleted from the queue.
pub record Subscriber : Type 0 where
  pub loop : Loop
  pub stopping : Bool
  pub in_flight : ℕ
  pub pending_batches : List Batch
  pub succeeded : List Message
  pub deleted : List Message

-- `start()` on a new subscriber.
unfoldable pub started : Subscriber
started = record {
  loop = at_top;
  stopping = false;
  in_flight = 0;
  pending_batches = [];
  succeeded = [];
  deleted = [];
}

-- One turn of `runLoop` up to its next wait.
unfoldable pub run_loop : SubscriberConfig → Subscriber → Subscriber
run_loop config s =
    let available_capacity = config.max_in_flight - s.in_flight in
    if s.stopping
    then record s { loop = ended }
    else if leb config.max_in_flight s.in_flight
    then record s { loop = waiting }
    else record s { loop = receiving (min (min config.batch_size available_capacity) 10) }

new_task : Message → Task
new_task message = record { message = message; outcome = none }

-- `pollOnce` behind a reply: the messages start together as a batch.
unfoldable pub received : List Message → Subscriber → Subscriber
unfolding new_task
received [] s = record s { loop = at_top }
received (m ∷ ms) s = record s {
  loop = at_top;
  in_flight = length (m ∷ ms) + s.in_flight;
  pending_batches = s.pending_batches ++ map new_task (m ∷ ms) ∷ [];
}

-- `pollOnce` behind an error, an abort included.
unfoldable pub receive_failed : Subscriber → Subscriber
receive_failed s = record s { loop = at_top }

-- `releaseCapacityWaiters`
unfoldable pub released : Loop → Loop
released waiting = at_top
released loop = loop

-- What the processing of a message and its indexing, where there is an indexer, end with.
pub data ProcessReply : Type 0 where
  processed : Bool → ProcessReply
  process_failed : ProcessReply

-- `processSingleMessage`: what indexing throws does not count.
unfoldable pub process_single_message : ProcessReply → Bool
process_single_message (processed was_indexed) = true
process_single_message process_failed = false

succeeded_with : Bool → Message → List Message → List Message
succeeded_with true m ms = m ∷ ms
succeeded_with false m ms = ms

-- A task of a batch settles.
unfoldable pub settled :
    List Batch
    → List Task
    → Message
    → List Task
    → List Batch
    → ProcessReply
    → Subscriber
    → Subscriber
unfolding released process_single_message succeeded_with
settled before earlier m later after reply s =
    let success = process_single_message reply in
    record s {
      loop = released s.loop;
      in_flight = s.in_flight - 1;
      pending_batches =
          before ++ (earlier ++ record { message = m; outcome = some success } ∷ later) ∷ after;
      succeeded = succeeded_with success m s.succeeded;
    }

-- The task is settled.
abbrev pub IsSettled : Task → Type 0
IsSettled task = (b : Bool) × (task.outcome ≡ some b)

message_if : Option Bool → Message → List Message
message_if (some true) m = m ∷ []
message_if _ m = []

unfoldable pub successful_messages : Batch → List Message
unfolding message_if
successful_messages [] = []
successful_messages (task ∷ tasks) =
    message_if task.outcome task.message ++ successful_messages tasks

-- The end of `processBatch`; `did_delete` says whether the queue's deletion resolved. With no success
-- there is nothing to delete.
unfoldable pub batch_done : List Batch → Batch → List Batch → Bool → Subscriber → Subscriber
unfolding successful_messages released
batch_done before batch after did_delete s = record s {
  loop = released s.loop;
  pending_batches = before ++ after;
  deleted = (if did_delete then successful_messages batch else []) ++ s.deleted;
}

-- `stop()`: the abort of a request that runs comes back as its error.
unfoldable pub stop : Subscriber → Subscriber
unfolding released
stop s = record s { stopping = true; loop = released s.loop }

-- What may happen next. The queue returns at most as many messages as were asked for.
pub data Step (config : SubscriberConfig) (s : Subscriber) : Subscriber → Type 0 where
  turns : s.loop ≡ at_top → (t : Subscriber) → t ≡ run_loop config s → Step config s t
  receives :
      (n : ℕ) (ms : List Message)
      → s.loop ≡ receiving n
      → length ms ≤ n
      → (t : Subscriber) → t ≡ received ms s
      → Step config s t
  fails : (n : ℕ) → s.loop ≡ receiving n → (t : Subscriber) → t ≡ receive_failed s → Step config s t
  settles :
      (before : List Batch) (earlier : List Task) (m : Message) (later : List Task)
      (after : List Batch) (reply : ProcessReply)
      → s.pending_batches
        ≡ before ++ (earlier ++ record { message = m; outcome = none } ∷ later) ∷ after
      → (t : Subscriber) → t ≡ settled before earlier m later after reply s
      → Step config s t
  finishes :
      (before : List Batch) (batch : Batch) (after : List Batch) (did_delete : Bool)
      → s.pending_batches ≡ before ++ batch ∷ after
      → All IsSettled batch
      → (t : Subscriber) → t ≡ batch_done before batch after did_delete s
      → Step config s t
  stops : (t : Subscriber) → t ≡ stop s → Step config s t

-- What a started subscriber comes to.
pub data Reachable (config : SubscriberConfig) : Subscriber → Type 0 where
  starts : (s : Subscriber) → s ≡ started → Reachable config s
  goes_on : (s t : Subscriber) → Reachable config s → Step config s t → Reachable config t

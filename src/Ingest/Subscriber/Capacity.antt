-- ===== src/Ingest/Subscriber/Capacity.antt =====
-- How many messages the subscriber has in flight, in every order of events.
use mathlib.Core.Path.{subst}
use junando.Common.{
  ℕ, ◌+◌, ◌≤◌, Bool, Option, none, some, List, [], ◌∷◌, ◌++◌, map, ◌≡◌, refl, ap, arith, leb,
  Bool-cases, inl, inr,
}
use junando.Common.Lists.{length, All}
use junando.Ingest.Subscriber.{
  Message, SubscriberConfig, Task, Batch, Loop, at_top, receiving, waiting, ended, Subscriber,
  started, run_loop, new_task, received, receive_failed, released, ProcessReply,
  process_single_message, settled, IsSettled, batch_done, stop, Step, turns, receives, fails,
  settles, finishes, stops, Reachable, starts, goes_on,
}

-- The tasks of a batch that still run.
abbrev pub running : Option Bool → ℕ
running none = 1
running (some b) = 0

abbrev pub running_tasks : List Task → ℕ
running_tasks [] = 0
running_tasks (task ∷ tasks) = running task.outcome + running_tasks tasks

abbrev pub running_batches : List Batch → ℕ
running_batches [] = 0
running_batches (batch ∷ batches) = running_tasks batch + running_batches batches

-- What the loop has asked the queue for.
abbrev pub asked : Loop → ℕ
asked (receiving n) = n
asked _ = 0

pub record IsWithin (config : SubscriberConfig) (s : Subscriber) : Type 0 where
  pub counted : s.in_flight ≡ running_batches s.pending_batches
  pub capacity : s.in_flight + asked s.loop ≤ config.max_in_flight
  pub request : asked s.loop ≤ 10

running_tasks-append :
    (xs ys : List Task) → running_tasks (xs ++ ys) ≡ running_tasks xs + running_tasks ys
running_tasks-append [] ys = omega arith
running_tasks-append (x ∷ xs) ys = omega (arith, running_tasks-append xs ys)

running_batches-append :
    (xs ys : List Batch) → running_batches (xs ++ ys) ≡ running_batches xs + running_batches ys
running_batches-append [] ys = omega arith
running_batches-append (x ∷ xs) ys = omega (arith, running_batches-append xs ys)

running_tasks-new : (ms : List Message) → running_tasks (map new_task ms) ≡ length ms
unfolding new_task
running_tasks-new [] = refl
running_tasks-new (m ∷ ms) = omega (arith, running_tasks-new ms)

running_tasks-settled : (tasks : List Task) → All IsSettled tasks → running_tasks tasks ≡ 0
running_tasks-settled [] h = refl
running_tasks-settled (task ∷ tasks) ((b, e), h) =
    rw e (omega (arith, running_tasks-settled tasks h))

asked-released : (loop : Loop) → asked (released loop) ≡ asked loop
unfolding released
asked-released at_top = refl
asked-released (receiving n) = refl
asked-released waiting = refl
asked-released ended = refl

module _ (config : SubscriberConfig) (s : Subscriber) (h : IsWithin config s) where
  run_loop-IsWithin : s.loop ≡ at_top → IsWithin config (run_loop config s)
  unfolding run_loop
  run_loop-IsWithin top = elim (Bool-cases s.stopping) [
    | inl stopped ↦ simp stopped (record {
      counted = h.counted;
      capacity = omega (arith, h.capacity);
      request = omega arith;
    })
    | inr runs ↦ elim (Bool-cases (leb config.max_in_flight s.in_flight)) [
      | inl full ↦
          simp (runs, full)
            (record {
              counted = h.counted;
              capacity = omega (arith, h.capacity);
              request = omega arith;
            })
      | inr room ↦
          simp (runs, room)
            (record { counted = h.counted; capacity = ground arith; request = omega arith })
    ]
  ]

  received-IsWithin :
      (n : ℕ) (ms : List Message)
      → s.loop ≡ receiving n
      → length ms ≤ n
      → IsWithin config (received ms s)
  unfolding received
  received-IsWithin n [] at few = record {
    counted = h.counted;
    capacity = omega (arith, h.capacity);
    request = omega arith;
  }
  received-IsWithin n (m ∷ ms) at few =
      let room : s.in_flight + n ≤ config.max_in_flight =
        subst (λ l. s.in_flight + asked l ≤ config.max_in_flight) at h.capacity in
      record {
        counted = omega (
          arith,
          h.counted,
          running_batches-append s.pending_batches (map new_task (m ∷ ms) ∷ []),
          running_tasks-new (m ∷ ms),
        );
        capacity = omega (arith, room, few);
        request = omega arith;
      }

  receive_failed-IsWithin : IsWithin config (receive_failed s)
  unfolding receive_failed
  receive_failed-IsWithin = record {
    counted = h.counted;
    capacity = omega (arith, h.capacity);
    request = omega arith;
  }

  settled-IsWithin :
      (before : List Batch) (earlier : List Task) (m : Message) (later : List Task)
      (after : List Batch) (reply : ProcessReply)
      → s.pending_batches
        ≡ before ++ (earlier ++ record { message = m; outcome = none } ∷ later) ∷ after
      → IsWithin config (settled before earlier m later after reply s)
  unfolding settled
  settled-IsWithin before earlier m later after reply at =
      let task : Option Bool → Task = λ o. record { message = m; outcome = o } in
      let done = some (process_single_message reply) in
      record {
        counted = omega (
          arith,
          h.counted,
          ap running_batches at,
          running_batches-append before ((earlier ++ task none ∷ later) ∷ after),
          running_batches-append before ((earlier ++ task done ∷ later) ∷ after),
          running_tasks-append earlier (task none ∷ later),
          running_tasks-append earlier (task done ∷ later),
        );
        capacity = omega (arith, h.capacity, asked-released s.loop);
        request = omega (arith, h.request, asked-released s.loop);
      }

  batch_done-IsWithin :
      (before : List Batch) (batch : Batch) (after : List Batch) (did_delete : Bool)
      → s.pending_batches ≡ before ++ batch ∷ after
      → All IsSettled batch
      → IsWithin config (batch_done before batch after did_delete s)
  unfolding batch_done
  batch_done-IsWithin before batch after did_delete at done = record {
    counted = omega (
      arith,
      h.counted,
      ap running_batches at,
      running_batches-append before (batch ∷ after),
      running_batches-append before after,
      running_tasks-settled batch done,
    );
    capacity = omega (arith, h.capacity, asked-released s.loop);
    request = omega (arith, h.request, asked-released s.loop);
  }

  stop-IsWithin : IsWithin config (stop s)
  unfolding stop
  stop-IsWithin = record {
    counted = h.counted;
    capacity = omega (arith, h.capacity, asked-released s.loop);
    request = omega (arith, h.request, asked-released s.loop);
  }

  Step-IsWithin : (t : Subscriber) → Step config s t → IsWithin config t
  Step-IsWithin t (turns at _ e) = rw e (run_loop-IsWithin at)
  Step-IsWithin t (receives n ms at few _ e) = rw e (received-IsWithin n ms at few)
  Step-IsWithin t (fails n at _ e) = rw e receive_failed-IsWithin
  Step-IsWithin t (settles before earlier m later after reply at _ e) =
      rw e (settled-IsWithin before earlier m later after reply at)
  Step-IsWithin t (finishes before batch after did_delete at done _ e) =
      rw e (batch_done-IsWithin before batch after did_delete at done)
  Step-IsWithin t (stops _ e) = rw e stop-IsWithin

-- In every order of replies, settlements and stops, the size of the set is the number of the messages
-- that are being processed; together with the messages that the loop has asked for it is at most the
-- configured bound; and the loop asks for at most ten messages at a time.
pub Reachable-IsWithin :
    (config : SubscriberConfig) (s : Subscriber) → Reachable config s → IsWithin config s
unfolding started
Reachable-IsWithin config s (starts _ e) =
    rw e (record { counted = refl; capacity = omega arith; request = omega arith })
Reachable-IsWithin config t (goes_on s _ r step) =
    Step-IsWithin config s (Reachable-IsWithin config s r) t step

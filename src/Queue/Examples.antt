-- ===== src/Queue/Examples.antt =====
-- The laws of the queue, at queues with a few jobs.
use chronos_dev.Common.{
  ℕ, pos, String, List, [], ◌∷◌, ◌≡◌, refl, Perm, false, inl, none, some, arith, canceled,
}
use chronos_dev.Domain.Job.{QueuedJob}
use chronos_dev.Queue.{Queue, took, new, take_next, settle}
use chronos_dev.Queue.Order.{IsSorted}
use chronos_dev.Queue.Calls.{Call, enqueues, delays, ticks, takes, settles, run, run-new-IsSorted}
use chronos_dev.Queue.Delivery.{IsStamped, settle-take_next}

abbrev message_for : String → ℕ → ℕ → QueuedJob
message_for id priority at_ = record {
  job_id = id;
  execution_id = "";
  name = "n";
  job_type = "builtin";
  payload = "{}";
  priority = pos priority;
  attempt = pos 0;
  timeout = pos 0;
  enqueued_at = pos at_;
  trace_id = "";
}

abbrev two_ready : Queue
two_ready = record {
  items = message_for "a" 9 5 ∷ message_for "b" 3 1 ∷ [];
  closed = false;
  delayed =
      record { job = message_for "c" 5 1; available = pos 7 }
      ∷ record { job = message_for "d" 5 2; available = pos 70 }
      ∷ [];
}

two_ready-IsSorted : IsSorted two_ready.items
two_ready-IsSorted = ((inl (omega arith), tt), (tt, tt))

abbrev calls : List Call
calls =
    enqueues (pos 1) (message_for "a" 3 0)
    ∷ delays (pos 2) (message_for "b" 5 2) (pos 3)
    ∷ enqueues (pos 3) (message_for "c" 9 0)
    ∷ ticks (pos 6)
    ∷ takes
    ∷ settles (pos 7) (message_for "c" 9 3) (some canceled)
    ∷ []

run-new-IsSorted_example : IsSorted (run new calls).items
run-new-IsSorted_example = run-new-IsSorted calls

takes_a :
    take_next two_ready
    ≡ took (message_for "a" 9 5) (record two_ready { items = message_for "b" 3 1 ∷ [] })
unfolding take_next
takes_a = refl

settle-take_next_example :
    let rest : Queue = record two_ready { items = message_for "b" 3 1 ∷ [] } in
    let done = settle (pos 9) (message_for "a" 9 5) none rest in
    let failed = settle (pos 9) (message_for "a" 9 5) (some canceled) rest in
    (message_for "a" 9 5 ∷ done.items ≡ two_ready.items)
    × (done.delayed ≡ two_ready.delayed)
    × ((stamped : QueuedJob) × IsStamped (pos 9) (message_for "a" 9 5) stamped
        × Perm failed.items (stamped ∷ done.items)
        × (failed.delayed ≡ two_ready.delayed))
settle-take_next_example =
    settle-take_next (pos 9) two_ready (record two_ready { items = message_for "b" 3 1 ∷ [] })
      (message_for "a" 9 5) canceled takes_a

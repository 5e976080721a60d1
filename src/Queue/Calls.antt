-- ===== src/Queue/Calls.antt =====
-- Every sequence of calls leaves the ready items in order.
use chronos_dev.Common.{List, [], ◌∷◌, arith, Option, none, some, after, Error}
use chronos_dev.Domain.Job.{QueuedJob, Instant, Duration}
use chronos_dev.Queue.{
  Queue, DelayedItem, Taken, stopped, waiting, took, new, insert_locked, enqueue, enqueue_delay,
  release_loop, release_delayed, take_next, settle, close, stamp,
}
use chronos_dev.Queue.Order.{IsSorted, insert_locked-place, place-IsSorted}

-- The calls that reach a queue: those of its clients, a tick of the delay loop, and the two ends of
-- a round of the consumer.
pub data Call : Type 0 where
  enqueues : Instant → QueuedJob → Call
  delays : Instant → QueuedJob → Duration → Call
  ticks : Instant → Call
  takes : Call
  settles : Instant → QueuedJob → Option Error → Call
  closes : Call

abbrev after_take : Queue → Taken → Queue
after_take q stopped = q
after_take q waiting = q
after_take q (took job rest) = rest

pub step : Queue → Call → Queue
step q (enqueues now job) = after q (enqueue now job q)
step q (delays now job d) = after q (enqueue_delay now job d q)
step q (ticks now) = release_delayed now q
step q takes = after_take q (take_next q)
step q (settles now job e) = settle now job e q
step q closes = close q

pub run : Queue → List Call → Queue
run q [] = q
run q (c ∷ cs) = run (step q c) cs

insert_locked-IsSorted :
    (job : QueuedJob) (q : Queue) → IsSorted q.items → IsSorted (insert_locked job q).items
insert_locked-IsSorted job q s = rw (insert_locked-place job q) (place-IsSorted job q.items s)

enqueue-IsSorted :
    (now : Instant) (job : QueuedJob) (q : Queue)
    → IsSorted q.items
    → IsSorted (after q (enqueue now job q)).items
unfolding enqueue
enqueue-IsSorted now job q s = ground (arith, insert_locked-IsSorted (stamp now job) q s)

delay-IsSorted :
    (now : Instant) (job : QueuedJob) (d : Duration) (q : Queue)
    → IsSorted q.items
    → IsSorted (after q (enqueue_delay now job d q)).items
unfolding enqueue_delay
delay-IsSorted now job d q s = ground (arith, insert_locked-IsSorted job q s)

release_loop-IsSorted :
    (now : Instant) (ds rs : List DelayedItem) (q : Queue)
    → IsSorted q.items
    → IsSorted (release_loop now ds rs q).items
unfolding release_loop
release_loop-IsSorted now [] rs q s = s
release_loop-IsSorted now (d ∷ ds) rs q s =
    release_loop-IsSorted now ds _ _ (ground (arith, insert_locked-IsSorted d.job q s))

take-IsSorted : (q : Queue) → IsSorted q.items → IsSorted (after_take q (take_next q)).items
unfolding take_next
take-IsSorted q s = ground arith

settle-IsSorted :
    (now : Instant) (job : QueuedJob) (e : Option Error) (q : Queue)
    → IsSorted q.items
    → IsSorted (settle now job e q).items
unfolding settle
settle-IsSorted now job none q s = s
settle-IsSorted now job (some e) q s = enqueue-IsSorted now job q s

pub step-IsSorted : (q : Queue) (c : Call) → IsSorted q.items → IsSorted (step q c).items
unfolding step release_delayed close
step-IsSorted q (enqueues now job) s = enqueue-IsSorted now job q s
step-IsSorted q (delays now job d) s = delay-IsSorted now job d q s
step-IsSorted q (ticks now) s = ground (arith, release_loop-IsSorted now q.delayed [] q s)
step-IsSorted q takes s = take-IsSorted q s
step-IsSorted q (settles now job e) s = settle-IsSorted now job e q s
step-IsSorted q closes s = s

run-IsSorted : (q : Queue) (cs : List Call) → IsSorted q.items → IsSorted (run q cs).items
unfolding run
run-IsSorted q [] s = s
run-IsSorted q (c ∷ cs) s = run-IsSorted (step q c) cs (step-IsSorted q c s)

-- After any sequence of calls to a new queue its ready items stand in order: a higher priority first,
-- and at one priority an earlier time of enqueueing first.
pub run-new-IsSorted : (cs : List Call) → IsSorted (run new cs).items
unfolding new
run-new-IsSorted cs = run-IsSorted new cs tt

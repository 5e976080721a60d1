-- ===== src/Queue.antt =====
-- internal/queue/memory/memory.go: the in-process priority queue. An operation is one critical
-- section of the queue's mutex; the condition variable, by which a consumer waits, is a step that
-- finds no item. The clock is an argument.
pub mod Order
pub mod Calls
pub mod Delivery
mod Examples
use chronos_dev.Common.{
  ℕ, zero, suc, ℤ, pos, Bool, true, false, ◌&&◌, List, [], ◌∷◌, ◌++◌, take, drop, ltb_ℤ, leb_ℤ,
  eqb_ℤ, if◌then◌else◌, Option, none, some, Result, ok, err, canceled, Error, after, ◌+ℤ◌,
}
use chronos_dev.Domain.Job.{QueuedJob, Instant, Duration, zero_time}

pub record DelayedItem : Type 0 where
  pub job : QueuedJob
  pub available : Instant

pub record Queue : Type 0 where
  pub items : List QueuedJob
  pub closed : Bool
  pub delayed : List DelayedItem

unfoldable pub new : Queue
new = record { items = []; closed = false; delayed = [] }

-- The test at which the search for a place stops: a lower priority, or the same and a later time.
unfoldable pub goes_before : QueuedJob → QueuedJob → Bool
goes_before job x =
    if ltb_ℤ x.priority job.priority
    then true
    else eqb_ℤ job.priority x.priority && ltb_ℤ job.enqueued_at x.enqueued_at

-- The loop of `insertLocked`: the index of the first item that the job goes before.
unfoldable pub position : QueuedJob → List QueuedJob → ℕ
position job [] = 0
position job (x ∷ xs) = let rest = suc (position job xs) in if goes_before job x then 0 else rest

unfoldable pub insert_locked : QueuedJob → Queue → Queue
insert_locked job q =
    let i = position job q.items in record q { items = take i q.items ++ (job ∷ drop i q.items) }

abbrev stamp : Instant → QueuedJob → QueuedJob
stamp now job = if eqb_ℤ job.enqueued_at zero_time then record job { enqueued_at = now } else job

unfoldable pub enqueue : Instant → QueuedJob → Queue → Result Queue
enqueue now job q = if q.closed then err canceled else ok (insert_locked (stamp now job) q)

unfoldable pub enqueue_delay : Instant → QueuedJob → Duration → Queue → Result Queue
enqueue_delay now job delay q =
    if q.closed
    then err canceled
    else if leb_ℤ delay (pos 0)
    then ok (insert_locked job q)
    else ok
        (record q { delayed = q.delayed ++ (record { job = job; available = now +ℤ delay } ∷ []) })

-- !d.available.After(now)
abbrev pub is_due : Instant → DelayedItem → Bool
is_due now d = leb_ℤ d.available now

-- The loop over the delayed items; it collects those that stay in `remaining`.
unfoldable pub release_loop : Instant → List DelayedItem → List DelayedItem → Queue → Queue
release_loop now [] remaining q = record q { delayed = remaining }
release_loop now (d ∷ ds) remaining q =
    release_loop now ds (if is_due now d then remaining else remaining ++ (d ∷ []))
      (if is_due now d then insert_locked d.job q else q)

-- One tick of `releaseDelayed`.
unfoldable pub release_delayed : Instant → Queue → Queue
release_delayed now q = if q.closed then q else release_loop now q.delayed [] q

-- What a consumer finds: it ends, it waits, or it has a job to handle.
pub data Taken : Type 0 where
  stopped waiting : Taken
  took : QueuedJob → Queue → Taken

take_items : Queue → List QueuedJob → Taken
take_items q [] = waiting
take_items q (job ∷ rest) = took job (record q { items = rest })

unfoldable pub take_next : Queue → Taken
unfolding take_items
take_next q = if q.closed then stopped else take_items q q.items

-- After the handler: a job whose handler failed goes back, and the error of that is dropped.
unfoldable pub settle : Instant → QueuedJob → Option Error → Queue → Queue
settle now job none q = q
settle now job (some e) q = after q (enqueue now job q)

unfoldable pub close : Queue → Queue
close q = record q { closed = true }

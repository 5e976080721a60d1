-- ===== src/Scheduler/Requests.antt =====
-- How a request to cancel a job reaches the worker that has it.
use chronos_dev.Common.{
  ℤ, String, true, false, List, [], ◌∷◌, ◌++◌, Option, none, some, ◌≡◌, ◌≢◌, refl, lookup,
  lookup-insert, lookup-delete, eq_iff, eq_refl, arith, Bool-cases, inl, inr, Map, ne_false,
}
use chronos_dev.Domain.Job.{Job}
use chronos_dev.Store.Jobs.{get_job}
use chronos_dev.Scheduler.State.{
  Service, Env, has, set_add, set_remove, or_empty, add_pending_cancel, push_cancel, send, keep_set,
  clear_set, clear_pending_cancel,
}
use chronos_dev.Scheduler.Cancel.{ask_cancel, request_of, request_cancel}
use chronos_dev.Scheduler.Fleet.{heartbeat}

-- The jobs that a worker is still to be asked to cancel.
abbrev pub pending_of : String → Service → List String
pending_of worker_id s = or_empty (lookup worker_id s.pending_cancels)

has-append_self : (x : String) (xs : List String) → has x (xs ++ (x ∷ [])) ≡ true
unfolding has
has-append_self x [] = ground (arith, eq_iff x x)
has-append_self x (y ∷ ys) = ground (arith, has-append_self x ys)

has-set_add : (x : String) (xs : List String) → has x (set_add x xs) ≡ true
has-set_add x xs = elim (Bool-cases (has x xs)) [
  | inl e ↦ rw e e
  | inr e ↦ rw e (has-append_self x xs)
]

has-set_remove : (x : String) (xs : List String) → has x (set_remove x xs) ≡ false
unfolding has
has-set_remove x [] = refl
has-set_remove x (y ∷ ys) = ground (arith, has-set_remove x ys)

push_cancel-pending :
    (w id ex : String) (s : Service) → (push_cancel w id ex s).pending_cancels ≡ s.pending_cancels
unfolding push_cancel send
push_cancel-pending w id ex s = ground arith

ask_cancel-pending :
    (id : String) (j : Job) (s : Service)
    → has id (pending_of j.worker_id (ask_cancel id j s)) ≡ true
unfolding ask_cancel add_pending_cancel
ask_cancel-pending id j s =
    rw
      (
        push_cancel-pending j.worker_id id j.execution_id (add_pending_cancel j.worker_id id s),
        lookup-insert,
        eq_refl j.worker_id,
      )
      (has-set_add id (pending_of j.worker_id s))

-- A request to cancel a job that a worker has is answered without error, and the worker's next heartbeat
-- is told to cancel the job, whether or not it could be asked at once.
pub request_cancel-heartbeat :
    (env : Env) (id : String) (active capacity : ℤ) (s : Service) (j : Job)
    → lookup id s.store.jobs ≡ some j
    → j.worker_id ≢ ""
    → ((request_cancel id s).1 ≡ none)
      × (has id (heartbeat env j.worker_id active capacity (request_cancel id s).0).1 ≡ true)
unfolding request_cancel request_of get_job heartbeat
request_cancel-heartbeat env id active capacity s j h placed =
    rw (h, ne_false j.worker_id "" placed) (refl, ask_cancel-pending id j s)

has-keep_set :
    (w x : String) (xs : List String) (m : Map (List String))
    → has x xs ≡ false
    → has x (or_empty (lookup w (keep_set w xs m))) ≡ false
unfolding keep_set has
has-keep_set w x [] m h = rw (lookup-delete, eq_refl w) refl
has-keep_set w x (y ∷ ys) m h = rw (lookup-insert, eq_refl w) h

-- Once a request is cleared, as every result for the job does first, the worker is told no more to
-- cancel it.
pub clear_pending_cancel-heartbeat :
    (env : Env) (worker_id job_id : String) (active capacity : ℤ) (s : Service)
    → has job_id
        (heartbeat env worker_id active capacity (clear_pending_cancel worker_id job_id s)).1
      ≡ false
unfolding clear_pending_cancel heartbeat
clear_pending_cancel-heartbeat env worker_id job_id active capacity s =
    cleared (lookup worker_id s.pending_cancels) refl
  where
    cleared :
        (o : Option (List String))
        → lookup worker_id s.pending_cancels ≡ o
        → has job_id (or_empty (lookup worker_id (clear_set worker_id job_id o s.pending_cancels)))
          ≡ false
    cleared none e = unfold clear_set has in rw e refl
    cleared (some xs) e =
        unfold clear_set in
        has-keep_set worker_id job_id _ s.pending_cancels (has-set_remove job_id xs)

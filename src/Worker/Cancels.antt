-- ===== src/Worker/Cancels.antt =====
-- Which runs a cancellation reaches.
use chronos_dev.Common.{
  ℕ, ℤ, String, Bool, true, false, ◌||◌, List, [], ◌∷◌, Option, none, some, ◌≡◌, ◌≢◌, refl, ◌∙◌, ap,
  subst, lookup, lookup-insert, lookup-delete, eq_refl, eq_iff, ◌==◌, Bool-cases, inl, inr, arith,
  eqb,
}
use chronos_dev.Domain.Job.{Job}
use chronos_dev.Worker.{
  ExecuteJobRequest, Node, register_cancel, remove_cancel, call_cancel, cancel_at, cancel_local,
  cancel_job_call, cancel_each,
}
use chronos_dev.Worker.Threads.{counted, reported, advance}
use chronos_dev.Scheduler.State.{Service, Env, has}
use chronos_dev.Scheduler.Cancel.{request_cancel}
use chronos_dev.Scheduler.Fleet.{heartbeat}
use chronos_dev.Scheduler.Requests.{request_cancel-heartbeat}

-- The context that a node would cancel for a job.
abbrev pub context_of : String → Node → Option ℕ
context_of id n = lookup id n.cancels

-- A context's cancel function was called.
unfoldable pub is_over : ℕ → List ℕ → Bool
is_over c [] = false
is_over c (x ∷ xs) = eqb c x || is_over c xs

cancel_local-cancels : (id : String) (n : Node) → (cancel_local id n).cancels ≡ n.cancels
unfolding cancel_local cancel_at call_cancel
cancel_local-cancels id n = ground arith

cancel_at-kept :
    (o : Option ℕ) (n : Node) → ((cancel_at o n).cfg ≡ n.cfg) × ((cancel_at o n).token ≡ n.token)
unfolding cancel_at call_cancel
cancel_at-kept none n = (refl, refl)
cancel_at-kept (some c) n = (refl, refl)

-- A heartbeat's cancellations leave the settings and the token.
pub cancel_each-kept :
    (ids : List String) (n : Node)
    → ((cancel_each ids n).cfg ≡ n.cfg) × ((cancel_each ids n).token ≡ n.token)
unfolding cancel_each cancel_local
cancel_each-kept [] n = (refl, refl)
cancel_each-kept (id ∷ ids) n =
    let rest = cancel_each-kept ids (cancel_local id n) in
    let one = cancel_at-kept (lookup id n.cancels) n in (rest.0 ∙ one.0, rest.1 ∙ one.1)

-- A cancelled context stays so.
cancel_local-is_over :
    (id : String) (n : Node) (c : ℕ)
    → is_over c n.cancelled ≡ true
    → is_over c (cancel_local id n).cancelled ≡ true
unfolding cancel_local cancel_at call_cancel is_over
cancel_local-is_over id n c h = ground arith

cancel_local-hits :
    (id : String) (n : Node) (c : ℕ)
    → context_of id n ≡ some c
    → is_over c (cancel_local id n).cancelled ≡ true
unfolding cancel_local cancel_at call_cancel is_over
cancel_local-hits id n c h = rw h (ground arith)

cancel_each-is_over :
    (ids : List String) (n : Node) (c : ℕ)
    → is_over c n.cancelled ≡ true
    → is_over c (cancel_each ids n).cancelled ≡ true
unfolding cancel_each
cancel_each-is_over [] n c h = h
cancel_each-is_over (id ∷ ids) n c h =
    cancel_each-is_over ids (cancel_local id n) c (cancel_local-is_over id n c h)

pub cancel_each-hits :
    (ids : List String) (n : Node) (id : String) (c : ℕ)
    → has id ids ≡ true
    → context_of id n ≡ some c
    → is_over c (cancel_each ids n).cancelled ≡ true
unfolding cancel_each has
cancel_each-hits [] n id c h at_ = absurd (cc)
cancel_each-hits (x ∷ ids) n id c h at_ = elim (Bool-cases (id == x)) [
  | inl e ↦
      cancel_each-is_over ids (cancel_local x n) c
        (cancel_local-hits x n c (subst (λ k. context_of k n ≡ some c) ((eq_iff id x).0 e) at_))
  | inr e ↦
      cancel_each-hits ids (cancel_local x n) id c (ground (arith, e, h))
        (ap (lookup id) (cancel_local-cancels x n) ∙ at_)
]

-- A request to cancel a job that a worker has reaches its run: after the worker's next heartbeat the context
-- that the node has for the job is cancelled.
pub request_cancel-is_over :
    (env : Env) (id : String) (active capacity : ℤ) (s : Service) (j : Job) (n : Node) (c : ℕ)
    → lookup id s.store.jobs ≡ some j
    → j.worker_id ≢ ""
    → context_of id n ≡ some c
    → let ids = (heartbeat env j.worker_id active capacity (request_cancel id s).0).1 in
      is_over c (cancel_each ids n).cancelled ≡ true
request_cancel-is_over env id active capacity s j n c h placed at_ =
    cancel_each-hits _ n id c (request_cancel-heartbeat env id active capacity s j h placed).1 at_

-- The node after a run of a job is registered, and after an older run of the same job then ends.
abbrev pub registered : ExecuteJobRequest → Node → Node
registered req n = (advance n (counted req)).0

abbrev pub ended : ExecuteJobRequest → ℕ → Node → Node
ended req context n = (advance n (reported req context)).0

-- Once a run is registered a call to cancel its job cancels its context, and says so; but when an older
-- run of the same job ends, the call cancels nothing and says that there is no such job, though the
-- newer run goes on.
pub older_run_unregisters :
    (n : Node) (req old : ExecuteJobRequest) (context : ℕ)
    → old.job_id ≡ req.job_id
    → (cancel_job_call req.job_id (registered req n)
        ≡ (call_cancel n.contexts (registered req n), true))
      × (cancel_job_call req.job_id (ended old context (registered req n))
          ≡ (ended old context (registered req n), false))
unfolding cancel_job_call cancel_local cancel_at advance register_cancel remove_cancel
older_run_unregisters n req old context same =
    (rw (lookup-insert, eq_refl req.job_id) refl, rw (same, lookup-delete, eq_refl req.job_id) refl)

-- ===== src/Api/Cancellation.antt =====
-- What a request to cancel a job does.
use chronos_dev.Common.{
  ℕ, subst, String, true, Option, none, some, ◌≡◌, refl, ◌∙◌, sym, ◌⊎◌, inl, inr, if◌then◌else◌,
  lookup, eq_refl, Bool-cases, arith,
}
use chronos_dev.Domain.Job.{
  Job, JobState, Instant, created, scheduled, queued, assigned, running, completed, failed,
  timed_out, retrying, cancel_requested, cancelled, expired,
}
use chronos_dev.Scheduler.Report.{is_terminal}
use chronos_dev.Store.Jobs.{no_fields, write_fields, get_job}
use chronos_dev.Store.Update.{lookup-update_job_state}
use chronos_dev.Api.{
  Env, Server, Response, is_over, is_on_worker, write_job, cancel_found, cancel_job_handler,
}

cancel_job-found :
    (env : Env) (id : String) (s : Server) (j : Job)
    → lookup id s.store.jobs ≡ some j
    → cancel_job_handler env id s ≡ cancel_found env id j s
unfolding cancel_job_handler get_job
cancel_job-found env id s j h = rw h refl

write_job-found :
    (env : Env) (id : String) (state : JobState) (finished_at : Option Instant) (s : Server)
    (j : Job)
    → lookup id s.store.jobs ≡ some j
    → lookup id (write_job env id state finished_at s).store.jobs
      ≡ some (write_fields env.now state (record no_fields { completed_at = finished_at }) j)
write_job-found env id state finished_at s j h =
    lookup-update_job_state env.now id id state _ s.store ∙ rw (h, eq_refl id) refl

-- The state and the status code that each state leads to.
pub cancel_table : JobState → JobState × ℕ
cancel_table created = (cancelled, 200)
cancel_table scheduled = (cancelled, 200)
cancel_table queued = (cancelled, 200)
cancel_table assigned = (cancel_requested, 202)
cancel_table running = (cancel_requested, 202)
cancel_table completed = (completed, 409)
cancel_table failed = (cancelled, 200)
cancel_table timed_out = (cancelled, 200)
cancel_table retrying = (cancelled, 200)
cancel_table cancel_requested = (cancelled, 200)
cancel_table cancelled = (cancelled, 409)
cancel_table expired = (expired, 409)

cancel_table-tests :
    (st : JobState)
    → cancel_table st ≡ (
        if is_over st
        then (st, 409)
        else if is_on_worker st
        then (cancel_requested, 202)
        else (cancelled, 200))
unfolding cancel_table is_over is_on_worker
cancel_table-tests created = refl
cancel_table-tests _ = refl

abbrev Follows : Env → String → Job → Server → Server × Response → Type 0
Follows env id j s r =
    (j' : Job) × (lookup id r.0.store.jobs ≡ some j')
    × (j'.state ≡ (cancel_table j.state).0)
    × (r.1.status ≡ (cancel_table j.state).1)

cancel_found-Follows :
    (env : Env) (id : String) (s : Server) (j : Job)
    → lookup id s.store.jobs ≡ some j
    → Follows env id j s (cancel_found env id j s)
unfolding cancel_found write_fields
cancel_found-Follows env id s j h =
    rw (cancel_table-tests j.state) (elim (Bool-cases (is_over j.state)) [
      | inl over ↦ simp over (j, h, refl, refl)
      | inr open_ ↦ simp open_ (elim (Bool-cases (is_on_worker j.state)) [
        | inl busy ↦ simp busy (_, write_job-found env id cancel_requested none s j h, refl, refl)
        | inr free ↦
            simp free (_, write_job-found env id cancelled (some env.now) s j h, refl, refl)
      ])
    ])

-- A request to cancel a job leaves it in the state, and answers with the status code, that the table gives
-- for its state.
pub cancel_job_exact :
    (env : Env) (id : String) (s : Server) (j : Job)
    → lookup id s.store.jobs ≡ some j
    → (j' : Job) × (lookup id (cancel_job_handler env id s).0.store.jobs ≡ some j')
      × (j'.state ≡ (cancel_table j.state).0)
      × ((cancel_job_handler env id s).1.status ≡ (cancel_table j.state).1)
cancel_job_exact env id s j h =
    subst (Follows env id j s) (sym (cancel_job-found env id s j h))
      (cancel_found-Follows env id s j h)

-- A job that the scheduler has brought to an end by failure or timeout is not kept so: a request to cancel
-- it makes it cancelled.
pub cancel_reopens_ended :
    (env : Env) (id : String) (s : Server) (j : Job)
    → lookup id s.store.jobs ≡ some j
    → (j.state ≡ failed) ⊎ (j.state ≡ timed_out)
    → (is_terminal j.state ≡ true)
      × ((j' : Job) × (lookup id (cancel_job_handler env id s).0.store.jobs ≡ some j')
          × (j'.state ≡ cancelled))
unfolding cancel_table is_terminal
cancel_reopens_ended env id s j h e =
    let (j', found, state, _) = cancel_job_exact env id s j h in
    (ground (arith, e), (j', found, ground (arith, e, state)))

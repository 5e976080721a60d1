-- ===== src/Scheduler/Writes.antt =====
-- Which steps of the scheduler write to which jobs.
use chronos_dev.Common.{
  String, Option, some, ◌==◌, eq_refl, ne_false, ◌≡◌, ◌≢◌, refl, if◌then◌else◌, lookup, map_option,
  Option-cases, inl, inr, arith,
}
use chronos_dev.Domain.Job.{Job, JobState, Instant, ExecutionState, ExecutionResult}
use chronos_dev.Store.Jobs.{Fields, write_fields}
use chronos_dev.Store.Fleet.{finish_execution}
use chronos_dev.Store.Update.{lookup-update_job_state}
use chronos_dev.Scheduler.State.{
  Service, send, set_job, finish, add_pending_cancel, clear_pending_cancel, push_cancel,
}
use chronos_dev.Scheduler.Report.{release_at, release_slot}

-- The stored job with an identifier.
abbrev pub job_at : String → Service → Option Job
job_at k s = lookup k s.store.jobs

pub finish-jobs :
    (now : Instant) (id : String) (st : ExecutionState) (res : ExecutionResult) (s : Service)
    → ((finish now id st res s).store.jobs ≡ s.store.jobs)
      × ((finish now id st res s).store.by_idem ≡ s.store.by_idem)
unfolding finish finish_execution
finish-jobs now id st res s = elim (Option-cases (lookup id s.store.executions)) [
  | inl e ↦ ground (arith, e)
  | inr (x, e) ↦ ground (arith, e)
]

pub release_slot-store : (id : String) (s : Service) → (release_slot id s).store ≡ s.store
unfolding release_slot release_at
release_slot-store id s = ground arith

pub clear_pending_cancel-store :
    (w id : String) (s : Service) → (clear_pending_cancel w id s).store ≡ s.store
unfolding clear_pending_cancel
clear_pending_cancel-store w id s = refl

pub add_pending_cancel-store :
    (w id : String) (s : Service) → (add_pending_cancel w id s).store ≡ s.store
unfolding add_pending_cancel
add_pending_cancel-store w id s = refl

pub push_cancel-store : (w id ex : String) (s : Service) → (push_cancel w id ex s).store ≡ s.store
unfolding push_cancel send
push_cancel-store w id ex s = ground arith

pub job_at-set_job :
    (now : Instant) (id k : String) (st : JobState) (f : Fields) (s : Service)
    → job_at k (set_job now id st f s)
      ≡ (if id == k then map_option (write_fields now st f) (job_at k s) else job_at k s)
unfolding set_job
job_at-set_job now id k st f s = lookup-update_job_state now id k st f s.store

-- The job that a write is meant for.
pub job_at-set_job_self :
    (now : Instant) (id : String) (st : JobState) (f : Fields) (s : Service) (j : Job)
    → job_at id s ≡ some j
    → job_at id (set_job now id st f s) ≡ some (write_fields now st f j)
job_at-set_job_self now id st f s j h = rw (job_at-set_job now id id st f s, eq_refl id, h)

pub job_at-set_job_other :
    (now : Instant) (id k : String) (st : JobState) (f : Fields) (s : Service)
    → id ≢ k
    → job_at k (set_job now id st f s) ≡ job_at k s
job_at-set_job_other now id k st f s h = rw (job_at-set_job now id k st f s, ne_false id k h)

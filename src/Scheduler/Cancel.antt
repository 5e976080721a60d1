-- ===== src/Scheduler/Cancel.antt =====
-- internal/scheduler/scheduler.go: `RequestCancel` and `pushPendingCancels`.
use chronos_dev.Common.{String, List, [], ◌∷◌, none, some, ◌==◌, if◌then◌else◌, Result, ok, err}
use chronos_dev.Domain.Job.{Job, cancelled}
use chronos_dev.Domain.Event.{job_cancelled}
use chronos_dev.Store.Jobs.{no_fields, get_job}
use chronos_dev.Store.Listing.{list_cancel_requested}
use chronos_dev.Scheduler.State.{Service, Env, Act, emit, set_job, add_pending_cancel, push_cancel}

-- The job is noted for its worker, and the worker is asked at once if it is connected.
unfoldable pub ask_cancel : String → Job → Service → Service
ask_cancel job_id job s =
    push_cancel job.worker_id job_id job.execution_id (add_pending_cancel job.worker_id job_id s)

unfoldable pub request_of : String → Result Job → Act
request_of job_id (err e) s = (s, some e)
request_of job_id (ok job) s = (if job.worker_id == "" then s else ask_cancel job_id job s, none)

unfoldable pub request_cancel : String → Act
request_cancel job_id s = request_of job_id (get_job job_id s.store) s

-- One round of the loop of `pushPendingCancels`.
unfoldable pub push_pending : Env → Job → Service → Service
push_pending env job s =
    if job.worker_id == ""
    then emit job_cancelled job.id job.execution_id "" job.attempt []
        (set_job env.now job.id cancelled (record no_fields { completed_at = some env.now }) s)
    else ask_cancel job.id job s

unfoldable pub push_all : Env → List Job → Service → Service
push_all env [] s = s
push_all env (job ∷ jobs) s = push_all env jobs (push_pending env job s)

unfoldable pub push_pending_cancels : Env → Service → Service
push_pending_cancels env s =
    push_all env (list_cancel_requested env.visit_jobs s.cfg.assign_batch_size s.store) s

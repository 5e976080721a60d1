-- ===== src/Scheduler/Recovery.antt =====
-- internal/scheduler/scheduler.go: `watchdogTimeouts`, `checkWorkers` and `recoverWorkerJobs`.
use chronos_dev.Common.{
  pos, String, true, false, List, [], ◌∷◌, ◌++◌, some, ◌==◌, if◌then◌else◌, delete, ltb_ℤ,
}
use chronos_dev.Domain.Job.{
  Job, JobState, running, assigned, cancel_requested, cancelled, failed, same_state, ExecutionState,
  ExecutionResult, reason_timeout, reason_failed, state_name,
}
use chronos_dev.Domain.Event.{
  worker_unavailable, job_cancelled, job_retry_scheduled, job_failed, text,
}
use chronos_dev.Store.Jobs.{no_fields}
use chronos_dev.Store.Listing.{list_jobs, list_timed_out_running}
use chronos_dev.Store.Fleet.{mark_stale_workers}
use chronos_dev.Scheduler.State.{Service, Env, emit, set_job, finish, push_cancel}
use chronos_dev.Scheduler.Report.{Report, handle_result, set_retrying}

abbrev pub timeout_result : Job → ExecutionResult
timeout_result job = record {
  success = false;
  output = "";
  error = "timeout";
  retryable = true;
  duration = job.timeout;
  reason = reason_timeout;
}

abbrev pub timeout_report : Job → Report
timeout_report job = record {
  job_id = job.id;
  execution_id = job.execution_id;
  worker_id = job.worker_id;
  attempt = job.attempt;
  result = timeout_result job;
}

-- One round of the watchdog; an error of `HandleResult` is only logged.
unfoldable pub time_out : Env → Job → Service → Service
time_out env job s =
    (handle_result env (timeout_report job)
      (if job.worker_id == "" then s else push_cancel job.worker_id job.id job.execution_id s)).0

unfoldable pub time_out_all : Env → List Job → Service → Service
time_out_all env [] s = s
time_out_all env (job ∷ jobs) s = time_out_all env jobs (time_out env job s)

unfoldable pub watchdog_timeouts : Env → Service → Service
watchdog_timeouts env s =
    time_out_all env (list_timed_out_running env.visit_jobs env.now s.cfg.assign_batch_size s.store)
      s

abbrev pub worker_lost : ExecutionResult
worker_lost = record {
  success = false;
  output = "";
  error = "worker lost";
  retryable = false;
  duration = pos 0;
  reason = reason_failed;
}

-- What becomes of a job of the lost worker.
unfoldable pub recover_job : Env → String → Job → Service → Service
recover_job env worker_id j s =
    let s1 = finish env.now j.execution_id ExecutionState.failed worker_lost s in
    let reason = text "reason" "worker_lost" ∷ [] in
    let lost_cancel = record no_fields {
      completed_at = some env.now;
      last_error = some "worker lost during cancel";
    } in
    let exhausted = record no_fields {
      completed_at = some env.now;
      last_error = some "worker lost, max attempts exceeded";
    } in
    if same_state j.state cancel_requested
    then emit job_cancelled j.id j.execution_id worker_id j.attempt reason
        (set_job env.now j.id cancelled lost_cancel s1)
    else if ltb_ℤ j.attempt j.max_attempts
    then emit job_retry_scheduled j.id j.execution_id worker_id j.attempt reason
        (set_retrying env j.id env.now "worker lost" s1)
    else emit job_failed j.id j.execution_id worker_id j.attempt reason
        (set_job env.now j.id failed exhausted s1)

unfoldable pub recover_all : Env → String → List Job → Service → Service
recover_all env worker_id [] s = s
recover_all env worker_id (j ∷ js) s =
    recover_all env worker_id js
      (if j.worker_id == worker_id then recover_job env worker_id j s else s)

-- The three lists are read before any job is changed.
unfoldable pub recover_worker_jobs : Env → String → Service → Service
recover_worker_jobs env worker_id s =
    let list = λ (st : JobState). list_jobs env.visit_jobs (state_name st) (pos 1000) s.store in
    let jobs = (list running ++ list assigned) ++ list cancel_requested in
    let t = recover_all env worker_id jobs s in
    record t { pending_cancels = delete worker_id t.pending_cancels }

unfoldable pub drop_worker : Env → String → Service → Service
drop_worker env id s =
    recover_worker_jobs env id
      (emit worker_unavailable "" "" id (pos 0) [] (record s { workers = delete id s.workers }))

unfoldable pub drop_all : Env → List String → Service → Service
drop_all env [] s = s
drop_all env (id ∷ ids) s = drop_all env ids (drop_worker env id s)

unfoldable pub check_workers : Env → Service → Service
check_workers env s =
    let stale =
      mark_stale_workers env.visit_workers env.now s.cfg.heartbeat_timeout
        s.cfg.suspect_grace_period s.store in
    drop_all env stale.unavailable_ids (record s { store = stale.store })

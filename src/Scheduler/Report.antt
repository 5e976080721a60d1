-- ===== src/Scheduler/Report.antt =====
-- internal/scheduler/scheduler.go: `HandleResult` and `maybeRescheduleRecurring`.
use chronos_dev.Common.{
  ℤ, pos, ◌+ℤ◌, ◌-ℤ◌, String, Bool, true, false, ◌&&◌, ◌||◌, [], ◌∷◌, Option, none, some, ◌==◌,
  if◌then◌else◌, lookup, insert, ltb_ℤ, Result, ok, err, Error,
}
use chronos_dev.Domain.Job.{
  Job, JobState, completed, failed, cancelled, timed_out, expired, retrying, cancel_requested,
  scheduled, Instant, ExecutionState, ExecutionResult, reason_success, reason_failed,
  reason_timeout, reason_cancelled, schedule_recurring, same_state, milliseconds, zero_time,
}
use chronos_dev.Domain.Schedule.{next_run_at}
use chronos_dev.Domain.Worker.{Worker}
use chronos_dev.Domain.Event.{
  job_cancelled, job_completed, job_timeout, job_failed, job_retry_scheduled, job_scheduled, text,
  number, flag, instant,
}
use chronos_dev.Store.State.{Store}
use chronos_dev.Store.Jobs.{Fields, no_fields, get_job, create_job}
use chronos_dev.Scheduler.State.{Service, Env, emit, set_job, finish, clear_pending_cancel}
use chronos_dev.Scheduler.Backoff.{compute_backoff}

-- The arguments of `HandleResult`.
pub record Report : Type 0 where
  pub job_id : String
  pub execution_id : String
  pub worker_id : String
  pub attempt : ℤ
  pub result : ExecutionResult

-- if wc.info.ActiveJobs > 0 { wc.info.ActiveJobs-- }
abbrev pub free_slot : Worker → Worker
free_slot w =
    if ltb_ℤ (pos 0) w.active_jobs then record w { active_jobs = w.active_jobs -ℤ pos 1 } else w

unfoldable pub release_at : String → Option Worker → Service → Service
release_at worker_id none s = s
release_at worker_id (some w) s = record s { workers = insert worker_id (free_slot w) s.workers }

unfoldable pub release_slot : String → Service → Service
release_slot worker_id s = release_at worker_id (lookup worker_id s.workers) s

-- An empty reason is read off the success.
unfoldable pub with_reason : ExecutionResult → ExecutionResult
with_reason r =
    if r.reason == ""
    then record r { reason = if r.success then reason_success else reason_failed }
    else r

unfoldable pub is_terminal : JobState → Bool
is_terminal completed = true
is_terminal failed = true
is_terminal cancelled = true
is_terminal timed_out = true
is_terminal expired = true
is_terminal _ = false

-- The new occurrence of a recurring job.
unfoldable pub occurrence : Job → Instant → Job
occurrence job next = record {
  id = "";
  name = job.name;
  job_type = job.job_type;
  payload = job.payload;
  priority = job.priority;
  state = scheduled;
  schedule = job.schedule;
  retry_policy = job.retry_policy;
  timeout = job.timeout;
  idempotency_key = "";
  attempt = pos 0;
  max_attempts = job.max_attempts;
  worker_id = "";
  execution_id = "";
  last_error = "";
  scheduled_at = some next;
  queued_at = none;
  started_at = none;
  completed_at = none;
  next_retry_at = none;
  created_at = zero_time;
  updated_at = zero_time;
  metadata = job.metadata;
}

unfoldable pub schedule_child : Instant → Job → Result (Job × Store) → Service → Service
schedule_child next job (err e) s = s
schedule_child next job (ok (child, store)) s =
    emit job_scheduled child.id "" "" (pos 0)
      (text "parent_job_id" job.id
        ∷ instant "scheduled_at" (some next)
        ∷ flag "recurring" true
        ∷ [])
      (record s { store = store })

unfoldable pub spawn : Env → Job → Result Instant → Service → Service
spawn env job (err e) s = s
spawn env job (ok next) s =
    schedule_child next job (create_job env.now env.uuid (occurrence job next) s.store) s

unfoldable pub maybe_reschedule_recurring : Env → Job → Service → Service
maybe_reschedule_recurring env job s =
    if job.schedule.schedule_type == schedule_recurring
    then spawn env job (next_run_at env.cron job.schedule env.now) s
    else s

-- What `HandleResult` does once the job is known not to be in a terminal state, one function for each
-- of its four ends.
unfoldable pub end_cancelled : Env → Report → ExecutionResult → Service → Service
end_cancelled env r res s =
    let s1 = finish env.now r.execution_id ExecutionState.cancelled res s in
    let fields = record no_fields { completed_at = some env.now; last_error = some res.error } in
    emit job_cancelled r.job_id r.execution_id r.worker_id r.attempt (text "reason" res.reason ∷ [])
      (set_job env.now r.job_id cancelled fields s1)

unfoldable pub end_completed : Env → Report → ExecutionResult → Job → Service → Service
end_completed env r res job s =
    let s1 = finish env.now r.execution_id ExecutionState.completed res s in
    let s2 =
      set_job env.now r.job_id completed (record no_fields { completed_at = some env.now }) s1 in
    maybe_reschedule_recurring env job (
      emit job_completed r.job_id r.execution_id r.worker_id r.attempt
        (number "duration_ms" (milliseconds res.duration) ∷ []) s2)

-- The writes of a retry; the worker and the execution are taken off the job.
abbrev pub retry_fields : Instant → String → Fields
retry_fields next error = record no_fields {
  next_retry_at = some next;
  last_error = some error;
  worker_id = some "";
  execution_id = some "";
}

unfoldable pub set_retrying : Env → String → Instant → String → Service → Service
set_retrying env id next error s = set_job env.now id retrying (retry_fields next error) s

unfoldable pub end_timeout : Env → Report → ExecutionResult → Job → Service → Service
end_timeout env r res job s =
    let next =
      env.now +ℤ compute_backoff env.floats (env.draw r.job_id) job.retry_policy r.attempt in
    let s1 = finish env.now r.execution_id ExecutionState.timed_out res s in
    let s2 =
      emit job_timeout r.job_id r.execution_id r.worker_id r.attempt (text "error" res.error ∷ [])
        s1 in
    let fields = record no_fields { completed_at = some env.now; last_error = some "timeout" } in
    if ltb_ℤ r.attempt job.max_attempts
    then emit job_retry_scheduled r.job_id r.execution_id r.worker_id r.attempt
        (instant "next_retry_at" (some next) ∷ text "reason" "timeout" ∷ [])
        (set_retrying env r.job_id next "timeout" s2)
    else set_job env.now r.job_id timed_out fields s2

unfoldable pub end_failed : Env → Report → ExecutionResult → Job → Service → Service
end_failed env r res job s =
    let delay = compute_backoff env.floats (env.draw r.job_id) job.retry_policy r.attempt in
    let next = env.now +ℤ delay in
    let s1 = finish env.now r.execution_id ExecutionState.failed res s in
    let s2 =
      emit job_failed r.job_id r.execution_id r.worker_id r.attempt
        (text "error" res.error ∷ flag "retryable" res.retryable ∷ []) s1 in
    let fields = record no_fields { completed_at = some env.now; last_error = some res.error } in
    if res.retryable && ltb_ℤ r.attempt job.max_attempts
    then emit job_retry_scheduled r.job_id r.execution_id r.worker_id r.attempt
        (instant "next_retry_at" (some next) ∷ number "delay_ms" (milliseconds delay) ∷ [])
        (set_retrying env r.job_id next res.error s2)
    else set_job env.now r.job_id failed fields s2

unfoldable pub conclude : Env → Report → ExecutionResult → Job → Service → Service
conclude env r res job s =
    if res.reason == reason_cancelled || same_state job.state cancel_requested
    then end_cancelled env r res s
    else if res.success
    then end_completed env r res job s
    else if res.reason == reason_timeout
    then end_timeout env r res job s
    else end_failed env r res job s

unfoldable pub handle_job :
    Env → Report → ExecutionResult → Result Job → Service → Service × Option Error
handle_job env r res (err e) s = (s, some e)
handle_job env r res (ok job) s =
    (if is_terminal job.state then s else conclude env r res job s, none)

unfoldable pub handle_result : Env → Report → Service → Service × Option Error
handle_result env r s =
    let s1 = clear_pending_cancel r.worker_id r.job_id (release_slot r.worker_id s) in
    handle_job env r (with_reason r.result) (get_job r.job_id s1.store) s1

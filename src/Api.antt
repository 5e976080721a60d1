-- ===== src/Api.antt =====
-- internal/api/server.go: the handlers that create, read and cancel jobs. A handler takes the decoded
-- request (decoding is the JSON library's) and gives the new state and the response.
pub mod Submission
pub mod Analytics
pub mod Ranges
pub mod Status
pub mod Cancellation
mod Examples
use chronos_dev.Common.{
  ℕ, ℤ, pos, ◌*◌, ◌*ℤ◌, ◌+ℤ◌, ◌-ℤ◌, String, Bool, true, false, not, ◌&&◌, ◌||◌, List, [], ◌∷◌, ◌++◌,
  Option, none, some, ◌==◌, if◌then◌else◌, leb_ℤ, ltb_ℤ, eqb_ℤ, Result, ok, err, Error, failure,
  wrapped, not_found, ◌>>=◌, ◌>>◌, after, or_error, lookup, Visit,
}
use chronos_dev.Domain.Job.{
  Job, JobState, created, scheduled, queued, assigned, running, completed, cancelled, expired,
  cancel_requested, CreateJobRequest, Schedule, RetryPolicy, default_retry_policy, job_type_builtin,
  job_type_webhook, schedule_immediate, schedule_delayed, schedule_one_time, schedule_recurring,
  second, Instant, Duration, zero_time, QueuedJob,
}
use chronos_dev.Domain.Schedule.{Cron, next_run_at, validate_schedule}
use chronos_dev.Domain.Event.{
  Emitted, EventType, Member, job_created, job_scheduled, job_queued, job_cancel_requested,
  job_cancelled, text, number, instant,
}
use chronos_dev.Store.State.{Store}
use chronos_dev.Store.Jobs.{no_fields, create_job, get_job, update_job_state}
use chronos_dev.Store.Listing.{reached, list_jobs}
use chronos_dev.Queue.{Queue, enqueue}
use chronos_dev.Scheduler.Assign.{queued_job}

pub record Server : Type 0 where
  pub store : Store
  pub queue : Queue
  pub emitted : List Emitted

-- The clock, a fresh identifier for the job, and the cron library.
pub record Env : Type 0 where
  pub now : Instant
  pub uuid : String
  pub cron : Cron

pub data Body : Type 0 where
  message : String → Body
  failed_with : Error → Body
  one_job : Job → Body
  job_list : List Job → Body
  status_of : String → Body

pub record Response : Type 0 where
  pub status : ℕ
  pub body : Body

abbrev pub respond : ℕ → Body → Response
respond status body = record { status = status; body = body }

abbrev pub emit : EventType → String → String → String → ℤ → List Member → Server → Server
emit event_type job_id execution_id worker_id attempt payload s = record s {
  emitted =
      s.emitted
      ++ (record {
        event_type = event_type;
        job_id = job_id;
        execution_id = execution_id;
        worker_id = worker_id;
        attempt = attempt;
        payload = payload;
      }
          ∷ []);
}

abbrev pub require : Bool → String → Result (Unit {0})
require true why = ok tt
require false why = err (failure why)

abbrev pub no_error : Option Error → Result (Unit {0})
no_error none = ok tt
no_error (some e) = err e

abbrev pub or_default {ℓ} : {A : Type ℓ} → A → Option A → A
or_default a none = a
or_default a (some b) = b

-- The recurring case: the next run after the instant just before now, or after now.
unfoldable pub first_recurring : Cron → Schedule → Instant → Result Instant
first_recurring c sched now = do
  next ← next_run_at c sched (now -ℤ pos 1)
  if ltb_ℤ now next then ok next else next_run_at c sched now

-- The switch on the type of the schedule: when the job is to run.
unfoldable pub first_run : Cron → Schedule → Instant → Result Instant
unfolding first_recurring
first_run c sched now =
    if sched.schedule_type == schedule_immediate
    then ok now
    else if sched.schedule_type == schedule_delayed
    then ok (now +ℤ sched.delay)
    else if sched.schedule_type == schedule_one_time
    then or_error (failure "run_at required for one_time") sched.run_at
    else if sched.schedule_type == schedule_recurring
    then first_recurring c sched now
    else err (failure "unknown schedule type")

-- The defaults that the handler fills in.
abbrev pub type_of : CreateJobRequest → String
type_of req = if req.job_type == "" then job_type_builtin else req.job_type

abbrev pub priority_of : CreateJobRequest → ℤ
priority_of req = if eqb_ℤ req.priority (pos 0) then pos 5 else req.priority

abbrev pub schedule_of : CreateJobRequest → Schedule
schedule_of req = record req.schedule {
  schedule_type =
      if req.schedule.schedule_type == "" then schedule_immediate else req.schedule.schedule_type;
}

abbrev pub timeout_of : CreateJobRequest → Duration
timeout_of req =
    if ltb_ℤ (pos 0) req.timeout_seconds
    then req.timeout_seconds *ℤ pos second
    else pos (30 * second)

unfoldable pub new_job : Env → CreateJobRequest → Instant → Job
unfolding default_retry_policy ◌*ℤ◌
new_job env req at_ =
    let retry = or_default default_retry_policy req.retry_policy in
    record {
      id = env.uuid;
      name = req.name;
      job_type = type_of req;
      payload = or_default "{}" req.payload;
      priority = priority_of req;
      state = scheduled;
      schedule = schedule_of req;
      retry_policy = retry;
      timeout = timeout_of req;
      idempotency_key = req.idempotency_key;
      attempt = pos 0;
      max_attempts = retry.max_attempts;
      worker_id = "";
      execution_id = "";
      last_error = "";
      scheduled_at = some at_;
      queued_at = none;
      started_at = none;
      completed_at = none;
      next_retry_at = none;
      created_at = zero_time;
      updated_at = zero_time;
      metadata = req.metadata;
    }

-- The part of `createJob` that answers 400 when it fails: the job that the request asks for.
unfoldable pub prepare : Env → CreateJobRequest → Result Job
prepare env req = do
  require (not (req.name == "")) "name required"
  require (type_of req == job_type_builtin || type_of req == job_type_webhook)
      "type must be builtin or webhook"
  require (leb_ℤ (pos 1) (priority_of req) && leb_ℤ (priority_of req) (pos 10))
      "priority must be 1-10"
  no_error (validate_schedule env.cron env.now (schedule_of req))
  at_ ← first_run env.cron (schedule_of req) env.now
  ok (new_job env req at_)

unfoldable pub mark_queued : Env → Job → Result Store → Server → Server × Result Job
mark_queued env job (err e) s = (s, err e)
mark_queued env job (ok store) s =
    (record s { store = store }, ok (record job { state = queued; queued_at = some env.now }))

unfoldable pub enqueued : Env → Job → Result Queue → Server → Server × Result Job
enqueued env job (err e) s = (s, err e)
enqueued env job (ok queue) s =
    let t = emit job_queued job.id "" "" job.attempt [] (record s { queue = queue }) in
    let fields = record no_fields { queued_at = some env.now } in
    mark_queued env job (update_job_state env.now job.id queued fields t.store) t

-- The job goes to the queue before it is marked; it comes back as the caller then sees it.
unfoldable pub enqueue_job : Env → Job → Server → Server × Result Job
enqueue_job env job s = enqueued env job (enqueue env.now (queued_job env.now job) s.queue) s

abbrev pub answer : Server × Result Job → Server × Response
answer (s, err e) = (s, respond 500 (failed_with (wrapped "enqueue failed: " e)))
answer (s, ok job) = (s, respond 201 (one_job job))

unfoldable pub announce : Job → Server → Server
announce job s =
    emit job_scheduled job.id "" "" (pos 0) (instant "scheduled_at" job.scheduled_at ∷ []) (
      emit job_created job.id "" "" (pos 0)
        (text "name" job.name ∷ text "type" job.job_type ∷ number "priority" job.priority ∷ []) s)

unfoldable pub stored_job : Env → Result (Job × Store) → Server → Server × Response
stored_job env (err e) s = (s, respond 500 (failed_with e))
stored_job env (ok (job, store)) s =
    let t = announce job (record s { store = store }) in
    if reached env.now job.scheduled_at
    then answer (enqueue_job env job t)
    else (t, respond 201 (one_job job))

unfoldable pub submit : Env → Result Job → Server → Server × Response
submit env (err e) s = (s, respond 400 (failed_with e))
submit env (ok job) s = stored_job env (create_job env.now env.uuid job s.store) s

unfoldable pub create_job_handler : Env → CreateJobRequest → Server → Server × Response
create_job_handler env req s = submit env (prepare env req) s

read_failed : Error → Response
read_failed not_found = respond 404 (message "job not found")
read_failed e = respond 500 (failed_with e)

read_job : Result Job → Response
unfolding read_failed
read_job (ok job) = respond 200 (one_job job)
read_job (err e) = read_failed e

unfoldable pub get_job_handler : String → Server → Response
unfolding read_job
get_job_handler id s = read_job (get_job id s.store)

unfoldable pub list_jobs_handler : Visit Job → String → ℤ → Server → Response
list_jobs_handler visit state limit s = respond 200 (job_list (list_jobs visit state limit s.store))

-- The `terminal` map of `cancelJob`.
unfoldable pub is_over : JobState → Bool
is_over completed = true
is_over cancelled = true
is_over expired = true
is_over _ = false

unfoldable pub is_on_worker : JobState → Bool
is_on_worker running = true
is_on_worker assigned = true
is_on_worker _ = false

abbrev pub write_job : Env → String → JobState → Option Instant → Server → Server
write_job env id state completed_at s = record s {
  store = after s.store (
      update_job_state env.now id state (record no_fields { completed_at = completed_at }) s.store);
}

unfoldable pub cancel_found : Env → String → Job → Server → Server × Response
cancel_found env id job s =
    if is_over job.state
    then (s, respond 409 (message "job already terminal"))
    else if is_on_worker job.state
    then (
      emit job_cancel_requested id job.execution_id job.worker_id job.attempt []
          (write_job env id cancel_requested none s),
      respond 202 (status_of "CANCEL_REQUESTED"),
    )
    else (
      emit job_cancelled id "" "" job.attempt [] (write_job env id cancelled (some env.now) s),
      respond 200 (status_of "CANCELLED"),
    )

cancel_read : Env → String → Result Job → Server → Server × Response
unfolding read_failed
cancel_read env id (err e) s = (s, read_failed e)
cancel_read env id (ok job) s = cancel_found env id job s

unfoldable pub cancel_job_handler : Env → String → Server → Server × Response
unfolding cancel_read
cancel_job_handler env id s = cancel_read env id (get_job id s.store) s

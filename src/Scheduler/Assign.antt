-- ===== src/Scheduler/Assign.antt =====
-- internal/scheduler/scheduler.go: `promoteDueJobs`, `pickWorker` and `handleQueuedJob`, and
-- internal/workerclient/client.go, by which a job is pushed to a worker.
use chronos_dev.Common.{
  ℤ, pos, ◌+ℤ◌, String, Bool, true, false, List, [], ◌∷◌, Option, none, some, if◌then◌else◌, lookup,
  insert, values, ltb_ℤ, Result, ok, err, Error, failure, wrapped, no_worker,
}
use chronos_dev.Domain.Job.{
  Job, JobState, queued, scheduled, retrying, assigned, running, Instant, JobExecution,
  ExecutionState, QueuedJob,
}
use chronos_dev.Domain.Worker.{Worker, is_assignable}
use chronos_dev.Domain.Event.{job_queued, job_assigned, job_started}
use chronos_dev.Store.State.{Store}
use chronos_dev.Store.Jobs.{Fields, no_fields, get_job, update_job_state}
use chronos_dev.Store.Listing.{list_due_scheduled}
use chronos_dev.Store.Fleet.{create_execution}
use chronos_dev.Queue.{Queue, enqueue}
use chronos_dev.Scheduler.State.{
  Service, Env, Act, ◌>>◌, succeed, execute_job, emit, send, set_job_if,
}

unfoldable pub queued_job : Instant → Job → QueuedJob
queued_job now job = record {
  job_id = job.id;
  execution_id = "";
  name = job.name;
  job_type = job.job_type;
  payload = job.payload;
  priority = job.priority;
  attempt = job.attempt;
  timeout = job.timeout;
  enqueued_at = now;
  trace_id = "";
}

-- One round of the loop: a job that cannot be enqueued is skipped.
unfoldable pub promote_enqueued : Env → Job → Result Queue → Service → Service
promote_enqueued env job (err e) s = s
promote_enqueued env job (ok queue) s = emit job_queued job.id "" "" job.attempt [] (
    set_job_if env.now job.id queued (record no_fields { queued_at = some env.now })
      (scheduled ∷ retrying ∷ []) (record s { queue = queue }))

unfoldable pub promote : Env → Job → Service → Service
promote env job s = promote_enqueued env job (enqueue env.now (queued_job env.now job) s.queue) s

unfoldable pub promote_all : Env → List Job → Service → Service
promote_all env [] s = s
promote_all env (job ∷ jobs) s = promote_all env jobs (promote env job s)

unfoldable pub promote_due_jobs : Env → Service → Service
promote_due_jobs env s =
    promote_all env (list_due_scheduled env.visit_jobs env.now s.cfg.assign_batch_size s.store) s

-- best == nil || w.info.ActiveJobs < best.info.ActiveJobs
abbrev pub better : Worker → Option Worker → Option Worker
better w none = some w
better w (some best) = if ltb_ℤ w.active_jobs best.active_jobs then some w else some best

unfoldable pub pick_loop : List Worker → Option Worker → Option Worker
pick_loop [] best = best
pick_loop (w ∷ ws) best = pick_loop ws (if is_assignable w then better w best else best)

unfoldable pub pick_worker : Env → Service → Option Worker
pick_worker env s = pick_loop (values (env.visit_fleet s.workers)) none

-- The states in which a message of the queue is acted on.
unfoldable pub is_queueable : JobState → Bool
is_queueable queued = true
is_queueable scheduled = true
is_queueable retrying = true
is_queueable _ = false

unfoldable pub new_execution : String → String → ℤ → String → JobExecution
new_execution execution_id job_id attempt worker_id = record {
  id = execution_id;
  job_id = job_id;
  worker_id = worker_id;
  attempt = attempt;
  state = ExecutionState.pending;
  started_at = none;
  finished_at = none;
  duration_ms = pos 0;
  error = "";
  output = "";
  retryable = false;
  created_at = pos 0;
}

abbrev pub stored : Result Store → Act
stored (ok store) s = (record s { store = store }, none)
stored (err e) s = (s, some e)

-- `if err := s.store.UpdateJobState(…); err != nil { return err }`.
unfoldable pub try_set_job : Instant → String → JobState → Fields → Act
try_set_job now id state fields s = stored (update_job_state now id state fields s.store) s

-- ex.Attempt
abbrev pub next_attempt : QueuedJob → ℤ
next_attempt job = job.attempt +ℤ pos 1

-- From `CreateExecution` to the event of the assignment.
unfoldable pub begin_assign : Env → Worker → QueuedJob → Act
begin_assign env w job = do
  succeed (λ s. record s {
    store =
        create_execution env.now env.uuid
          (new_execution env.uuid job.job_id (next_attempt job) w.id) s.store;
  })
  try_set_job env.now job.job_id assigned (record no_fields {
    worker_id = some w.id;
    execution_id = some env.uuid;
    attempt = some (next_attempt job);
  })
  succeed (emit job_assigned job.job_id env.uuid w.id (next_attempt job) [])

-- The answer to a push: the call failed, or the worker replied; a missing reply is a nil response.
pub data Answer : Type 0 where
  unreachable : Error → Answer
  no_reply : Answer
  replied : Bool → String → Answer

-- Client.ExecuteJob: the error that the answer stands for.
unfoldable pub answer_error : Answer → Option Error
answer_error (unreachable e) = some e
answer_error no_reply = some (wrapped "worker rejected job" (failure "rejected"))
answer_error (replied true message) = none
answer_error (replied false message) = some (wrapped "worker rejected job" (failure message))

unfoldable pub push_job : Env → Worker → QueuedJob → Answer → Act
push_job env w job answer s =
    let job' = record job { attempt = next_attempt job; execution_id = env.uuid } in
    (send (execute_job w.id job' env.uuid) s, answer_error answer)

unfoldable pub take_slot_at : String → Option Worker → Service → Service
take_slot_at id none s = s
take_slot_at id (some w) s = record s {
  workers = insert id (record w { active_jobs = w.active_jobs +ℤ pos 1 }) s.workers;
}

-- w.info.ActiveJobs++
unfoldable pub take_slot : Worker → Service → Service
take_slot w s = take_slot_at w.id (lookup w.id s.workers) s

-- From the update to RUNNING to the end.
unfoldable pub mark_running : Env → Worker → QueuedJob → Act
mark_running env w job = do
  try_set_job env.now job.job_id running (record no_fields { started_at = some env.now })
  succeed (emit job_started job.job_id env.uuid w.id (next_attempt job) [])
  succeed (take_slot w)

unfoldable pub assign_to : Env → Answer → QueuedJob → Option Worker → Act
assign_to env answer job none s = (s, some no_worker)
assign_to env answer job (some w) s =
    (do begin_assign env w job; push_job env w job answer; mark_running env w job) s

unfoldable pub handle_existing : Env → Answer → QueuedJob → Result Job → Act
handle_existing env answer job (err e) s = (s, some e)
handle_existing env answer job (ok existing) s =
    if is_queueable existing.state
    then assign_to env answer job (pick_worker env s) s
    else (s, none)

unfoldable pub handle_queued_job : Env → Answer → QueuedJob → Act
handle_queued_job env answer job s = handle_existing env answer job (get_job job.job_id s.store) s

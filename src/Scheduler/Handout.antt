-- ===== src/Scheduler/Handout.antt =====
-- internal/scheduler/scheduler.go: the steps of `handleQueuedJob`, for a job that is found.
use chronos_dev.Common.{
  String, true, false, [], none, some, ◌≡◌, refl, ◌∙◌, ap, if◌then◌else◌, lookup, insert,
  lookup-insert, eq_refl, arith, no_worker,
}
use chronos_dev.Domain.Job.{Job, JobState, assigned, running, QueuedJob, Instant}
use chronos_dev.Domain.Worker.{Worker}
use chronos_dev.Domain.Event.{job_assigned, job_started}
use chronos_dev.Store.Jobs.{Fields, no_fields, write_fields, get_job}
use chronos_dev.Store.Update.{update_job_state-found}
use chronos_dev.Store.Fleet.{create_execution}
use chronos_dev.Scheduler.State.{Service, Env, Act, ◌>>◌, resume, succeed, emit, send}
use chronos_dev.Scheduler.Assign.{
  Answer, answer_error, next_attempt, is_queueable, pick_worker, try_set_job, begin_assign,
  push_job, take_slot, take_slot_at, mark_running, assign_to, handle_existing, handle_queued_job,
  new_execution,
}
use chronos_dev.Scheduler.Writes.{job_at}

-- The write of an assignment to a job.
abbrev pub assignment : Env → Worker → QueuedJob → Job → Job
assignment env w job j =
    write_fields env.now assigned
      (record no_fields {
        worker_id = some w.id;
        execution_id = some env.uuid;
        attempt = some (next_attempt job);
      })
      j

abbrev pub started : Env → Job → Job
started env j = write_fields env.now running (record no_fields { started_at = some env.now }) j

-- The service with a job rewritten.
abbrev with_job : String → Job → Service → Service
with_job id j s = record s { store = record s.store { jobs = insert id j s.store.jobs } }

job_at-with_job : (id : String) (j : Job) (s : Service) → job_at id (with_job id j s) ≡ some j
job_at-with_job id j s = rw (lookup-insert, eq_refl id) refl

-- A write does not fail if the job is there.
try_set_job-found :
    (now : Instant) (id : String) (st : JobState) (f : Fields) (s : Service) (j : Job)
    → job_at id s ≡ some j
    → try_set_job now id st f s ≡ (with_job id (write_fields now st f j) s, none)
unfolding try_set_job
try_set_job-found now id st f s j h = rw (update_job_state-found now id st f s.store j h) refl

-- The service once the execution is made, and once the job is assigned.
abbrev with_execution : Env → Worker → QueuedJob → Service → Service
with_execution env w job s = record s {
  store =
      create_execution env.now env.uuid (new_execution env.uuid job.job_id (next_attempt job) w.id)
        s.store;
}

abbrev with_assignment : Env → Worker → QueuedJob → Job → Service → Service
with_assignment env w job j s =
    emit job_assigned job.job_id env.uuid w.id (next_attempt job) []
      (with_job job.job_id (assignment env w job j) (with_execution env w job s))

begin_assign-found :
    (env : Env) (w : Worker) (job : QueuedJob) (s : Service) (j : Job)
    → job_at job.job_id s ≡ some j
    → (begin_assign env w job s ≡ (with_assignment env w job j s, none))
      × (job_at job.job_id (with_assignment env w job j s) ≡ some (assignment env w job j))
unfolding begin_assign create_execution emit
begin_assign-found env w job s j h = (
  ap (resume (succeed (emit job_assigned job.job_id env.uuid w.id (next_attempt job) [])))
      (try_set_job-found env.now job.job_id assigned _ (with_execution env w job s) j h),
  job_at-with_job job.job_id (assignment env w job j) (with_execution env w job s),
)

push_job-jobs :
    (env : Env) (w : Worker) (job : QueuedJob) (answer : Answer) (s : Service)
    → ((push_job env w job answer s).0.store ≡ s.store)
      × ((push_job env w job answer s).1 ≡ answer_error answer)
unfolding push_job send
push_job-jobs env w job answer s = (refl, refl)

take_slot-store : (w : Worker) (s : Service) → (take_slot w s).store ≡ s.store
unfolding take_slot take_slot_at
take_slot-store w s = ground arith

pub mark_running-found :
    (env : Env) (w : Worker) (job : QueuedJob) (s : Service) (j : Job)
    → job_at job.job_id s ≡ some j
    → ((mark_running env w job s).1 ≡ none)
      × (job_at job.job_id (mark_running env w job s).0 ≡ some (started env j))
unfolding mark_running emit
mark_running-found env w job s j h =
    let rest : Act =
      succeed (emit job_started job.job_id env.uuid w.id (next_attempt job) [])
      >> succeed (take_slot w) in
    let done = ap (resume rest) (try_set_job-found env.now job.job_id running _ s j h) in
    (
      ap (λ x. x.1) done,
      ap (λ x. job_at job.job_id x.0) done
          ∙ (ap (λ x. lookup job.job_id x.jobs) (take_slot-store w _)
              ∙ job_at-with_job job.job_id (started env j) s),
    )

assign_to-found :
    (env : Env) (answer : Answer) (w : Worker) (job : QueuedJob) (s : Service) (j : Job)
    → job_at job.job_id s ≡ some j
    → assign_to env answer job (some w) s
      ≡ (push_job env w job answer >> mark_running env w job) (with_assignment env w job j s)
unfolding assign_to
assign_to-found env answer w job s j h =
    ap (resume (push_job env w job answer >> mark_running env w job))
      (begin_assign-found env w job s j h).0

handle_queued_job-found :
    (env : Env) (answer : Answer) (job : QueuedJob) (s : Service) (j : Job)
    → job_at job.job_id s ≡ some j
    → handle_queued_job env answer job s
      ≡ (if is_queueable j.state then assign_to env answer job (pick_worker env s) s else (s, none))
unfolding handle_queued_job handle_existing get_job
handle_queued_job-found env answer job s j h = rw h refl

-- The service once the push is sent.
abbrev pub pushed : Env → Answer → Worker → QueuedJob → Job → Service → Service
pushed env answer w job j s = (push_job env w job answer (with_assignment env w job j s)).0

pub handle_queued_job-picked :
    (env : Env) (answer : Answer) (w : Worker) (job : QueuedJob) (s : Service) (j : Job)
    → job_at job.job_id s ≡ some j
    → is_queueable j.state ≡ true
    → pick_worker env s ≡ some w
    → handle_queued_job env answer job s
      ≡ resume (mark_running env w job) (pushed env answer w job j s, answer_error answer)
unfolding push_job
handle_queued_job-picked env answer w job s j h e p =
    handle_queued_job-found env answer job s j h
    ∙ (rw (e, p) (assign_to-found env answer w job s j h))

pub pushed-found :
    (env : Env) (answer : Answer) (w : Worker) (job : QueuedJob) (s : Service) (j : Job)
    → job_at job.job_id s ≡ some j
    → job_at job.job_id (pushed env answer w job j s) ≡ some (assignment env w job j)
pushed-found env answer w job s j h =
    ap (λ x. lookup job.job_id x.jobs)
      (push_job-jobs env w job answer (with_assignment env w job j s)).0
    ∙ (begin_assign-found env w job s j h).1

-- A message for a job that is not waiting to be queued or assigned changes nothing, and is consumed.
pub handle_queued_job_skip :
    (env : Env) (answer : Answer) (job : QueuedJob) (s : Service) (j : Job)
    → job_at job.job_id s ≡ some j
    → is_queueable j.state ≡ false
    → handle_queued_job env answer job s ≡ (s, none)
handle_queued_job_skip env answer job s j h e =
    handle_queued_job-found env answer job s j h ∙ rw e refl

-- A message for a waiting job, when no worker can take it, changes nothing and ends with an error.
pub handle_queued_job_no_worker :
    (env : Env) (answer : Answer) (job : QueuedJob) (s : Service) (j : Job)
    → job_at job.job_id s ≡ some j
    → is_queueable j.state ≡ true
    → pick_worker env s ≡ none
    → handle_queued_job env answer job s ≡ (s, some no_worker)
unfolding assign_to
handle_queued_job_no_worker env answer job s j h e p =
    handle_queued_job-found env answer job s j h ∙ rw (e, p) refl

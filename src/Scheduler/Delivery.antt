-- ===== src/Scheduler/Delivery.antt =====
-- What becomes of a job that the queue delivers.
use chronos_dev.Common.{
  pos, ◌+ℤ◌, List, ◌∷◌, ◌⊎◌, inl, inr, Any, All, subst, values, Option-cases, String, true, false,
  [], none, some, ◌≡◌, refl, ◌∙◌, ap, Error,
}
use chronos_dev.Domain.Job.{
  Job, JobState, assigned, queued, scheduled, retrying, running, QueuedJob,
}
use chronos_dev.Domain.Worker.{Worker, is_assignable}
use chronos_dev.Store.Jobs.{write_fields}
use chronos_dev.Scheduler.State.{Service, Env, resume}
use chronos_dev.Scheduler.Assign.{
  Answer, replied, answer_error, is_queueable, pick_worker, mark_running, handle_queued_job,
}
use chronos_dev.Scheduler.Choice.{IsBest, pick_worker-IsBest}
use chronos_dev.Scheduler.Writes.{job_at}
use chronos_dev.Scheduler.Handout.{
  assignment, started, pushed, pushed-found, mark_running-found, handle_queued_job-picked,
  handle_queued_job_skip,
}

-- The states in which a job waits for a worker.
abbrev pub IsWaiting : JobState → Type 0
IsWaiting st = (st ≡ queued) ⊎ (st ≡ scheduled) ⊎ (st ≡ retrying)

IsWaiting-is_queueable : (st : JobState) → IsWaiting st → is_queueable st ≡ true
unfolding is_queueable
IsWaiting-is_queueable st (inl e) = rw e refl
IsWaiting-is_queueable st (inr (inl e)) = rw e refl
IsWaiting-is_queueable st (inr (inr e)) = rw e refl

-- The workers that the choice visits.
abbrev pub visited : Env → Service → List Worker
visited env s = values (env.visit_fleet s.workers)

-- The job `j'` is `j` handed to the worker, in the fresh execution and the attempt after the message's.
pub record IsHandedTo (env : Env) (w : Worker) (msg : QueuedJob) (j j' : Job) : Type 0 where
  pub worker : j'.worker_id ≡ w.id
  pub execution : j'.execution_id ≡ env.uuid
  pub attempt : j'.attempt ≡ msg.attempt +ℤ pos 1
  pub updated : j'.updated_at ≡ env.now
  pub rest :
      record j' {
        state = j.state;
        worker_id = j.worker_id;
        execution_id = j.execution_id;
        attempt = j.attempt;
        started_at = j.started_at;
        updated_at = j.updated_at;
      }
      ≡ j

assignment-IsHandedTo :
    (env : Env) (w : Worker) (msg : QueuedJob) (j : Job)
    → IsHandedTo env w msg j (assignment env w msg j)
unfolding write_fields
assignment-IsHandedTo env w msg j = record {
  worker = refl;
  execution = refl;
  attempt = refl;
  updated = refl;
  rest = refl;
}

started-IsHandedTo :
    (env : Env) (w : Worker) (msg : QueuedJob) (j : Job)
    → IsHandedTo env w msg j (started env (assignment env w msg j))
unfolding write_fields
started-IsHandedTo env w msg j = record {
  worker = refl;
  execution = refl;
  attempt = refl;
  updated = refl;
  rest = refl;
}

none-assignable :
    (ws : List Worker)
    → Any (λ w. is_assignable w ≡ true) ws
    → All (λ w. is_assignable w ≡ false) ws
    → ⊥
none-assignable [] h k = h
none-assignable (w ∷ ws) (inl e) k = cc (e, k.0)
none-assignable (w ∷ ws) (inr h) k = none-assignable ws h k.1

-- If some worker can take a job, the best one is picked.
picked :
    (env : Env) (s : Service)
    → Any (λ w. is_assignable w ≡ true) (visited env s)
    → (w : Worker) × (pick_worker env s ≡ some w) × IsBest (visited env s) (some w)
picked env s free = elim (Option-cases (pick_worker env s)) [
  | inl e ↦ absurd (
      none-assignable (visited env s) free
        (subst (IsBest (visited env s)) e (pick_worker-IsBest env s)))
  | inr (w, e) ↦ (w, e, subst (IsBest (visited env s)) e (pick_worker-IsBest env s))
]

-- A queued, scheduled or retrying job for which a visited worker is free, and which the worker accepts, runs:
-- it carries a worker with the fewest active jobs of those that can take one, the new execution, the
-- attempt after that of its message and the time of its start, and nothing else of it but the time of its
-- update is changed.
pub handle_queued_job_accepted :
    (env : Env) (message : String) (job : QueuedJob) (s : Service) (j : Job)
    → job_at job.job_id s ≡ some j
    → IsWaiting j.state
    → Any (λ w. is_assignable w ≡ true) (visited env s)
    → let after_it = handle_queued_job env (replied true message) job s in
      (w : Worker) × (j' : Job) × IsBest (visited env s) (some w)
      × (after_it.1 ≡ none)
      × (job_at job.job_id after_it.0 ≡ some j')
      × (j'.state ≡ running)
      × (j'.started_at ≡ some env.now)
      × IsHandedTo env w job j j'
unfolding answer_error write_fields
handle_queued_job_accepted env message job s j h waits free =
    let (w, p, best) = picked env s free in
    let run =
      handle_queued_job-picked env (replied true message) w job s j h
        (IsWaiting-is_queueable j.state waits) p in
    let done =
      mark_running-found env w job (pushed env (replied true message) w job j s)
        (assignment env w job j) (pushed-found env (replied true message) w job s j h) in
    (
      w,
      started env (assignment env w job j),
      best,
      ap (λ x. x.1) run ∙ done.0,
      ap (λ x. job_at job.job_id x.0) run ∙ done.1,
      refl,
      refl,
      started-IsHandedTo env w job j,
    )

-- A queued, scheduled or retrying job whose push to the worker fails is left assigned to a worker with the
-- fewest active jobs of those that can take one, in the new execution and the next attempt, with its time
-- of start as it was, and the handler ends with the push's error. While the job stands like that, any
-- later message for it changes nothing and ends without error.
pub handle_queued_job_stranded :
    (env later : Env) (answer reply : Answer) (job msg : QueuedJob) (s u : Service) (j : Job)
    (error : Error)
    → job_at job.job_id s ≡ some j
    → IsWaiting j.state
    → Any (λ w. is_assignable w ≡ true) (visited env s)
    → answer_error answer ≡ some error
    → msg.job_id ≡ job.job_id
    → job_at job.job_id u ≡ job_at job.job_id (handle_queued_job env answer job s).0
    → let after_it = handle_queued_job env answer job s in
      (w : Worker) × (j' : Job) × IsBest (visited env s) (some w)
      × (after_it.1 ≡ some error)
      × (job_at job.job_id after_it.0 ≡ some j')
      × (j'.state ≡ assigned)
      × (j'.started_at ≡ j.started_at)
      × IsHandedTo env w job j j'
      × (handle_queued_job later reply msg u ≡ (u, none))
unfolding write_fields is_queueable
handle_queued_job_stranded env later answer reply job msg s u j error h waits free a same stands =
    let (w, p, best) = picked env s free in
    let run =
      handle_queued_job-picked env answer w job s j h (IsWaiting-is_queueable j.state waits) p
      ∙ ap (λ x. resume (mark_running env w job) (pushed env answer w job j s, x)) a in
    let left = ap (λ x. job_at job.job_id x.0) run ∙ pushed-found env answer w job s j h in
    (
      w,
      assignment env w job j,
      best,
      ap (λ x. x.1) run,
      left,
      refl,
      refl,
      assignment-IsHandedTo env w job j,
      handle_queued_job_skip later reply msg u (assignment env w job j)
          (ap (λ id. job_at id u) same ∙ (stands ∙ left)) refl,
    )

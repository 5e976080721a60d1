-- ===== src/Scheduler/Ending.antt =====
-- How each end of a report treats the job of the report and the other jobs.
use chronos_dev.Common.{
  ℤ, ◌+ℤ◌, String, true, false, ◌&&◌, ◌||◌, [], ◌∷◌, none, some, ◌==◌, ◌≡◌, ◌≢◌, refl, ◌∙◌, sym, ap,
  if◌then◌else◌, lookup, lookup-insert, ne_false, Bool-cases, inl, inr, ◌⊎◌, arith, ltb_ℤ, Result,
  ok, err,
}
use chronos_dev.Domain.Job.{
  Job, JobState, completed, failed, cancelled, timed_out, retrying, cancel_requested, Instant,
  ExecutionResult, ExecutionState, reason_timeout, reason_cancelled, same_state, schedule_recurring,
  milliseconds,
}
use chronos_dev.Domain.Event.{job_completed, number}
use chronos_dev.Domain.Schedule.{next_run_at}
use chronos_dev.Store.Jobs.{Fields, no_fields, write_fields, create_job}
use chronos_dev.Scheduler.State.{Service, Env, emit, finish, set_job}
use chronos_dev.Scheduler.Backoff.{compute_backoff}
use chronos_dev.Scheduler.Report.{
  Report, retry_fields, occurrence, maybe_reschedule_recurring, set_retrying, end_cancelled,
  end_completed, end_timeout, end_failed, conclude, spawn, schedule_child,
}
use chronos_dev.Scheduler.Writes.{job_at, finish-jobs, job_at-set_job_self, job_at-set_job_other}

-- The state that a job is owed, by a result with its reason filled in, the attempt, and the job.
abbrev pub verdict : ExecutionResult → ℤ → Job → JobState
verdict res attempt job =
    if res.reason == reason_cancelled || same_state job.state cancel_requested
    then cancelled
    else if res.success
    then completed
    else if ltb_ℤ attempt job.max_attempts && (res.retryable || res.reason == reason_timeout)
    then retrying
    else if res.reason == reason_timeout
    then timed_out
    else failed

-- A job that is to be retried is free of its worker and has its time; one that has come to its end has
-- the time of that.
abbrev pub Again : Env → Report → Job → Job → Type 0
Again env r j j' =
    (j'.state ≡ retrying)
    × (j'.worker_id ≡ "")
    × (j'.execution_id ≡ "")
    × (j'.next_retry_at
        ≡ some (env.now +ℤ compute_backoff env.floats (env.draw r.job_id) j.retry_policy r.attempt))

abbrev pub Ended : Env → Job → Type 0
Ended env j' = (j'.state ≢ retrying) × (j'.completed_at ≡ some env.now)

pub record Judged (env : Env) (r : Report) (res : ExecutionResult) (j j' : Job) : Type 0 where
  pub state : j'.state ≡ verdict res r.attempt j
  pub fate : Again env r j j' ⊎ Ended env j'
  pub kept : (j'.id ≡ j.id) × (j'.attempt ≡ j.attempt) × (j'.max_attempts ≡ j.max_attempts)

-- What a step does to the job of a report, and to the others.
pub record Effect (env : Env) (id : String) (s t : Service) (new : Job) : Type 0 where
  pub self : job_at id t ≡ some new
  pub other : (k : String) → id ≢ k → env.uuid ≢ k → job_at k t ≡ job_at k s

spawn-other :
    (env : Env) (job : Job) (r : Result Instant) (s : Service) (k : String)
    → env.uuid ≢ k
    → job_at k (spawn env job r s) ≡ job_at k s
unfolding spawn schedule_child create_job occurrence emit
spawn-other env job (err e) s k h = refl
spawn-other env job (ok next) s k h = rw (lookup-insert, ne_false env.uuid k h)

maybe_reschedule-other :
    (env : Env) (job : Job) (s : Service) (k : String)
    → env.uuid ≢ k
    → job_at k (maybe_reschedule_recurring env job s) ≡ job_at k s
unfolding maybe_reschedule_recurring
maybe_reschedule-other env job s k h =
    elim (Bool-cases (job.schedule.schedule_type == schedule_recurring)) [
      | inl e ↦ rw e (spawn-other env job (next_run_at env.cron job.schedule env.now) s k h)
      | inr e ↦ rw e refl
    ]

-- A step that ends in the write of a state, whatever events and executions it writes before and after.
module _ (env : Env) (r : Report) (res : ExecutionResult) (s : Service) (j : Job)
    (h : job_at r.job_id s ≡ some j) where
  through_finish :
      (st : ExecutionState) (k : String)
      → job_at k (finish env.now r.execution_id st res s) ≡ job_at k s
  through_finish st k = ap (λ m. lookup k m) (finish-jobs env.now r.execution_id st res s).0

  write-Effect :
      (st : ExecutionState) (state : JobState) (f : Fields) (t : Service)
      → t.store ≡ (set_job env.now r.job_id state f (finish env.now r.execution_id st res s)).store
      → Effect env r.job_id s t (write_fields env.now state f j)
  write-Effect st state f t e = record {
    self =
        ap (λ x. lookup r.job_id x.jobs) e
        ∙ job_at-set_job_self env.now r.job_id state f _ j (through_finish st r.job_id ∙ h);
    other = λ k p _.
        ap (λ x. lookup k x.jobs) e
        ∙ (job_at-set_job_other env.now r.job_id k state f _ p ∙ through_finish st k);
  }

  -- What `conclude` owes.
  abbrev pub Concluded : Service → Type 0
  Concluded t = (new : Job) × Effect env r.job_id s t new × Judged env r res j new

  end-Judged :
      (state : JobState) (f : Fields)
      → verdict res r.attempt j ≡ state
      → state ≢ retrying
      → f.completed_at ≡ some env.now
      → f.attempt ≡ none
      → Judged env r res j (write_fields env.now state f j)
  unfolding write_fields
  end-Judged state f v ne done keep = record {
    state = sym v;
    fate = inr (ne, rw done refl);
    kept = (refl, rw keep refl, refl);
  }

  retry-Judged :
      (error : String)
      → verdict res r.attempt j ≡ retrying
      → let next =
          env.now +ℤ compute_backoff env.floats (env.draw r.job_id) j.retry_policy r.attempt in
        Judged env r res j (write_fields env.now retrying (retry_fields next error) j)
  unfolding write_fields
  retry-Judged error v = record {
    state = sym v;
    fate = inl (refl, refl, refl, refl);
    kept = (refl, refl, refl);
  }

  cancelled-Concluded :
      (res.reason == reason_cancelled || same_state j.state cancel_requested) ≡ true
      → Concluded (end_cancelled env r res s)
  unfolding end_cancelled emit
  cancelled-Concluded e = (
    _,
    write-Effect _ _ _ (end_cancelled env r res s) refl,
    end-Judged _ _ (rw e refl) (λ q. cc) refl refl,
  )

  completed-Concluded :
      (res.reason == reason_cancelled || same_state j.state cancel_requested) ≡ false
      → res.success ≡ true
      → env.uuid ≢ r.job_id
      → Concluded (end_completed env r res j s)
  unfolding end_completed emit
  completed-Concluded e f new_id =
      let fields : Fields = record no_fields { completed_at = some env.now } in
      let t =
        emit job_completed r.job_id r.execution_id r.worker_id r.attempt
          (number "duration_ms" (milliseconds res.duration) ∷ [])
          (set_job env.now r.job_id completed fields
            (finish env.now r.execution_id ExecutionState.completed res s)) in
      let before = write-Effect ExecutionState.completed completed fields t refl in
      (
        write_fields env.now completed fields j,
        record {
          self = maybe_reschedule-other env j t r.job_id new_id ∙ before.self;
          other = λ k p q. maybe_reschedule-other env j t k q ∙ before.other k p q;
        },
        end-Judged completed fields (rw (e, f) refl) (λ q. cc) refl refl,
      )

  timeout-Concluded :
      (res.reason == reason_cancelled || same_state j.state cancel_requested) ≡ false
      → res.success ≡ false
      → (res.reason == reason_timeout) ≡ true
      → Concluded (end_timeout env r res j s)
  unfolding end_timeout emit set_retrying set_job
  timeout-Concluded e f g = elim (Bool-cases (ltb_ℤ r.attempt j.max_attempts)) [
    | inl more ↦ rw more (
      _,
      write-Effect ExecutionState.timed_out retrying _ _ refl,
      retry-Judged "timeout" (ground (arith, more, e, f, g)),
    )
    | inr last ↦ rw last (
      _,
      write-Effect ExecutionState.timed_out timed_out _ _ refl,
      end-Judged timed_out _ (ground (arith, last, e, f, g)) (λ q. cc) refl refl,
    )
  ]

  failed-Concluded :
      (res.reason == reason_cancelled || same_state j.state cancel_requested) ≡ false
      → res.success ≡ false
      → (res.reason == reason_timeout) ≡ false
      → Concluded (end_failed env r res j s)
  unfolding end_failed emit set_retrying set_job
  failed-Concluded e f g = elim (Bool-cases (res.retryable && ltb_ℤ r.attempt j.max_attempts)) [
    | inl more ↦ rw more (
      _,
      write-Effect ExecutionState.failed retrying _ _ refl,
      retry-Judged res.error (ground (arith, more, e, f, g)),
    )
    | inr last ↦ rw last (
      _,
      write-Effect ExecutionState.failed failed _ _ refl,
      end-Judged failed _ (ground (arith, last, e, f, g)) (λ q. cc) refl refl,
    )
  ]

  pub conclude-Concluded : env.uuid ≢ r.job_id → Concluded (conclude env r res j s)
  unfolding conclude
  conclude-Concluded new_id =
      elim (Bool-cases (res.reason == reason_cancelled || same_state j.state cancel_requested)) [
        | inl e ↦ rw e (cancelled-Concluded e)
        | inr e ↦ rw e (elim (Bool-cases res.success) [
          | inl f ↦ simp f (completed-Concluded e f new_id)
          | inr f ↦ simp f (elim (Bool-cases (res.reason == reason_timeout)) [
            | inl g ↦ simp g (timeout-Concluded e f g)
            | inr g ↦ simp g (failed-Concluded e f g)
          ])
        ])
      ]

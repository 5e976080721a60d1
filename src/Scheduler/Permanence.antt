-- ===== src/Scheduler/Permanence.antt =====
-- A whole tick, on a job that is over.
use chronos_dev.Common.{
  pos, String, true, false, List, [], ◌∷◌, ◌==◌, ◌≡◌, ◌≢◌, refl, if◌then◌else◌, All-append,
  Bool-cases, inl, inr, Result, ok, err, ltb_ℤ,
}
use chronos_dev.Domain.Job.{
  Job, JobState, running, assigned, cancel_requested, same_state, state_name, ExecutionResult,
  ExecutionState,
}
use chronos_dev.Store.Listing.{
  is_due, list_due_scheduled, is_timed_out, list_timed_out_running, list_cancel_requested,
  has_state, list_jobs, or_fifty,
}
use chronos_dev.Store.Jobs.{Fields}
use chronos_dev.Store.Fleet.{mark_stale_workers}
use chronos_dev.Scheduler.State.{Service, Env, emit, set_job, finish, push_cancel}
use chronos_dev.Scheduler.Assign.{promote_due_jobs}
use chronos_dev.Scheduler.Report.{
  Report, is_terminal, handle_result, handle_job, conclude, with_reason, end_cancelled, end_timeout,
  set_retrying,
}
use chronos_dev.Scheduler.Cancel.{push_pending_cancels}
use chronos_dev.Scheduler.Recovery.{
  timeout_result, timeout_report, time_out, time_out_all, watchdog_timeouts, worker_lost,
  recover_job, recover_all, recover_worker_jobs, drop_worker, drop_all, check_workers,
}
use chronos_dev.Scheduler.Tick.{tick}
use chronos_dev.Scheduler.Writes.{push_cancel-store}
use chronos_dev.Scheduler.Verdict.{prepared, prepared-store}
use chronos_dev.Scheduler.Finality.{
  IsSound, Keeps, Others, IsValid-same, store-Keeps, set_job-Keeps, finish-Keeps, collect-Others,
  collect_due-Others,
}
use chronos_dev.Scheduler.Survival.{
  ended-is_due, ended-same_state, ended-is_timed_out, ended-has_state, promote_all-Keeps,
  push_all-Keeps,
}

module _ (env : Env) (k : String) (j : Job) where
  -- A write to another job after the end of an execution, whatever events are emitted around it.
  write-Keeps :
      (ex id : String) (st : ExecutionState) (res : ExecutionResult) (state : JobState) (f : Fields)
      (s t : Service)
      → id ≢ k
      → t.store ≡ (set_job env.now id state f (finish env.now ex st res s)).store
      → Keeps k j s
      → Keeps k j t
  write-Keeps ex id st res state f s t other e h = store-Keeps k j _ t e (
      set_job-Keeps k j env.now id state f (finish env.now ex st res s) other
        (finish-Keeps k j env.now ex st res s h))

  timeout-Keeps :
      (r : Report) (res : ExecutionResult) (x : Job) (s : Service)
      → r.job_id ≢ k
      → Keeps k j s
      → Keeps k j (end_timeout env r res x s)
  unfolding end_timeout set_retrying set_job emit
  timeout-Keeps r res x s other h = elim (Bool-cases (ltb_ℤ r.attempt x.max_attempts)) [
    | inl e ↦ rw e (write-Keeps r.execution_id r.job_id _ res _ _ s _ other refl h)
    | inr e ↦ rw e (write-Keeps r.execution_id r.job_id _ res _ _ s _ other refl h)
  ]

  cancelled-Keeps :
      (r : Report) (res : ExecutionResult) (s : Service)
      → r.job_id ≢ k
      → Keeps k j s
      → Keeps k j (end_cancelled env r res s)
  unfolding end_cancelled set_job emit
  cancelled-Keeps r res s other h = write-Keeps r.execution_id r.job_id _ res _ _ s _ other refl h

  -- The report of the watchdog is one of a timeout.
  conclude-Keeps :
      (x y : Job) (s : Service)
      → x.id ≢ k
      → Keeps k j s
      → Keeps k j (conclude env (timeout_report x) (timeout_result x) y s)
  unfolding conclude
  conclude-Keeps x y s other h = elim (Bool-cases (same_state y.state cancel_requested)) [
    | inl e ↦ rw e (cancelled-Keeps (timeout_report x) (timeout_result x) s other h)
    | inr e ↦ rw e (timeout-Keeps (timeout_report x) (timeout_result x) y s other h)
  ]

  handle_job-Keeps :
      (x : Job) (found : Result Job) (s : Service)
      → x.id ≢ k
      → Keeps k j s
      → Keeps k j (handle_job env (timeout_report x) (timeout_result x) found s).0
  unfolding handle_job
  handle_job-Keeps x (err e) s other h = h
  handle_job-Keeps x (ok y) s other h = elim (Bool-cases (is_terminal y.state)) [
    | inl e ↦ rw e h
    | inr e ↦ rw e (conclude-Keeps x y s other h)
  ]

  handle_result-Keeps :
      (x : Job) (s : Service)
      → x.id ≢ k
      → Keeps k j s
      → Keeps k j (handle_result env (timeout_report x) s).0
  unfolding handle_result with_reason
  handle_result-Keeps x s other h =
      handle_job-Keeps x _ (prepared (timeout_report x) s) other
        (store-Keeps k j s _ (prepared-store (timeout_report x) s) h)

  asked-Keeps :
      (x : Job) (s : Service)
      → Keeps k j s
      → Keeps k j (if x.worker_id == "" then s else push_cancel x.worker_id x.id x.execution_id s)
  asked-Keeps x s h = elim (Bool-cases (x.worker_id == "")) [
    | inl e ↦ rw e h
    | inr e ↦ rw e (store-Keeps k j s _ (push_cancel-store x.worker_id x.id x.execution_id s) h)
  ]

  time_out_all-Keeps :
      (xs : List Job) (s : Service) → Others k xs → Keeps k j s → Keeps k j (time_out_all env xs s)
  unfolding time_out_all time_out
  time_out_all-Keeps [] s others h = h
  time_out_all-Keeps (x ∷ xs) s others h =
      time_out_all-Keeps xs _ others.1 (handle_result-Keeps x _ others.0 (asked-Keeps x s h))

  recover_job-Keeps :
      (worker_id : String) (x : Job) (s : Service)
      → x.id ≢ k
      → Keeps k j s
      → Keeps k j (recover_job env worker_id x s)
  unfolding recover_job set_retrying set_job emit
  recover_job-Keeps worker_id x s other h =
      elim (Bool-cases (same_state x.state cancel_requested)) [
        | inl e ↦ rw e (write-Keeps x.execution_id x.id _ worker_lost _ _ s _ other refl h)
        | inr e ↦ rw e (elim (Bool-cases (ltb_ℤ x.attempt x.max_attempts)) [
          | inl f ↦ rw f (write-Keeps x.execution_id x.id _ worker_lost _ _ s _ other refl h)
          | inr f ↦ rw f (write-Keeps x.execution_id x.id _ worker_lost _ _ s _ other refl h)
        ])
      ]

  recover_all-Keeps :
      (worker_id : String) (xs : List Job) (s : Service)
      → Others k xs
      → Keeps k j s
      → Keeps k j (recover_all env worker_id xs s)
  unfolding recover_all
  recover_all-Keeps worker_id [] s others h = h
  recover_all-Keeps worker_id (x ∷ xs) s others h =
      recover_all-Keeps worker_id xs _ others.1 (elim (Bool-cases (x.worker_id == worker_id)) [
        | inl e ↦ rw e (recover_job-Keeps worker_id x s others.0 h)
        | inr e ↦ rw e h
      ])

module _ (env : Env) (sound : IsSound env.visit_jobs) (k : String) (j : Job)
    (ended : is_terminal j.state ≡ true) where
  list_jobs-Others :
      (st : JobState) (s : Service)
      → has_state (state_name st) j ≡ false
      → Keeps k j s
      → Others k (list_jobs env.visit_jobs (state_name st) (pos 1000) s.store)
  unfolding list_jobs
  list_jobs-Others st s no_match h =
      collect-Others env.visit_jobs sound (has_state (state_name st)) (or_fifty (pos 1000)) k j s h
        no_match

  recover_worker_jobs-Keeps :
      (id : String) (s : Service) → Keeps k j s → Keeps k j (recover_worker_jobs env id s)
  unfolding recover_worker_jobs
  recover_worker_jobs-Keeps id s h =
      let (a, b, c) = ended-has_state j ended in
      store-Keeps k j (recover_all env id _ s) _ refl (
        recover_all-Keeps env k j id _ s
          (All-append _ _ _
            (All-append _ _ _ (list_jobs-Others running s a h) (list_jobs-Others assigned s b h))
            (list_jobs-Others cancel_requested s c h))
          h)

  drop_all-Keeps : (ids : List String) (s : Service) → Keeps k j s → Keeps k j (drop_all env ids s)
  unfolding drop_all drop_worker emit
  drop_all-Keeps [] s h = h
  drop_all-Keeps (id ∷ ids) s h =
      drop_all-Keeps ids _ (recover_worker_jobs-Keeps id _ (store-Keeps k j s _ refl h))

  check_workers-Keeps : (s : Service) → Keeps k j s → Keeps k j (check_workers env s)
  unfolding check_workers mark_stale_workers
  check_workers-Keeps s h =
      drop_all-Keeps _ _
        record { valid = IsValid-same s.store _ refl refl h.valid; found = h.found }

  promote_due_jobs-Keeps : (s : Service) → Keeps k j s → Keeps k j (promote_due_jobs env s)
  unfolding promote_due_jobs list_due_scheduled
  promote_due_jobs-Keeps s h =
      promote_all-Keeps env k j _ s
        (collect_due-Others env.visit_jobs sound (is_due env.now) s.cfg.assign_batch_size k j s h
          (ended-is_due env.now j ended))
        h

  push_pending_cancels-Keeps : (s : Service) → Keeps k j s → Keeps k j (push_pending_cancels env s)
  unfolding push_pending_cancels list_cancel_requested
  push_pending_cancels-Keeps s h =
      push_all-Keeps env k j _ s
        (collect-Others env.visit_jobs sound (λ x. same_state x.state cancel_requested)
          (or_fifty s.cfg.assign_batch_size) k j s h (ended-same_state j ended))
        h

  watchdog_timeouts-Keeps : (s : Service) → Keeps k j s → Keeps k j (watchdog_timeouts env s)
  unfolding watchdog_timeouts list_timed_out_running
  watchdog_timeouts-Keeps s h =
      time_out_all-Keeps env k j _ s
        (collect-Others env.visit_jobs sound (is_timed_out env.now)
          (or_fifty s.cfg.assign_batch_size) k j s h (ended-is_timed_out env.now j ended))
        h

-- A tick of the scheduler on a valid store leaves a job that is over just as it was, and the store valid,
-- if a loop over the jobs visits only entries of their map.
pub tick-Keeps :
    (env : Env) (k : String) (j : Job) (s : Service)
    → IsSound env.visit_jobs
    → is_terminal j.state ≡ true
    → Keeps k j s
    → Keeps k j (tick env s)
unfolding tick
tick-Keeps env k j s sound ended h = check_workers-Keeps env sound k j ended _ (
    watchdog_timeouts-Keeps env sound k j ended _ (
      push_pending_cancels-Keeps env sound k j ended _
        (promote_due_jobs-Keeps env sound k j ended s h)))

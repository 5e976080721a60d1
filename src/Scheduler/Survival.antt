-- ===== src/Scheduler/Survival.antt =====
-- The steps of a tick, on a job that is over.
use chronos_dev.Common.{
  String, true, false, List, [], ◌∷◌, ◌==◌, ◌≡◌, ◌≢◌, refl, ◌∙◌, Bool-cases, inl, inr, arith,
  Result, ok, err, eq_iff, ite,
}
use chronos_dev.Domain.Job.{
  Job, JobState, Instant, running, assigned, cancel_requested, same_state, state_name, completed,
  failed, cancelled, timed_out, expired, JobState-discrete,
}
use chronos_dev.Queue.{Queue}
use chronos_dev.Store.Listing.{is_due, is_timed_out, has_state}
use chronos_dev.Store.Jobs.{Fields}
use chronos_dev.Store.Update.{lookup-update_job_state_if}
use chronos_dev.Store.Idempotency.{update_job_state_if-IsValid}
use chronos_dev.Scheduler.State.{Service, Env, emit, set_job, set_job_if}
use chronos_dev.Scheduler.Assign.{promote_enqueued, promote, promote_all}
use chronos_dev.Scheduler.Report.{is_terminal}
use chronos_dev.Scheduler.Cancel.{ask_cancel, push_pending, push_all}
use chronos_dev.Scheduler.Writes.{add_pending_cancel-store, push_cancel-store}
use chronos_dev.Scheduler.Finality.{Keeps, Others, store-Keeps, set_job-Keeps}

apart : (a b : JobState) → is_terminal a ≡ true → is_terminal b ≡ false → same_state a b ≡ false
apart a b p q = elim (JobState-discrete a b) as (λ d. ite d true false ≡ false) [
  | yes e ↦ absurd (cc)
  | no n ↦ refl
]

-- A job that is over is none of those that the listings look for.
pub ended-is_due : (now : Instant) (j : Job) → is_terminal j.state ≡ true → is_due now j ≡ false
unfolding is_terminal is_due
ended-is_due now j h = by_state j.state h refl
  where
    by_state : (st : JobState) → is_terminal st ≡ true → j.state ≡ st → is_due now j ≡ false
    by_state completed h e = simp e refl
    by_state failed h e = simp e refl
    by_state cancelled h e = simp e refl
    by_state timed_out h e = simp e refl
    by_state expired h e = simp e refl
    by_state _ h e = absurd (cc)

pub ended-same_state :
    (j : Job) → is_terminal j.state ≡ true → same_state j.state cancel_requested ≡ false
unfolding is_terminal
ended-same_state j h = apart j.state cancel_requested h refl

pub ended-is_timed_out :
    (now : Instant) (j : Job) → is_terminal j.state ≡ true → is_timed_out now j ≡ false
unfolding is_terminal is_timed_out
ended-is_timed_out now j h = rw (apart j.state running h refl, apart j.state assigned h refl) refl

pub ended-has_state :
    (j : Job)
    → is_terminal j.state ≡ true
    → (has_state (state_name running) j ≡ false)
      × (has_state (state_name assigned) j ≡ false)
      × (has_state (state_name cancel_requested) j ≡ false)
unfolding is_terminal has_state state_name
ended-has_state j h = by_state j.state h refl
  where
    by_state :
        (st : JobState)
        → is_terminal st ≡ true
        → j.state ≡ st
        → (has_state "RUNNING" j ≡ false)
          × (has_state "ASSIGNED" j ≡ false)
          × (has_state "CANCEL_REQUESTED" j ≡ false)
    by_state completed h e = simp e (refl, refl, refl)
    by_state failed h e = simp e (refl, refl, refl)
    by_state cancelled h e = simp e (refl, refl, refl)
    by_state timed_out h e = simp e (refl, refl, refl)
    by_state expired h e = simp e (refl, refl, refl)
    by_state _ h e = absurd (cc)

module _ (env : Env) (k : String) (j : Job) where
  set_job_if-Keeps :
      (id : String) (st : JobState) (f : Fields) (from : List JobState) (s : Service)
      → id ≢ k
      → Keeps k j s
      → Keeps k j (set_job_if env.now id st f from s)
  unfolding set_job_if
  set_job_if-Keeps id st f from s other h = record {
    valid = update_job_state_if-IsValid env.now id st f from s.store h.valid;
    found =
        ground
          (arith, lookup-update_job_state_if env.now id k st f from s.store, eq_iff id k, h.found);
  }

  promote_enqueued-Keeps :
      (x : Job) (r : Result Queue) (s : Service)
      → x.id ≢ k
      → Keeps k j s
      → Keeps k j (promote_enqueued env x r s)
  unfolding promote_enqueued emit
  promote_enqueued-Keeps x (err e) s other h = h
  promote_enqueued-Keeps x (ok q) s other h =
      let t : Service = record s { queue = q } in
      store-Keeps k j (set_job_if env.now x.id _ _ _ t) _ refl
        (set_job_if-Keeps x.id _ _ _ t other (store-Keeps k j s t refl h))

  pub promote_all-Keeps :
      (xs : List Job) (s : Service) → Others k xs → Keeps k j s → Keeps k j (promote_all env xs s)
  unfolding promote_all promote
  promote_all-Keeps [] s others h = h
  promote_all-Keeps (x ∷ xs) s others h =
      promote_all-Keeps xs _ others.1 (promote_enqueued-Keeps x _ s others.0 h)

  pub ask_cancel-Keeps :
      (id : String) (x : Job) (s : Service) → Keeps k j s → Keeps k j (ask_cancel id x s)
  unfolding ask_cancel
  ask_cancel-Keeps id x s h =
      store-Keeps k j s _
        (push_cancel-store x.worker_id id x.execution_id _
          ∙ add_pending_cancel-store x.worker_id id s)
        h

  pub push_all-Keeps :
      (xs : List Job) (s : Service) → Others k xs → Keeps k j s → Keeps k j (push_all env xs s)
  unfolding push_all push_pending emit
  push_all-Keeps [] s others h = h
  push_all-Keeps (x ∷ xs) s others h =
      push_all-Keeps xs _ others.1 (elim (Bool-cases (x.worker_id == "")) [
        | inl e ↦ rw e (
            store-Keeps k j (set_job env.now x.id _ _ s) _ refl
              (set_job-Keeps k j env.now x.id _ _ s others.0 h))
        | inr e ↦ rw e (ask_cancel-Keeps x.id x s h)
      ])

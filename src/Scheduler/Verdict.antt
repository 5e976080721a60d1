-- ===== src/Scheduler/Verdict.antt =====
-- What a reported result does to the jobs.
use chronos_dev.Common.{
  String, true, false, none, some, ◌≡◌, ◌≢◌, refl, ◌∙◌, sym, ap, subst, if◌then◌else◌, lookup,
  Bool-cases, Option-cases, inl, inr, ◌⊎◌, List, [], ◌∷◌, All, All-map, arith, not_found,
}
use chronos_dev.Domain.Job.{Job, JobState, completed, failed, cancelled, timed_out, expired}
use chronos_dev.Store.Jobs.{get_job}
use chronos_dev.Scheduler.State.{Service, Env, clear_pending_cancel}
use chronos_dev.Scheduler.Report.{
  Report, release_at, release_slot, with_reason, is_terminal, conclude, handle_result, handle_job,
}
use chronos_dev.Scheduler.Writes.{job_at, release_slot-store, clear_pending_cancel-store}
use chronos_dev.Scheduler.Ending.{Judged, conclude-Concluded}

-- The state in which `HandleResult` looks the job up.
abbrev pub prepared : Report → Service → Service
prepared r s = clear_pending_cancel r.worker_id r.job_id (release_slot r.worker_id s)

pub prepared-store : (r : Report) (s : Service) → (prepared r s).store ≡ s.store
prepared-store r s =
    clear_pending_cancel-store r.worker_id r.job_id _ ∙ release_slot-store r.worker_id s

handle_result-found :
    (env : Env) (r : Report) (s : Service) (j : Job)
    → job_at r.job_id s ≡ some j
    → handle_result env r s ≡ (
      if is_terminal j.state
          then prepared r s
          else conclude env r (with_reason r.result) j (prepared r s),
      none,
    )
unfolding handle_result handle_job get_job
handle_result-found env r s j h = rw (prepared-store r s, h) refl

found_prepared : (r : Report) (s : Service) (k : String) → job_at k (prepared r s) ≡ job_at k s
found_prepared r s k = ap (λ st. lookup k st.jobs) (prepared-store r s)

handle_result-open :
    (env : Env) (r : Report) (s : Service) (j : Job)
    → job_at r.job_id s ≡ some j
    → is_terminal j.state ≡ false
    → handle_result env r s ≡ (conclude env r (with_reason r.result) j (prepared r s), none)
handle_result-open env r s j h open_ = handle_result-found env r s j h ∙ rw open_ refl

-- A result for a job that is not at its end gives that job the state of the verdict: cancelled if the
-- result says so or a cancellation was requested, else completed on success, else to be retried while
-- the attempt is below the maximum and the result is a timeout or can be retried, else timed out or
-- failed. A job to be retried is free of its worker and has the time of the retry, any other has the time
-- of its end. The fresh identifier must differ from the job's.
pub handle_result-Judged :
    (env : Env) (r : Report) (s : Service) (j : Job)
    → job_at r.job_id s ≡ some j
    → is_terminal j.state ≡ false
    → env.uuid ≢ r.job_id
    → (j' : Job) × (job_at r.job_id (handle_result env r s).0 ≡ some j')
      × Judged env r (with_reason r.result) j j'
      × ((handle_result env r s).1 ≡ none)
handle_result-Judged env r s j h open_ new_id =
    let (j', effect, judged) =
      conclude-Concluded env r (with_reason r.result) (prepared r s) j
        (found_prepared r s r.job_id ∙ h) new_id in
    let result = handle_result-open env r s j h open_ in
    (j', ap (λ x. job_at r.job_id x.0) result ∙ effect.self, judged, ap (λ x. x.1) result)

handle_result-other_open :
    (env : Env) (r : Report) (s : Service) (j : Job) (k : String)
    → job_at r.job_id s ≡ some j
    → is_terminal j.state ≡ false
    → env.uuid ≢ r.job_id
    → r.job_id ≢ k
    → env.uuid ≢ k
    → job_at k (handle_result env r s).0 ≡ job_at k s
handle_result-other_open env r s j k h open_ new_id p q =
    let (j', effect, judged) =
      conclude-Concluded env r (with_reason r.result) (prepared r s) j
        (found_prepared r s r.job_id ∙ h) new_id in
    ap (λ x. job_at k x.0) (handle_result-open env r s j h open_)
    ∙ (effect.other k p q ∙ found_prepared r s k)

prepared-rest :
    (r : Report) (s : Service)
    → ((prepared r s).queue ≡ s.queue) × ((prepared r s).emitted ≡ s.emitted)
unfolding clear_pending_cancel release_slot release_at
prepared-rest r s = ground arith

handle_result-missing :
    (env : Env) (r : Report) (s : Service)
    → job_at r.job_id s ≡ none
    → handle_result env r s ≡ (prepared r s, some not_found)
unfolding handle_result handle_job get_job
handle_result-missing env r s h = rw (prepared-store r s, h) refl

-- The store, the queue and the events are as they were.
abbrev pub Quiet : Service → Service → Type 0
Quiet s t = (t.store ≡ s.store) × (t.queue ≡ s.queue) × (t.emitted ≡ s.emitted)

prepared-Quiet : (r : Report) (s : Service) → Quiet s (prepared r s)
prepared-Quiet r s = (prepared-store r s, (prepared-rest r s).0, (prepared-rest r s).1)

handle_result-ended :
    (env : Env) (r : Report) (s : Service) (j : Job)
    → job_at r.job_id s ≡ some j
    → is_terminal j.state ≡ true
    → handle_result env r s ≡ (prepared r s, none)
handle_result-ended env r s j h ended = handle_result-found env r s j h ∙ rw ended refl

-- The five states in which a job is at its end.
abbrev pub IsEnd : JobState → Type 0
IsEnd st = (st ≡ completed) ⊎ (st ≡ failed) ⊎ (st ≡ cancelled) ⊎ (st ≡ timed_out) ⊎ (st ≡ expired)

IsEnd-is_terminal : (st : JobState) → IsEnd st → is_terminal st ≡ true
unfolding is_terminal
IsEnd-is_terminal st (inl e) = rw e refl
IsEnd-is_terminal st (inr (inl e)) = rw e refl
IsEnd-is_terminal st (inr (inr (inl e))) = rw e refl
IsEnd-is_terminal st (inr (inr (inr (inl e)))) = rw e refl
IsEnd-is_terminal st (inr (inr (inr (inr e)))) = rw e refl

-- Reports taken one after the other.
abbrev pub report_all : List (Env × Report) → Service → Service
report_all [] s = s
report_all (x ∷ xs) s = report_all xs (handle_result x.0 x.1 s).0

-- The report's job is in the service, at its end.
abbrev pub IsLate : Service → Env × Report → Type 0
IsLate s x = (j : Job) × (job_at x.1.job_id s ≡ some j) × IsEnd j.state

late-Quiet :
    (s : Service) (x : Env × Report)
    → IsLate s x
    → Quiet s (handle_result x.0 x.1 s).0 × ((handle_result x.0 x.1 s).1 ≡ none)
late-Quiet s x (j, h, end_) =
    let step = handle_result-ended x.0 x.1 s j h (IsEnd-is_terminal j.state end_) in
    subst (λ y. Quiet s y.0 × (y.1 ≡ none)) (sym step) (prepared-Quiet x.1 s, refl)

Quiet-IsLate : (s t : Service) (x : Env × Report) → Quiet s t → IsLate s x → IsLate t x
Quiet-IsLate s t x q (j, h, end_) = (j, ap (λ st. lookup x.1.job_id st.jobs) q.0 ∙ h, end_)

Quiet-trans : (s t u : Service) → Quiet s t → Quiet t u → Quiet s u
Quiet-trans s t u p q = (q.0 ∙ p.0, q.1 ∙ p.1, q.2 ∙ p.2)

-- Results that come late, each for a job that is completed, failed, cancelled, timed out or expired, leave
-- the store, the queue and the events as they are, whatever they say and however many came before, and are
-- no errors.
pub handle_result-Quiet :
    (env : Env) (r : Report) (xs : List (Env × Report)) (s : Service)
    → All (IsLate s) xs
    → IsLate s (env, r)
    → Quiet s (handle_result env r (report_all xs s)).0
      × ((handle_result env r (report_all xs s)).1 ≡ none)
handle_result-Quiet env r [] s hs h = late-Quiet s (env, r) h
handle_result-Quiet env r (x ∷ xs) s hs h =
    let t = (handle_result x.0 x.1 s).0 in
    let first = (late-Quiet s x hs.0).0 in
    let (rest, fine) =
      handle_result-Quiet env r xs t (All-map _ _ (λ y. Quiet-IsLate s t y first) xs hs.1)
        (Quiet-IsLate s t (env, r) first h) in
    (Quiet-trans s t (handle_result env r (report_all xs t)).0 first rest, fine)

-- A result for one job leaves every other job as it was, whatever the state of the first. The fresh
-- identifier must differ from both.
pub handle_result-other :
    (env : Env) (r : Report) (s : Service) (k : String)
    → env.uuid ≢ r.job_id
    → r.job_id ≢ k
    → env.uuid ≢ k
    → job_at k (handle_result env r s).0 ≡ job_at k s
handle_result-other env r s k new_id p q = elim (Option-cases (job_at r.job_id s)) [
  | inl gone ↦ ap (λ x. job_at k x.0) (handle_result-missing env r s gone) ∙ found_prepared r s k
  | inr (j, h) ↦ elim (Bool-cases (is_terminal j.state)) [
    | inl ended ↦
        ap (λ x. job_at k x.0) (handle_result-ended env r s j h ended) ∙ found_prepared r s k
    | inr open_ ↦ handle_result-other_open env r s j k h open_ new_id p q
  ]
]

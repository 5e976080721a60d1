-- ===== src/Scheduler/Finality.antt =====
-- A job that is over stays as it is through a tick of the scheduler.
use chronos_dev.Common.{
  ℤ, pos, String, Bool, true, false, List, [], ◌∷◌, ◌++◌, some, ◌≡◌, ◌≢◌, ◌∙◌, sym, ap, subst,
  lookup, Map, Visit, All, All-append, All-map, Bool-cases, inl, inr, arith, leb_ℤ, length,
}
use chronos_dev.Domain.Job.{Job, JobState, Instant, ExecutionState, ExecutionResult}
use chronos_dev.Store.State.{Store}
use chronos_dev.Store.Jobs.{Fields, update_job_state}
use chronos_dev.Store.Listing.{collect, collect_due}
use chronos_dev.Store.Idempotency.{IsValid, update_job_state_if-IsValid}
use chronos_dev.Scheduler.State.{Service, set_job, finish}
use chronos_dev.Scheduler.Writes.{job_at, finish-jobs, job_at-set_job_other}

-- What is known of a `range` loop over the jobs: each entry that it visits is one of the map.
abbrev pub IsSound : Visit Job → Type 0
IsSound visit = (m : Map Job) → All (λ e. lookup e.0 m ≡ some e.1) (visit m)

-- The store is valid and has the job.
pub record Keeps (k : String) (j : Job) (s : Service) : Type 0 where
  pub valid : IsValid s.store
  pub found : job_at k s ≡ some j

pub IsValid-same : (s t : Store) → t.jobs ≡ s.jobs → t.by_idem ≡ s.by_idem → IsValid s → IsValid t
IsValid-same s t p q v = record {
  keyed = λ id j h. v.keyed id j (subst (λ m. lookup id m ≡ some j) p h);
  indexed = λ key id h.
      let (j, at_, has) = v.indexed key id (subst (λ m. lookup key m ≡ some id) q h) in
      (j, subst (λ m. lookup id m ≡ some j) (sym p) at_, has);
}

module _ (k : String) (j : Job) where
  pub store-Keeps : (s t : Service) → t.store ≡ s.store → Keeps k j s → Keeps k j t
  store-Keeps s t e h = record {
    valid = subst IsValid (sym e) h.valid;
    found = ap (λ x. lookup k x.jobs) e ∙ h.found;
  }

  pub set_job-Keeps :
      (now : Instant) (id : String) (st : JobState) (f : Fields) (s : Service)
      → id ≢ k
      → Keeps k j s
      → Keeps k j (set_job now id st f s)
  unfolding set_job update_job_state
  set_job-Keeps now id st f s other h = record {
    valid = update_job_state_if-IsValid now id st f [] s.store h.valid;
    found = job_at-set_job_other now id k st f s other ∙ h.found;
  }

  pub finish-Keeps :
      (now : Instant) (id : String) (st : ExecutionState) (res : ExecutionResult) (s : Service)
      → Keeps k j s
      → Keeps k j (finish now id st res s)
  finish-Keeps now id st res s h =
      let (same_jobs, same_keys) = finish-jobs now id st res s in
      record {
        valid = IsValid-same s.store (finish now id st res s).store same_jobs same_keys h.valid;
        found = ap (lookup k) same_jobs ∙ h.found;
      }

-- A listing has only jobs that pass its test.
module _ (Q : Job → Type 0) (p : Job → Bool) (limit : ℤ) where
  collect-All :
      (out : List Job) (m : List (String × Job))
      → All Q out
      → All (λ e. p e.1 ≡ true → Q e.1) m
      → All Q (collect p limit out m)
  unfolding collect
  collect-All out [] h g = h
  collect-All out ((i, x) ∷ m) h g = elim (Bool-cases (p x)) [
    | inl e ↦
        let more = All-append Q out (x ∷ []) h (g.0 e, tt) in
        rw e (elim (Bool-cases (leb_ℤ limit (pos (length (out ++ (x ∷ [])))))) [
          | inl full ↦ rw full more
          | inr room ↦ rw room (collect-All (out ++ (x ∷ [])) m more g.1)
        ])
    | inr e ↦ rw e (collect-All out m h g.1)
  ]

  collect_due-All :
      (out : List Job) (m : List (String × Job))
      → All Q out
      → All (λ e. p e.1 ≡ true → Q e.1) m
      → All Q (collect_due p limit out m)
  unfolding collect_due
  collect_due-All out [] h g = h
  collect_due-All out ((i, x) ∷ m) h g = elim (Bool-cases (p x)) [
    | inl e ↦
        let more = All-append Q out (x ∷ []) h (g.0 e, tt) in
        rw e (elim (Bool-cases (leb_ℤ limit (pos (length (out ++ (x ∷ [])))))) [
          | inl full ↦ rw full more
          | inr room ↦ rw room (collect_due-All (out ++ (x ∷ [])) m more g.1)
        ])
    | inr e ↦ rw e (elim (Bool-cases (leb_ℤ limit (pos (length out)))) [
      | inl full ↦ rw full h
      | inr room ↦ rw room (collect_due-All out m h g.1)
    ])
  ]

-- None of the jobs listed is the one with the identifier.
abbrev pub Others : String → List Job → Type 0
Others k xs = All (λ x. x.id ≢ k) xs

module _ (visit : Visit Job) (sound : IsSound visit) (p : Job → Bool) (limit : ℤ) (k : String)
    (j : Job) (s : Service) (h : Keeps k j s) (out_ : p j ≡ false) where
  entry_other : (e : String × Job) → lookup e.0 s.store.jobs ≡ some e.1 → p e.1 ≡ true → e.1.id ≢ k
  entry_other e at_ passes same =
      absurd (ground (arith, at_, passes, same, out_, h.found, h.valid.keyed e.0 e.1 at_))

  pub collect-Others : Others k (collect p limit [] (visit s.store.jobs))
  collect-Others =
      collect-All (λ x. x.id ≢ k) p limit [] (visit s.store.jobs) tt
        (All-map _ _ entry_other (visit s.store.jobs) (sound s.store.jobs))

  pub collect_due-Others : Others k (collect_due p limit [] (visit s.store.jobs))
  collect_due-Others =
      collect_due-All (λ x. x.id ≢ k) p limit [] (visit s.store.jobs) tt
        (All-map _ _ entry_other (visit s.store.jobs) (sound s.store.jobs))

-- ===== src/Store/Update.antt =====
-- What an update changes: one job, if its state allows it.
use chronos_dev.Common.{
  String, Bool, List, [], Option, none, some, ◌==◌, eq_iff, ◌≡◌, refl, if◌then◌else◌, lookup,
  insert, lookup-insert, map_option, Option-cases, inl, inr, true, false, ◌⊎◌, sym, ◌∙◌, after, ok,
  err, not_found, arith,
}
use chronos_dev.Domain.Job.{Job, JobState, Instant}
use chronos_dev.Store.State.{Store}
use chronos_dev.Store.Jobs.{Fields, write_fields, allowed, update_job_state_if, update_job_state}

-- The job as the update leaves it.
abbrev pub updated : Instant → JobState → Fields → List JobState → Job → Job
updated now state f only_from j =
    if allowed j.state only_from then write_fields now state f j else j

-- After an update each other job is as before, the job itself is rewritten if it exists and its state
-- is allowed, and no job is made.
pub lookup-update_job_state_if :
    (now : Instant) (id k : String) (state : JobState) (f : Fields) (only_from : List JobState)
    (s : Store)
    → lookup k (after s (update_job_state_if now id state f only_from s)).jobs ≡ (
        if id == k
        then map_option (updated now state f only_from) (lookup k s.jobs)
        else lookup k s.jobs)
unfolding update_job_state_if
lookup-update_job_state_if now id k state f only_from s = elim (Option-cases (lookup id s.jobs)) [
  | inl e ↦ ground (arith, e, eq_iff id k)
  | inr (j, e) ↦
      ground (arith, e, eq_iff id k, lookup-insert id k (write_fields now state f j) s.jobs)
]

pub lookup-update_job_state :
    (now : Instant) (id k : String) (state : JobState) (f : Fields) (s : Store)
    → lookup k (after s (update_job_state now id state f s)).jobs ≡ (
        if id == k
        then map_option (write_fields now state f) (lookup k s.jobs)
        else lookup k s.jobs)
unfolding update_job_state
lookup-update_job_state now id k state f s = lookup-update_job_state_if now id k state f [] s

-- A job after an update was one before it: the same, or the one that the update rewrote.
pub update_back :
    (now : Instant) (id k : String) (state : JobState) (f : Fields) (only_from : List JobState)
    (s : Store) (j : Job)
    → lookup k (after s (update_job_state_if now id state f only_from s)).jobs ≡ some j
    → (i : Job) × (lookup k s.jobs ≡ some i) × ((j ≡ i) ⊎ (j ≡ updated now state f only_from i))
update_back now id k state f only_from s j h =
    back (id == k) (lookup k s.jobs)
      (sym (lookup-update_job_state_if now id k state f only_from s) ∙ h)
  where
    back :
        (b : Bool) (o : Option Job)
        → (if b then map_option (updated now state f only_from) o else o) ≡ some j
        → (i : Job) × (o ≡ some i) × ((j ≡ i) ⊎ (j ≡ updated now state f only_from i))
    back true none e = absurd (cc)
    back true (some i) e = (i, refl, inr (cc))
    back false o e = (j, e, inl refl)

-- And the other way round: no job is lost.
pub update_forth :
    (now : Instant) (id k : String) (state : JobState) (f : Fields) (only_from : List JobState)
    (s : Store) (i : Job)
    → lookup k s.jobs ≡ some i
    → (j : Job) × (lookup k (after s (update_job_state_if now id state f only_from s)).jobs
        ≡ some j)
      × ((j ≡ i) ⊎ (j ≡ updated now state f only_from i))
update_forth now id k state f only_from s i h =
    rw (lookup-update_job_state_if now id k state f only_from s, h) (forth (id == k))
  where
    forth :
        (b : Bool)
        → (j : Job) × ((if b then some (updated now state f only_from i) else some i) ≡ some j)
          × ((j ≡ i) ⊎ (j ≡ updated now state f only_from i))
    forth true = (updated now state f only_from i, refl, inr refl)
    forth false = (i, refl, inl refl)

-- Nothing else in the store changes.
pub update_rest :
    (now : Instant) (id : String) (state : JobState) (f : Fields) (only_from : List JobState)
    (s : Store)
    → let t = after s (update_job_state_if now id state f only_from s) in
      (t.by_idem ≡ s.by_idem) × (t.workers ≡ s.workers) × (t.outbox ≡ s.outbox)
unfolding update_job_state_if
update_rest now id state f only_from s = elim (Option-cases (lookup id s.jobs)) [
  | inl e ↦ ground (arith, e)
  | inr (j, e) ↦ ground (arith, e)
]

pub update_job_state-found :
    (now : Instant) (id : String) (state : JobState) (f : Fields) (s : Store) (j : Job)
    → lookup id s.jobs ≡ some j
    → update_job_state now id state f s
      ≡ ok (record s { jobs = insert id (write_fields now state f j) s.jobs })
unfolding update_job_state update_job_state_if
update_job_state-found now id state f s j h = rw h refl

pub update_job_state-missing :
    (now : Instant) (id : String) (state : JobState) (f : Fields) (s : Store)
    → lookup id s.jobs ≡ none
    → update_job_state now id state f s ≡ err not_found
unfolding update_job_state update_job_state_if
update_job_state-missing now id state f s h = rw h refl

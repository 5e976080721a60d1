-- ===== src/Store/Jobs.antt =====
-- internal/store/memory/store.go: creating, reading and updating jobs. Fresh identifiers and the
-- clock are arguments.
use chronos_dev.Common.{
  ℤ, String, Bool, true, false, List, [], ◌∷◌, Option, none, some, ◌==◌, if◌then◌else◌, lookup,
  insert, Result, ok, err, not_found, nil_dereference, or_error, ◌>>=◌, ◌||◌,
}
use chronos_dev.Domain.Job.{Job, JobState, same_state, Instant}
use chronos_dev.Store.State.{Store}

-- `fields`: a key is missing, or it has a value of the type that the store asks for.
pub record Fields : Type 0 where
  pub worker_id : Option String
  pub execution_id : Option String
  pub last_error : Option String
  pub attempt : Option ℤ
  pub queued_at : Option Instant
  pub started_at : Option Instant
  pub completed_at : Option Instant
  pub next_retry_at : Option Instant
  pub scheduled_at : Option Instant

abbrev pub no_fields : Fields
no_fields = record {
  worker_id = none;
  execution_id = none;
  last_error = none;
  attempt = none;
  queued_at = none;
  started_at = none;
  completed_at = none;
  next_retry_at = none;
  scheduled_at = none;
}

-- The job that the caller holds becomes a copy of the stored one; a missing one is a nil pointer.
abbrev pub copy_stored : Option Job → Store → Result (Job × Store)
copy_stored none s = err nil_dereference
copy_stored (some j) s = ok (j, s)

abbrev pub stamped : Instant → String → Job → Job
stamped now uuid job = record job {
  id = if job.id == "" then uuid else job.id;
  created_at = now;
  updated_at = now;
}

unfoldable pub put_job : Job → Store → Result (Job × Store)
put_job job s = ok (job, record s { jobs = insert job.id job s.jobs })

unfoldable pub create_keyed : Job → Option String → Store → Result (Job × Store)
unfolding put_job
create_keyed job none s =
    put_job job (record s { by_idem = insert job.idempotency_key job.id s.by_idem })
create_keyed job (some id) s = copy_stored (lookup id s.jobs) s

-- The caller's job after the call, and the new store.
unfoldable pub create_job : Instant → String → Job → Store → Result (Job × Store)
unfolding put_job create_keyed
create_job now uuid job s =
    let job' = stamped now uuid job in
    if job'.idempotency_key == ""
    then put_job job' s
    else create_keyed job' (lookup job'.idempotency_key s.by_idem) s

unfoldable pub get_job : String → Store → Result Job
get_job id s = or_error not_found (lookup id s.jobs)

-- The inner `none` is the nil pointer for an index entry with no job.
unfoldable pub get_job_by_idempotency_key : String → Store → Result (Option Job)
get_job_by_idempotency_key key s = do
  id ← or_error not_found (lookup key s.by_idem)
  ok (lookup id s.jobs)

abbrev or_else {ℓ} : {A : Type ℓ} → Option A → A → A
or_else none a = a
or_else (some b) a = b

abbrev or_old {ℓ} : {A : Type ℓ} → Option A → Option A → Option A
or_old none o = o
or_old (some b) o = some b

-- The writes of `UpdateJobStateIf` to a job.
unfoldable pub write_fields : Instant → JobState → Fields → Job → Job
write_fields now state f j = record j {
  state = state;
  updated_at = now;
  worker_id = or_else f.worker_id j.worker_id;
  execution_id = or_else f.execution_id j.execution_id;
  last_error = or_else f.last_error j.last_error;
  attempt = or_else f.attempt j.attempt;
  queued_at = or_old f.queued_at j.queued_at;
  started_at = or_old f.started_at j.started_at;
  completed_at = or_old f.completed_at j.completed_at;
  next_retry_at = or_old f.next_retry_at j.next_retry_at;
  scheduled_at = or_old f.scheduled_at j.scheduled_at;
}

-- The loop over `onlyFrom`.
unfoldable pub listed : JobState → List JobState → Bool
listed st [] = false
listed st (x ∷ xs) = same_state st x || listed st xs

abbrev pub allowed : JobState → List JobState → Bool
allowed st [] = true
allowed st (x ∷ xs) = listed st (x ∷ xs)

unfoldable pub update_job_state_if :
    Instant → String → JobState → Fields → List JobState → Store → Result Store
unfolding write_fields listed
update_job_state_if now id state fields only_from s = do
  j ← or_error not_found (lookup id s.jobs)
  ok (
      if allowed j.state only_from
      then record s { jobs = insert id (write_fields now state fields j) s.jobs }
      else s)

unfoldable pub update_job_state : Instant → String → JobState → Fields → Store → Result Store
unfolding update_job_state_if
update_job_state now id state fields s = update_job_state_if now id state fields [] s

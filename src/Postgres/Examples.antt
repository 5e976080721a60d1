-- ===== src/Postgres/Examples.antt =====
-- The laws of the store on a database, at a database with one job and a worker.
use mathlib.Core.List.Perm
use chronos_dev.Common.{
  ◌≤ℤ◌, String, List, Perm, arith, values, insert, pos, true, [], ◌∷◌, none, some, ◌≡◌, refl,
  lookup, ok, after, ◌*ℤ◌,
}
use chronos_dev.Domain.Job.{
  Job, Instant, scheduled, queued, retrying, cancelled, cancel_requested, milliseconds,
  same_state_refl,
}
use chronos_dev.Common.{ℕ, ◌++◌, inl, subst, ap, int32, ◌==◌, if◌then◌else◌}
use chronos_dev.Domain.Event.{Event}
use chronos_dev.Store.Outbox.{one_of}
use chronos_dev.Postgres.Journal.{
  Entry, entry_of, insert_outbox, fetch_outbox_batch, mark_outbox_published,
}
use chronos_dev.Postgres.Pending.{pending, oldest_first, pending-laws}
use chronos_dev.Domain.Samples.{sample_job, sample_worker}
use chronos_dev.Store.State.{Store, empty}
use chronos_dev.Store.Jobs.{
  stamped, put_job, create_keyed, no_fields, write_fields, create_job as create_in_memory,
  update_job_state_if as update_in_memory, listed, allowed,
}
use chronos_dev.Store.Fleet.{mark_stale_workers as mark_in_memory}
use chronos_dev.Postgres.{
  ColumnTypes, timestamp, checks, Database, new_database, create_job, update_job_state_if,
  mark_stale_workers,
}
use chronos_dev.Postgres.Simulation.{
  Refines, IsPlain, empty-Refines, db_with, store_with, keyed-Refines,
}
use chronos_dev.Store.Idempotency.{empty-IsValid, create_job-IsValid}
use chronos_dev.Store.Listing.{list_due_scheduled as due_in_memory}
use chronos_dev.Postgres.Queries.{
  is_ready, list_jobs, list_due_scheduled, list_cancel_requested, list_timed_out_running,
}
use chronos_dev.Sql.Ordering.{IsListing, IsPage}
use chronos_dev.Postgres.Ranking.{IsAsked, NoneLast, IsOverdue, IsMoreUrgent, IsReady}
use chronos_dev.Postgres.Listings.{listings-IsPage}
use chronos_dev.Postgres.Due.{list_due_scheduled-same}
use chronos_dev.Postgres.Creation.{create_job-Refines}
use chronos_dev.Postgres.Races.{IsKept, problem, update_job_state_if-Refines}
use chronos_dev.Postgres.Sweep.{mark_stale_workers-same}

-- A job that was not worked on yet.
abbrev uuid_1 : String
uuid_1 = "0b0e8400-e29b-41d4-a716-446655440000"

abbrev fresh_job : Job
fresh_job = record (sample_job uuid_1 scheduled) {
  timeout = pos 10_000_000;
  worker_id = "";
  execution_id = "";
  scheduled_at = some (pos 5_000);
  started_at = none;
}

-- A database that meets one UUID, and JSON that is written as it gives it back.
abbrev types : ColumnTypes
types = record {
  uuid = λ text. if text == uuid_1 then some text else none;
  json = λ text. some text;
}

abbrev start : Instant
start = pos 1_700_000_000_000_000

fresh_job-IsPlain : IsPlain types start fresh_job
unfolding milliseconds ◌*ℤ◌ timestamp checks int32
fresh_job-IsPlain = record {
  ranked = refl;
  checks_hold = refl;
  filled = refl;
  payload = refl;
  timeout = refl;
  scheduled_at = refl;
  clock = refl;
  idle = refl;
}

create_job-Refines_example :
    (j : Job) × (db : Database) × (s : Store) × (create_job types start "u1" fresh_job new_database
      ≡ ok (j, db))
    × (create_in_memory start "u1" fresh_job empty ≡ ok (j, s))
    × Refines db s
unfolding empty lookup
create_job-Refines_example =
    create_job-Refines types start "u1" fresh_job new_database empty empty-Refines fresh_job-IsPlain
      refl refl

abbrev stored_job : Job
stored_job = stamped start "u1" fresh_job

abbrev one_row : Database
one_row = db_with stored_job new_database

abbrev one_job : Store
one_job = store_with stored_job (insert "k1" uuid_1 empty.by_idem) empty

creates : create_in_memory start "u1" fresh_job empty ≡ ok (stored_job, one_job)
unfolding create_in_memory create_keyed put_job empty lookup insert
creates = refl

one_row-Refines : Refines one_row one_job
unfolding empty lookup
one_row-Refines =
    keyed-Refines stored_job new_database empty empty-Refines refl refl (λ e. absurd (cc))
      (create_job-IsValid start "u1" fresh_job empty one_job stored_job refl creates empty-IsValid)

abbrev later : Instant
later = pos 1_700_000_000_001_000

keeps :
    (j : Job)
    → lookup uuid_1 one_job.jobs ≡ some j
    → IsKept types (write_fields later queued no_fields j)
unfolding lookup empty insert write_fields timestamp checks int32
keeps j h =
    subst (λ x. IsKept types (write_fields later queued no_fields x)) (some-same stored_job j h)
      record {
        checks_hold = refl;
        execution = inl refl;
        queued_at = refl;
        started_at = refl;
        completed_at = refl;
        next_retry_at = refl;
        scheduled_at = refl;
        updated_at = refl;
      }
  where
    some-same : (a b : Job) → some a ≡ some b → a ≡ b
    some-same a b e = ap (λ o. elim o [ none ↦ a | some x ↦ x ]) e

-- The job is taken out of its schedule.
update_job_state_if-Refines_example :
    let on_database =
      update_job_state_if types later uuid_1 queued no_fields (scheduled ∷ []) one_row in
    let in_memory = update_in_memory later uuid_1 queued no_fields (scheduled ∷ []) one_job in
    (problem on_database ≡ problem in_memory)
    × Refines (after one_row on_database) (after one_job in_memory)
update_job_state_if-Refines_example =
    update_job_state_if-Refines types later uuid_1 queued no_fields (scheduled ∷ []) one_row one_job
      one_row-Refines refl keeps

abbrev due_row : String → Job
due_row id = record (sample_job id scheduled) { scheduled_at = some (pos 5) }

abbrev due_rows : Database
due_rows = record {
  jobs = ("j1", due_row "j1") ∷ ("j2", record (due_row "j2") { priority = pos 9 }) ∷ [];
  workers = [];
}

-- The more urgent job stands first.
listings-IsPage_example :
    IsListing
      (λ a b. b.created_at ≤ℤ a.created_at)
      (IsAsked "QUEUED")
      50
      (values due_rows.jobs)
      (list_jobs (λ m. m) "QUEUED" (pos 0) due_rows)
    × IsListing
        (λ a b. a.updated_at ≤ℤ b.updated_at)
        (λ j. j.state ≡ cancel_requested)
        50
        (values due_rows.jobs)
        (list_cancel_requested (λ m. m) (pos 0) due_rows)
    × IsListing
        (λ a b. NoneLast a.started_at b.started_at)
        (IsOverdue (pos 9))
        50
        (values due_rows.jobs)
        (list_timed_out_running (λ m. m) (pos 9) (pos 0) due_rows)
    × ((out : List Job) × (list_due_scheduled (λ m. m) (pos 9) (pos 1) due_rows ≡ ok out)
        × IsListing IsMoreUrgent (IsReady (pos 9)) 1 (values due_rows.jobs) out)
listings-IsPage_example = listings-IsPage (λ m. m) (pos 9) "QUEUED" (pos 0) 1 due_rows

list_due_scheduled-same_example :
    (out : List Job) × (list_due_scheduled (λ m. m) (pos 9) (pos 2) due_rows ≡ ok out)
    × Perm out (due_in_memory (λ m. m) (pos 9) (pos 2) (record empty { jobs = due_rows.jobs }))
unfolding is_ready
list_due_scheduled-same_example =
    list_due_scheduled-same (λ m. m) (λ m. m) (pos 9) 1 due_rows
      (record empty { jobs = due_rows.jobs }) (λ m. Perm.rfl) (λ m. Perm.rfl) Perm.rfl
      (ground (arith, same_state_refl scheduled))

abbrev cancelled_row : Database
cancelled_row = record {
  jobs = ("j1", sample_job "j1" cancelled) ∷ [];
  workers = ("w1", sample_worker "w1" 0) ∷ [];
}

may_queue : allowed scheduled (scheduled ∷ retrying ∷ []) ≡ true
unfolding listed
may_queue = rw (same_state_refl scheduled) refl

abbrev one_worker : Store
one_worker = record {
  jobs = [];
  by_idem = [];
  executions = [];
  workers = ("w1", sample_worker "w1" 0) ∷ [];
  outbox = [];
}

mark_stale_workers-same_example :
    (mark_stale_workers (pos 100) (pos 20) (pos 10) cancelled_row).workers
    ≡ (mark_in_memory (λ m. m) (pos 100) (pos 20) (pos 10) one_worker).store.workers
mark_stale_workers-same_example =
    mark_stale_workers-same (λ m. m) (pos 100) (pos 20) (pos 10) cancelled_row one_worker refl

abbrev entry_at : String → ℕ → Entry
entry_at id n = record {
  row = record {
    id = id;
    event_type = "JOB_CREATED";
    aggregate_id = "j1";
    payload = "{}";
    created_at = pos n;
  };
  published_at = none;
}

-- Two rows, the later one first.
abbrev two_entries : List Entry
two_entries = entry_at "e2" 9 ∷ entry_at "e1" 5 ∷ []

pending-laws_example :
    ((event : Event) (table : List Entry)
      → insert_outbox (λ event. "{}") event two_entries ≡ ok table
      → pending table ≡ two_entries ++ (entry_of (λ event. "{}") event ∷ []))
    × (pending (mark_outbox_published (pos 10) ("e1" ∷ []) two_entries) ≡ entry_at "e2" 9 ∷ [])
    × IsPage oldest_first 1 two_entries (fetch_outbox_batch 1 two_entries)
unfolding one_of
pending-laws_example = pending-laws (λ event. "{}") (pos 10) ("e1" ∷ []) 1 two_entries

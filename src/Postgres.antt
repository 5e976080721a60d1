-- ===== src/Postgres.antt =====
-- internal/store/postgres/store.go: the job store on a database, as far as jobs and the sweep of the
-- workers go. A table is a map from its primary key to the row as it is read back, and each SQL statement
-- is the function on tables that it states, with the types and the CHECK of migrations/001_init.sql; a
-- failing connection is not modelled.
pub mod Tables
pub mod Simulation
pub mod Creation
pub mod Races
pub mod Sweep
pub mod Queries
pub mod Ranking
pub mod Listings
pub mod Due
pub mod Journal
pub mod Pending
mod Examples
use chronos_dev.Common.{
  ℕ, ℤ, pos, ◌*ℤ◌, ◌+ℤ◌, ◌-ℤ◌, String, Bool, true, false, not, ◌&&◌, ◌||◌, List, [], ◌∷◌, Option,
  none, some, ◌==◌, if◌then◌else◌, Map, lookup, insert, map_values, map_option, ◌+◌, negsuc, ◌*◌,
  ◌/◌, int32, Result, ok, err, failure, not_found, or_error, ◌>>=◌, eqb_ℤ, ltb_ℤ, leb_ℤ,
}
use chronos_dev.Domain.Job.{Job, JobState, Instant, Duration, millisecond, milliseconds}
use chronos_dev.Domain.Worker.{
  Worker, WorkerStatus, suspected, unavailable, is_healthy, is_suspected,
}
use chronos_dev.Store.Jobs.{Fields, write_fields, allowed}

pub record Database : Type 0 where
  pub jobs : Map Job
  pub workers : Map Worker

unfoldable pub new_database : Database
new_database = record { jobs = []; workers = [] }

-- The job as `CreateJob` completes it.
unfoldable pub completed_job : Instant → String → Job → Job
completed_job now uuid job = record job {
  id = if job.id == "" then uuid else job.id;
  created_at = now;
  updated_at = now;
  priority = if eqb_ℤ job.priority (pos 0) then pos 5 else job.priority;
}

-- What the database reads in a text for a column of type UUID or JSONB, and gives back for it later; it
-- refuses other texts.
pub record ColumnTypes : Type 0 where
  pub uuid : String → Option String
  pub json : String → Option String

abbrev read_text : Option String → Result String
read_text none = err (failure "invalid input syntax")
read_text (some text) = ok text

-- A column of type UUID that may be NULL, for which the empty text stands.
abbrev read_uuid_or_null : ColumnTypes → String → Result String
read_uuid_or_null types text = if text == "" then ok "" else read_text (types.uuid text)

-- INT
abbrev pub fits_int : ℤ → Bool
fits_int z = eqb_ℤ (int32 z) z

-- TIMESTAMPTZ keeps whole microseconds.
unfoldable pub timestamp : Instant → Instant
timestamp (pos n) = pos (n / 1000 * 1000)
timestamp (negsuc n) = negsuc (n / 1000 * 1000 + 999)

-- CHECK (type IN ('builtin', 'webhook')), and the columns of type INT.
unfoldable pub checks : Job → Bool
checks job =
    (job.job_type == "builtin" || job.job_type == "webhook")
    && fits_int job.priority
    && fits_int job.attempt
    && fits_int job.max_attempts

unfoldable pub checked : Job → Result Job
checked job = if checks job then ok job else err (failure "value refused by the table")

-- The row that INSERT makes, as `scanJob` reads it: no payload stands for an empty object, the timeout is kept in milliseconds, and the columns
-- that the statement does not name are empty.
unfoldable pub row_of : ColumnTypes → Job → Result Job
row_of types job = do
  id ← read_text (types.uuid job.id)
  payload ← read_text (types.json (if job.payload == "" then "{}" else job.payload))
  checked (record job {
    id = id;
    payload = payload;
    timeout = milliseconds job.timeout *ℤ pos millisecond;
    scheduled_at = map_option timestamp job.scheduled_at;
    created_at = timestamp job.created_at;
    updated_at = timestamp job.updated_at;
    worker_id = "";
    execution_id = "";
    last_error = "";
    queued_at = none;
    started_at = none;
    completed_at = none;
    next_retry_at = none;
  })

-- SELECT … WHERE idempotency_key = $1
unfoldable pub find_key : String → Map Job → Option Job
find_key key [] = none
find_key key ((id, j) ∷ m) = if j.idempotency_key == key then some j else find_key key m

unfoldable pub insert_new : Job → Option Job → Map Job → Result (Map Job)
insert_new row none m = ok (insert row.id row m)
insert_new row (some old) m = err (failure "duplicate key")

unfoldable pub insert_unless : Job → Option Job → Map Job → Result (Map Job)
insert_unless row none m = insert_new row (lookup row.id m) m
insert_unless row (some old) m = ok m

-- INSERT … ON CONFLICT (idempotency_key) WHERE … <> '' DO NOTHING
unfoldable pub insert_row : Job → Map Job → Result (Map Job)
insert_row row m =
    if row.idempotency_key == ""
    then insert_new row (lookup row.id m) m
    else insert_unless row (find_key row.idempotency_key m) m

unfoldable pub insert_job : ColumnTypes → Job → Map Job → Result (Map Job)
insert_job types job m = do row ← row_of types job; insert_row row m

-- The job that the caller is left with.
unfoldable pub existing_or : Job → Option Job → Job
existing_or job none = job
existing_or job (some existing) = if existing.id == job.id then job else existing

unfoldable pub create_job :
    ColumnTypes → Instant → String → Job → Database → Result (Job × Database)
create_job types now uuid job db = do
  let job' : Job = completed_job now uuid job
  jobs ← insert_job types job' db.jobs
  ok (
    if job'.idempotency_key == ""
        then job'
        else existing_or job' (find_key job'.idempotency_key jobs),
    record db { jobs = jobs },
  )

unfoldable pub get_job : ColumnTypes → String → Database → Result Job
get_job types id db = do key ← read_text (types.uuid id); or_error not_found (lookup key db.jobs)

unfoldable pub get_job_by_idempotency_key : String → Database → Result Job
get_job_by_idempotency_key key db = or_error not_found (find_key key db.jobs)

-- The values that UPDATE is given, as the columns keep them.
unfoldable pub column_values : ColumnTypes → Job → Result Job
column_values types job = do
  id ← read_text (types.uuid job.id)
  execution_id ← read_uuid_or_null types job.execution_id
  checked (record job {
    id = id;
    execution_id = execution_id;
    queued_at = map_option timestamp job.queued_at;
    started_at = map_option timestamp job.started_at;
    completed_at = map_option timestamp job.completed_at;
    next_retry_at = map_option timestamp job.next_retry_at;
    scheduled_at = map_option timestamp job.scheduled_at;
    updated_at = timestamp job.updated_at;
  })

-- The columns that UPDATE sets.
unfoldable pub set_columns : Job → Job → Job
set_columns new row = record row {
  state = new.state;
  worker_id = new.worker_id;
  execution_id = new.execution_id;
  last_error = new.last_error;
  attempt = new.attempt;
  queued_at = new.queued_at;
  started_at = new.started_at;
  completed_at = new.completed_at;
  next_retry_at = new.next_retry_at;
  scheduled_at = new.scheduled_at;
  updated_at = new.updated_at;
}

unfoldable pub update_at : String → Job → Option Job → Map Job → Map Job
update_at id new none m = m
update_at id new (some row) m = insert id (set_columns new row) m

-- UPDATE jobs SET … WHERE id=$1
unfoldable pub update_row : ColumnTypes → Job → Database → Result Database
update_row types new db = do
  values ← column_values types new
  ok (record db { jobs = update_at values.id values (lookup values.id db.jobs) db.jobs })

-- `UpdateJobStateIf`: the job is read, the state tested, and the row written by a statement of its own.
unfoldable pub write_back :
    ColumnTypes → Instant → JobState → Fields → List JobState → Job → Database → Result Database
write_back types now state fields only_from job db =
    if allowed job.state only_from
    then update_row types (write_fields now state fields job) db
    else ok db

unfoldable pub update_job_state_if :
    ColumnTypes → Instant → String → JobState → Fields → List JobState → Database → Result Database
update_job_state_if types now id state fields only_from db = do
  job ← get_job types id db
  write_back types now state fields only_from job db

-- UPDATE workers SET status='UNAVAILABLE' WHERE status IN ('HEALTHY','SUSPECTED') AND …
unfoldable pub to_unavailable : Instant → Worker → Worker
to_unavailable dead_before w =
    if (is_healthy w.status || is_suspected w.status) && ltb_ℤ w.last_heartbeat dead_before
    then record w { status = unavailable }
    else w

-- UPDATE workers SET status='SUSPECTED' WHERE status='HEALTHY' AND …
unfoldable pub to_suspected : Instant → Instant → Worker → Worker
to_suspected suspect_before dead_before w =
    if is_healthy w.status
      && ltb_ℤ w.last_heartbeat suspect_before
      && leb_ℤ dead_before w.last_heartbeat
    then record w { status = suspected }
    else w

-- The two statements of `MarkStaleWorkers`, on one reading of the clock.
unfoldable pub mark_stale_workers : Instant → Duration → Duration → Database → Database
mark_stale_workers now heartbeat_timeout grace db =
    let suspect_before = now -ℤ heartbeat_timeout in
    let dead_before = now -ℤ (heartbeat_timeout +ℤ grace) in
    record db {
      workers =
          map_values (to_suspected suspect_before dead_before)
            (map_values (to_unavailable dead_before) db.workers);
    }

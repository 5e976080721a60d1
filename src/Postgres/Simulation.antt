-- ===== src/Postgres/Simulation.antt =====
-- The store on a database and the store in memory give the same answers.
use chronos_dev.Common.{
  String, false, Option, none, some, ◌==◌, eq_iff, eq_refl, ◌≡◌, ◌≢◌, refl, ◌∙◌, sym, ap, subst,
  Map, lookup, insert, lookup-insert, arith, Bool-cases, inl, inr, eqb_ℤ, pos, true, map_option, ok,
  ◌*ℤ◌,
}
use chronos_dev.Domain.Job.{Job, Instant, milliseconds, millisecond}
use chronos_dev.Store.State.{Store, empty}
use chronos_dev.Store.Jobs.{stamped}
use chronos_dev.Store.Idempotency.{IsValid, empty-IsValid}
use chronos_dev.Postgres.{
  Database, ColumnTypes, timestamp, checks, checked, new_database, completed_job, row_of, find_key,
}
use chronos_dev.Postgres.Tables.{IsTable, insert-IsTable, find_key-insert_new, or_new}

-- The job that an entry of the index leads to.
abbrev pub job_of : Option String → Map Job → Option Job
job_of none m = none
job_of (some id) m = lookup id m

-- The database has the jobs of the store, and finds by a key what the store's index leads to.
pub record Refines (db : Database) (s : Store) : Type 0 where
  pub table : IsTable db.jobs
  pub valid : IsValid s
  pub same : (id : String) → lookup id db.jobs ≡ lookup id s.jobs
  pub keys : (key : String) → key ≢ "" → find_key key db.jobs ≡ job_of (lookup key s.by_idem) s.jobs

pub empty-Refines : Refines new_database empty
unfolding new_database empty find_key lookup
empty-Refines = record {
  table = tt;
  valid = empty-IsValid;
  same = λ id. refl;
  keys = λ key h. refl;
}

-- A job that the database keeps as it is. It has a priority and a type that is allowed, its numbers fit in
-- 32 bits, its timeout is in whole milliseconds and its times are in whole microseconds, and it was not yet
-- worked on; its payload is not empty and written as the database gives it back.
pub record IsPlain (types : ColumnTypes) (now : Instant) (job : Job) : Type 0 where
  pub ranked : eqb_ℤ job.priority (pos 0) ≡ false
  pub checks_hold : checks job ≡ true
  pub filled : (job.payload == "") ≡ false
  pub payload : types.json job.payload ≡ some job.payload
  pub timeout : milliseconds job.timeout *ℤ pos millisecond ≡ job.timeout
  pub scheduled_at : map_option timestamp job.scheduled_at ≡ job.scheduled_at
  pub clock : timestamp now ≡ now
  pub idle :
      record job {
        worker_id = "";
        execution_id = "";
        last_error = "";
        queued_at = none;
        started_at = none;
        completed_at = none;
        next_retry_at = none;
      }
      ≡ job

pub plain-completed :
    (types : ColumnTypes) (now : Instant) (uuid : String) (job : Job)
    → IsPlain types now job
    → types.uuid (stamped now uuid job).id ≡ some (stamped now uuid job).id
    → (completed_job now uuid job ≡ stamped now uuid job)
      × (row_of types (stamped now uuid job) ≡ ok (stamped now uuid job))
unfolding completed_job row_of checked checks
plain-completed types now uuid job h own = (
  rw h.ranked refl,
  rw (own, h.filled, h.payload, h.timeout, h.scheduled_at, h.clock, h.checks_hold)
      (ap (λ j. ok (stamped now uuid j)) h.idle),
)

-- An index that leads to no missing job does not see a new one.
job_of-insert :
    (o : Option String) (n : Job) (m : Map Job)
    → lookup n.id m ≡ none
    → ((id : String) → o ≡ some id → (j : Job) × (lookup id m ≡ some j))
    → job_of o (insert n.id n m) ≡ job_of o m
job_of-insert none n m fresh whole = refl
job_of-insert (some id) n m fresh whole =
    let (j, at_) = whole id refl in
    ground (arith, at_, fresh, lookup-insert n.id id n m, eq_iff n.id id)

-- The states after a new job.
abbrev pub db_with : Job → Database → Database
db_with n db = record db { jobs = insert n.id n db.jobs }

abbrev pub store_with : Job → Map String → Store → Store
store_with n index s = record s { jobs = insert n.id n s.jobs; by_idem = index }

module _ (n : Job) (db : Database) (s : Store) (h : Refines db s)
    (fresh : lookup n.id s.jobs ≡ none) where
  pub db_fresh : lookup n.id db.jobs ≡ none
  db_fresh = h.same n.id ∙ fresh

  same_with : (id : String) → lookup id (insert n.id n db.jobs) ≡ lookup id (insert n.id n s.jobs)
  same_with id =
      ground (arith, lookup-insert n.id id n db.jobs, lookup-insert n.id id n s.jobs, h.same id)

  whole :
      (key id : String) → lookup key s.by_idem ≡ some id → (j : Job) × (lookup id s.jobs ≡ some j)
  whole key id e = let (j, at_, _) = h.valid.indexed key id e in (j, at_)

  old_keys :
      (key : String)
      → key ≢ ""
      → job_of (lookup key s.by_idem) (insert n.id n s.jobs) ≡ find_key key db.jobs
  old_keys key k =
      job_of-insert (lookup key s.by_idem) n s.jobs fresh (whole key) ∙ sym (h.keys key k)

  pub keyless-Refines :
      n.idempotency_key ≡ ""
      → IsValid (store_with n s.by_idem s)
      → Refines (db_with n db) (store_with n s.by_idem s)
  keyless-Refines blank v = record {
    table = insert-IsTable n.id n db.jobs refl h.table;
    valid = v;
    same = same_with;
    keys = λ key k.
        find_key-insert_new key n.id n db.jobs db_fresh
        ∙ (no_new key k (find_key key db.jobs) ∙ sym (old_keys key k));
  }
    where
      no_new : (key : String) → key ≢ "" → (o : Option Job) → or_new key n o ≡ o
      no_new key k none = ground (arith, blank, k, eq_iff n.idempotency_key key)
      no_new key k (some j) = refl

  pub keyed-Refines :
      lookup n.idempotency_key s.by_idem ≡ none
      → n.idempotency_key ≢ ""
      → IsValid (store_with n (insert n.idempotency_key n.id s.by_idem) s)
      → Refines (db_with n db) (store_with n (insert n.idempotency_key n.id s.by_idem) s)
  keyed-Refines unused filled v = record {
    table = insert-IsTable n.id n db.jobs refl h.table;
    valid = v;
    same = same_with;
    keys = λ key k. find_key-insert_new key n.id n db.jobs db_fresh ∙ found key k;
  }
    where
      index : Map String
      index = insert n.idempotency_key n.id s.by_idem

      found :
          (key : String)
          → key ≢ ""
          → or_new key n (find_key key db.jobs) ≡ job_of (lookup key index) (insert n.id n s.jobs)
      found key k = elim (Bool-cases (n.idempotency_key == key)) [
        | inl e ↦
            let mine = (eq_iff n.idempotency_key key).0 e in
            let nothing : find_key key db.jobs ≡ none =
              h.keys key k
              ∙ ap (λ o. job_of o s.jobs) (subst (λ x. lookup x s.by_idem ≡ none) mine unused) in
            rw (nothing, lookup-insert, e, lookup-insert, eq_refl n.id) refl
        | inr e ↦ rw (lookup-insert, e) (other key (find_key key db.jobs) e ∙ sym (old_keys key k))
      ]
        where
          other :
              (key : String) (o : Option Job)
              → (n.idempotency_key == key) ≡ false
              → or_new key n o ≡ o
          other key none e = rw e refl
          other key (some j) e = refl

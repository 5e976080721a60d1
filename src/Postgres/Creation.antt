-- ===== src/Postgres/Creation.antt =====
-- Creating a job on a database and in memory.
use chronos_dev.Common.{
  String, true, false, none, some, ◌==◌, eq_iff, eq_refl, ne_of_false, ◌≡◌, ◌≢◌, refl, ◌∙◌, ap,
  if◌then◌else◌, Map, lookup, insert, arith, Bool-cases, Option-cases, inl, inr, Result, ok, ◌>>=◌,
}
use chronos_dev.Domain.Job.{Job, Instant}
use chronos_dev.Store.State.{Store}
use chronos_dev.Store.Jobs.{create_job as create_in_memory}
use chronos_dev.Store.Jobs.{stamped, put_job, create_keyed}
use chronos_dev.Store.Idempotency.{create_job-IsValid, finds_stored}
use chronos_dev.Postgres.{
  Database, ColumnTypes, insert_row, find_key, insert_new, insert_unless, insert_job, existing_or,
  create_job,
}
use chronos_dev.Postgres.Tables.{find_key-insert_new}
use chronos_dev.Postgres.Simulation.{
  Refines, IsPlain, plain-completed, job_of, keyless-Refines, keyed-Refines, db_fresh,
}

-- How a creation on the database goes, once the job is completed.
abbrev finish : Job → Database → Result (Map Job) → Result (Job × Database)
finish n db r = r >>= λ jobs. ok (
  if n.idempotency_key == "" then n else existing_or n (find_key n.idempotency_key jobs),
  record db { jobs = jobs },
)

create_job-finish :
    (types : ColumnTypes) (now : Instant) (uuid : String) (job : Job) (db : Database)
    → IsPlain types now job
    → types.uuid (stamped now uuid job).id ≡ some (stamped now uuid job).id
    → create_job types now uuid job db
      ≡ finish (stamped now uuid job) db (insert_row (stamped now uuid job) db.jobs)
unfolding create_job insert_job
create_job-finish types now uuid job db plain own =
    let (whole, kept) = plain-completed types now uuid job plain own in
    ap (λ n. finish n db (insert_job types n db.jobs)) whole
    ∙ ap (λ r. finish (stamped now uuid job) db (r >>= λ row. insert_row row db.jobs)) kept

abbrev Agree : ColumnTypes → Instant → String → Job → Database → Store → Type 0
Agree types now uuid job db s =
    (j : Job) × (db' : Database) × (s' : Store) × (create_job types now uuid job db ≡ ok (j, db'))
    × (create_in_memory now uuid job s ≡ ok (j, s'))
    × Refines db' s'

module _ (types : ColumnTypes) (now : Instant) (uuid : String) (job : Job) (db : Database)
    (s : Store) (h : Refines db s) (plain : IsPlain types now job)
    (own : types.uuid (stamped now uuid job).id ≡ some (stamped now uuid job).id)
    (fresh : lookup (stamped now uuid job).id s.jobs ≡ none) where
  abbrev n : Job
  n = stamped now uuid job

  keyless-Agree : (job.idempotency_key == "") ≡ true → Agree types now uuid job db s
  unfolding insert_row insert_new create_in_memory put_job
  keyless-Agree e =
      let s' : Store = record s { jobs = insert n.id n s.jobs } in
      let made : create_in_memory now uuid job s ≡ ok (n, s') = rw e refl in
      (
        n,
        record db { jobs = insert n.id n db.jobs },
        s',
        create_job-finish types now uuid job db plain own ∙ rw (e, db_fresh n db s h fresh) refl,
        made,
        keyless-Refines n db s h fresh ((eq_iff job.idempotency_key "").0 e)
            (create_job-IsValid now uuid job s s' n fresh made h.valid),
      )

  -- What a new key finds, before and after.
  module _ (e : (job.idempotency_key == "") ≡ false) where
    filled : n.idempotency_key ≢ ""
    filled = ne_of_false job.idempotency_key "" e

    new-Agree : lookup n.idempotency_key s.by_idem ≡ none → Agree types now uuid job db s
    unfolding insert_row insert_unless insert_new existing_or create_in_memory create_keyed put_job
    new-Agree unused =
        let s' : Store = record s {
          jobs = insert n.id n s.jobs;
          by_idem = insert n.idempotency_key n.id s.by_idem;
        } in
        let made : create_in_memory now uuid job s ≡ ok (n, s') = rw (e, unused) refl in
        let nothing : find_key n.idempotency_key db.jobs ≡ none =
          h.keys n.idempotency_key filled ∙ ap (λ o. job_of o s.jobs) unused in
        let mine : find_key n.idempotency_key (insert n.id n db.jobs) ≡ some n =
          find_key-insert_new n.idempotency_key n.id n db.jobs (db_fresh n db s h fresh)
          ∙ rw (nothing, eq_refl n.idempotency_key) refl in
        (
          n,
          record db { jobs = insert n.id n db.jobs },
          s',
          create_job-finish types now uuid job db plain own
              ∙ rw (e, nothing, db_fresh n db s h fresh, mine, eq_refl n.id) refl,
          made,
          keyed-Refines n db s h fresh unused filled
              (create_job-IsValid now uuid job s s' n fresh made h.valid),
        )

    old-Agree :
        (id : String) → lookup n.idempotency_key s.by_idem ≡ some id → Agree types now uuid job db s
    unfolding insert_row insert_unless existing_or
    old-Agree id used =
        let (j, at_, has) = h.valid.indexed n.idempotency_key id used in
        let found : find_key n.idempotency_key db.jobs ≡ some j =
          h.keys n.idempotency_key filled ∙ (ap (λ o. job_of o s.jobs) used ∙ at_) in
        let other : (j.id == n.id) ≡ false =
          ground (arith, at_, fresh, h.valid.keyed id j at_, eq_iff j.id n.id) in
        (
          j,
          db,
          s,
          create_job-finish types now uuid job db plain own ∙ rw (e, found, found, other) refl,
          finds_stored now uuid id job s j filled used at_,
          h,
        )

-- A job that the database keeps as it is, created at a time in whole microseconds with a new identifier that
-- is a UUID as the database writes it, on a database and in memory, in
-- related states, comes out as the same job on both sides (the new one, or the one that has its key), and
-- the states stay related.
pub create_job-Refines :
    (types : ColumnTypes) (now : Instant) (uuid : String) (job : Job) (db : Database) (s : Store)
    → Refines db s
    → IsPlain types now job
    → types.uuid (stamped now uuid job).id ≡ some (stamped now uuid job).id
    → lookup (stamped now uuid job).id s.jobs ≡ none
    → (j : Job) × (db' : Database) × (s' : Store) × (create_job types now uuid job db ≡ ok (j, db'))
      × (create_in_memory now uuid job s ≡ ok (j, s'))
      × Refines db' s'
create_job-Refines types now uuid job db s h plain own fresh =
    elim (Bool-cases (job.idempotency_key == "")) [
      | inl e ↦ keyless-Agree types now uuid job db s h plain own fresh e
      | inr e ↦ elim (Option-cases (lookup job.idempotency_key s.by_idem)) [
        | inl unused ↦ new-Agree types now uuid job db s h plain own fresh e unused
        | inr (id, used) ↦ old-Agree types now uuid job db s h plain own fresh e id used
      ]
    ]

-- ===== src/Postgres/Races.antt =====
-- Updating a job on a database: alone it is the update in memory, but the test and the write are two
-- statements.
use chronos_dev.Common.{
  ◌==◌, ◌⊎◌, sym, String, true, List, Option, none, some, eq_iff, eq_refl, ◌≡◌, refl, ◌∙◌, ap,
  subst, lookup, insert, lookup-insert, map_option, arith, Bool-cases, Option-cases, inl, inr,
  Result, ok, err, Error, after,
}
use chronos_dev.Domain.Job.{Job, JobState, Instant}
use chronos_dev.Store.State.{Store}
use chronos_dev.Store.Jobs.{Fields, write_fields, allowed, update_job_state_if as update_in_memory}
use chronos_dev.Store.Idempotency.{IsValid, update_job_state_if-IsValid}
use chronos_dev.Postgres.{
  ColumnTypes, timestamp, checks, checked, read_uuid_or_null, column_values, Database, get_job,
  set_columns, update_at, update_row, write_back, update_job_state_if,
}
use chronos_dev.Postgres.Tables.{insert-IsTable, find_key-insert_old, rewritten}
use chronos_dev.Postgres.Simulation.{Refines, job_of}

-- The columns that are set are those that the update changes.
set_columns-write_fields :
    (now : Instant) (st : JobState) (f : Fields) (j : Job)
    → set_columns (write_fields now st f j) j ≡ write_fields now st f j
unfolding set_columns write_fields
set_columns-write_fields now st f j = refl

write_fields-keys :
    (now : Instant) (st : JobState) (f : Fields) (j : Job)
    → ((write_fields now st f j).id ≡ j.id)
      × ((write_fields now st f j).idempotency_key ≡ j.idempotency_key)
unfolding write_fields
write_fields-keys now st f j = (refl, refl)

-- An updated job that the database keeps as it is: its type is allowed, its numbers fit in 32 bits, its
-- execution is missing or a UUID as the database writes it, and its times are in whole microseconds.
pub record IsKept (types : ColumnTypes) (j : Job) : Type 0 where
  pub checks_hold : checks j ≡ true
  pub execution : (j.execution_id ≡ "") ⊎ (types.uuid j.execution_id ≡ some j.execution_id)
  pub queued_at : map_option timestamp j.queued_at ≡ j.queued_at
  pub started_at : map_option timestamp j.started_at ≡ j.started_at
  pub completed_at : map_option timestamp j.completed_at ≡ j.completed_at
  pub next_retry_at : map_option timestamp j.next_retry_at ≡ j.next_retry_at
  pub scheduled_at : map_option timestamp j.scheduled_at ≡ j.scheduled_at
  pub updated_at : timestamp j.updated_at ≡ j.updated_at

read_uuid-kept :
    (types : ColumnTypes) (text : String)
    → (text ≡ "") ⊎ (types.uuid text ≡ some text)
    → read_uuid_or_null types text ≡ ok text
read_uuid-kept types text (inl e) = rw e refl
read_uuid-kept types text (inr e) = elim (Bool-cases (text == "")) [
  | inl k ↦ rw k (ap ok (sym ((eq_iff text "").0 k)))
  | inr k ↦ rw (k, e) refl
]

column_values-IsKept :
    (types : ColumnTypes) (j : Job)
    → types.uuid j.id ≡ some j.id
    → IsKept types j
    → column_values types j ≡ ok j
unfolding column_values checked checks
column_values-IsKept types j own h =
    let execution = read_uuid-kept types j.execution_id h.execution in
    rw
      (
        own, execution, h.queued_at, h.started_at, h.completed_at, h.next_retry_at, h.scheduled_at,
        h.updated_at, h.checks_hold,
      )
      refl

update_row-found :
    (types : ColumnTypes) (new row : Job) (id : String) (db : Database)
    → new.id ≡ id
    → types.uuid id ≡ some id
    → IsKept types new
    → lookup id db.jobs ≡ some row
    → update_row types new db ≡ ok (record db { jobs = insert id (set_columns new row) db.jobs })
unfolding update_row update_at
update_row-found types new row id db e own k h =
    let values =
      column_values-IsKept types new (subst (λ x. types.uuid x ≡ some x) (sym e) own) k in
    rw (values, e, h) refl

-- The states after a row is rewritten.
module _ (id : String) (n j : Job) (db : Database) (s : Store) (h : Refines db s)
    (at_ : lookup id s.jobs ≡ some j) (same_id : n.id ≡ j.id)
    (same_key : n.idempotency_key ≡ j.idempotency_key) where
  own_id : n.id ≡ id
  own_id = same_id ∙ h.valid.keyed id j at_

  keys_after :
      (key : String) (o : Option String)
      → lookup key s.by_idem ≡ o
      → map_option (rewritten id n) (job_of o s.jobs) ≡ job_of o (insert id n s.jobs)
  keys_after key none e = refl
  keys_after key (some i) e =
      let (x, found, _) = h.valid.indexed key i e in
      ground (
        arith,
        found,
        at_,
        h.valid.keyed i x found,
        lookup-insert id i n s.jobs,
        eq_iff x.id id,
        eq_iff id i,
      )

  rewritten-Refines :
      IsValid (record s { jobs = insert id n s.jobs })
      → Refines (record db { jobs = insert id n db.jobs }) (record s { jobs = insert id n s.jobs })
  rewritten-Refines v = record {
    table = insert-IsTable id n db.jobs own_id h.table;
    valid = v;
    same = λ k. ground (arith, lookup-insert id k n db.jobs, lookup-insert id k n s.jobs, h.same k);
    keys = λ key k.
        find_key-insert_old key id n j db.jobs h.table (h.same id ∙ at_) same_key
        ∙ (ap (map_option (rewritten id n)) (h.keys key k)
            ∙ keys_after key (lookup key s.by_idem) refl);
  }

abbrev pub problem : {A : Type 0} → Result A → Option Error
problem (ok a) = none
problem (err e) = some e

-- An update under a UUID as the database writes it, in related states, fails on both sides or on none, and
-- the states stay related, if the database keeps the updated job as it is.
pub update_job_state_if-Refines :
    (types : ColumnTypes) (now : Instant) (id : String) (st : JobState) (f : Fields)
    (from : List JobState) (db : Database) (s : Store)
    → Refines db s
    → types.uuid id ≡ some id
    → ((j : Job) → lookup id s.jobs ≡ some j → IsKept types (write_fields now st f j))
    → let on_database = update_job_state_if types now id st f from db in
      let in_memory = update_in_memory now id st f from s in
      (problem on_database ≡ problem in_memory) × Refines (after db on_database) (after s in_memory)
unfolding update_job_state_if update_in_memory get_job
update_job_state_if-Refines types now id st f from db s h own keeps =
    elim (Option-cases (lookup id s.jobs)) [
      | inl gone ↦ rw (own, h.same id, gone) (refl, h)
      | inr (j, at_) ↦ elim (Bool-cases (allowed j.state from)) [
        | inl may ↦
            let keys = write_fields-keys now st f j in
            let n : Job = write_fields now st f j in
            let written : write_back types now st f from j db
                ≡ ok (record db { jobs = insert id n db.jobs }) =
              unfold write_back in
              rw may (
                update_row-found types n j id db (keys.0 ∙ h.valid.keyed id j at_) own (keeps j at_)
                  (h.same id ∙ at_)
                ∙ ap (λ x. ok (record db { jobs = insert id x db.jobs }))
                    (set_columns-write_fields now st f j)) in
            let kept : IsValid (record s { jobs = insert id n s.jobs }) =
              subst (λ x. IsValid x) (unfold update_in_memory in rw (at_, may) refl)
                (update_job_state_if-IsValid now id st f from s h.valid) in
            rw (own, h.same id, at_, may, written)
              (refl, rewritten-Refines id n j db s h at_ keys.0 keys.1 kept)
        | inr no_ ↦
            let idle : write_back types now st f from j db ≡ ok db =
              unfold write_back in rw no_ refl in
            rw (own, h.same id, at_, no_, idle) (refl, h)
      ]
    ]

-- The guard of an update does not hold at its write: a job that was read in an allowed state is written over
-- whatever the row has become in between, so a row that is over gets the new state.
pub guard_is_stale :
    (types : ColumnTypes) (now : Instant) (st : JobState) (f : Fields) (from : List JobState)
    (read row : Job) (db : Database)
    → allowed read.state from ≡ true
    → types.uuid read.id ≡ some read.id
    → IsKept types (write_fields now st f read)
    → lookup read.id db.jobs ≡ some row
    → let written = after db (write_back types now st f from read db) in
      (j : Job) × (lookup read.id written.jobs ≡ some j)
      × (j.state ≡ st)
      × (j.idempotency_key ≡ row.idempotency_key)
unfolding write_back set_columns write_fields
guard_is_stale types now st f from read row db may own keeps at_ =
    let n : Job = write_fields now st f read in
    (
      set_columns n row,
      rw
          (
            may,
            update_row-found types n row read.id db refl own keeps at_,
            lookup-insert,
            eq_refl read.id,
          )
          refl,
      refl,
      refl,
    )

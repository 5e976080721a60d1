-- ===== src/Store/Idempotency.antt =====
-- The index of idempotency keys, and what a repeated creation gives.
use chronos_dev.Common.{
  String, sym, subst, true, false, List, none, some, ◌==◌, eq_iff, ◌≡◌, ◌≢◌, refl, if◌then◌else◌,
  lookup, insert, lookup-insert, Option-cases, inl, inr, after, ok, arith, Bool-cases, eq_refl,
}
use chronos_dev.Domain.Job.{Job, JobState, Instant}
use chronos_dev.Store.State.{Store, empty}
use chronos_dev.Store.Jobs.{
  Fields, put_job, create_keyed, write_fields, create_job, update_job_state_if, stamped, allowed,
}
use chronos_dev.Store.Update.{updated, update_back, update_forth, update_rest}

-- Each job stands under its identifier, and each key of the index leads to a job with that key.
pub record IsValid (s : Store) : Type 0 where
  pub keyed : (id : String) (j : Job) → lookup id s.jobs ≡ some j → j.id ≡ id
  pub indexed :
      (key id : String)
      → lookup key s.by_idem ≡ some id
      → (j : Job) × (lookup id s.jobs ≡ some j) × (j.idempotency_key ≡ key)

pub empty-IsValid : IsValid empty
unfolding empty lookup
empty-IsValid = record { keyed = λ id j h. absurd (cc); indexed = λ key id h. absurd (cc) }

updated-id :
    (now : Instant) (st : JobState) (f : Fields) (from : List JobState) (j : Job)
    → ((updated now st f from j).id ≡ j.id)
      × ((updated now st f from j).idempotency_key ≡ j.idempotency_key)
unfolding write_fields
updated-id now st f from j =
    elim (allowed j.state from)
      as (λ b.
        ((if b then write_fields now st f j else j).id ≡ j.id)
        × ((if b then write_fields now st f j else j).idempotency_key ≡ j.idempotency_key)) [
          | true ↦ (refl, refl)
          | false ↦ (refl, refl)
        ]

-- An update of any job keeps the store valid.
pub update_job_state_if-IsValid :
    (now : Instant) (id : String) (st : JobState) (f : Fields) (from : List JobState) (s : Store)
    → IsValid s
    → IsValid (after s (update_job_state_if now id st f from s))
update_job_state_if-IsValid now id st f from s v = record {
  keyed = λ k j h.
      let (i, at_, same) = update_back now id k st f from s j h in
      ground (arith, v.keyed k i at_, same, updated-id now st f from i);
  indexed = λ key k h.
      let (i, at_, has) =
        v.indexed key k (subst (λ m. lookup key m ≡ some k) (update_rest now id st f from s).0 h) in
      let (j, found, same) = update_forth now id k st f from s i at_ in
      (j, found, ground (arith, has, same, updated-id now st f from i));
}

-- The store with a new job.
abbrev with_job : Job → Store → Store
with_job n s = record s { jobs = insert n.id n s.jobs }

abbrev with_key : Job → Store → Store
with_key n s = record s { by_idem = insert n.idempotency_key n.id s.by_idem }

-- The three ways in which a creation succeeds.
data Outcome (n : Job) (s : Store) (j : Job) (t : Store) : Type 0 where
  keyless : n.idempotency_key ≡ "" → j ≡ n → t ≡ with_job n s → Outcome n s j t
  first :
      lookup n.idempotency_key s.by_idem ≡ none
      → j ≡ n
      → t ≡ with_job n (with_key n s)
      → Outcome n s j t
  repeated :
      (id : String)
      → lookup n.idempotency_key s.by_idem ≡ some id
      → lookup id s.jobs ≡ some j
      → t ≡ s
      → Outcome n s j t

create_keyed-Outcome :
    (n : Job) (s t : Store) (j : Job)
    → create_keyed n (lookup n.idempotency_key s.by_idem) s ≡ ok (j, t)
    → Outcome n s j t
unfolding create_keyed
create_keyed-Outcome n s t j e = elim (Option-cases (lookup n.idempotency_key s.by_idem)) [
  | inl fresh ↦ first fresh (ground (arith, e, fresh)) (ground (arith, e, fresh))
  | inr (id, old) ↦ elim (Option-cases (lookup id s.jobs)) [
    | inl gone ↦ absurd (ground (arith, e, old, gone))
    | inr (i, at_) ↦ repeated id old (ground (arith, e, old, at_)) (ground (arith, e, old, at_))
  ]
]

create_job-Outcome :
    (now : Instant) (uuid : String) (job : Job) (s t : Store) (j : Job)
    → create_job now uuid job s ≡ ok (j, t)
    → Outcome (stamped now uuid job) s j t
unfolding create_job
create_job-Outcome now uuid job s t j e = elim (Bool-cases (job.idempotency_key == "")) [
  | inl none_ ↦
      keyless (ground (arith, none_, eq_iff job.idempotency_key "")) (ground (arith, e, none_))
        (ground (arith, e, none_))
  | inr some_ ↦ create_keyed-Outcome (stamped now uuid job) s t j (ground (arith, e, some_))
]

module _ (n : Job) (s : Store) (fresh : lookup n.id s.jobs ≡ none) (v : IsValid s) where
  keyed_insert : (k : String) (j : Job) → lookup k (insert n.id n s.jobs) ≡ some j → j.id ≡ k
  keyed_insert k j h = ground (arith, h, lookup-insert n.id k n s.jobs, eq_iff n.id k, v.keyed k j)

  indexed_insert :
      (key id : String)
      → lookup key s.by_idem ≡ some id
      → (j : Job) × (lookup id (insert n.id n s.jobs) ≡ some j) × (j.idempotency_key ≡ key)
  indexed_insert key id h =
      let (j, at_, has) = v.indexed key id h in
      (j, ground (arith, at_, fresh, lookup-insert n.id id n s.jobs, eq_iff n.id id), has)

  with_job-IsValid : IsValid (with_job n s)
  with_job-IsValid = record { keyed = keyed_insert; indexed = indexed_insert }

  with_key-IsValid : IsValid (with_job n (with_key n s))
  with_key-IsValid = record {
    keyed = keyed_insert;
    indexed = λ key id h. elim (Bool-cases (n.idempotency_key == key)) [
      | inl same ↦
          let facts : (id ≡ n.id) × (n.idempotency_key ≡ key) = ground (
            arith,
            h,
            same,
            lookup-insert n.idempotency_key key n.id s.by_idem,
            eq_iff n.idempotency_key key,
          ) in
          (n, ground (arith, facts, lookup-insert n.id id n s.jobs, eq_iff n.id id), facts.1)
      | inr other ↦
          indexed_insert key id
            (ground (arith, h, other, lookup-insert n.idempotency_key key n.id s.by_idem))
    ];
  }

-- A creation with a new identifier keeps the store valid.
pub create_job-IsValid :
    (now : Instant) (uuid : String) (job : Job) (s t : Store) (j : Job)
    → lookup (stamped now uuid job).id s.jobs ≡ none
    → create_job now uuid job s ≡ ok (j, t)
    → IsValid s
    → IsValid t
create_job-IsValid now uuid job s t j fresh e v = elim (create_job-Outcome now uuid job s t j e) [
  | keyless _ _ q ↦ subst IsValid (sym q) (with_job-IsValid n s fresh v)
  | first unused _ q ↦ subst IsValid (sym q) (with_key-IsValid n s fresh v)
  | repeated id old at_ q ↦ subst IsValid (sym q) v
]
  where
    n : Job
    n = stamped now uuid job

-- In a valid store a creation never fails: the index never leads to a missing job.
pub create_job_total :
    (now : Instant) (uuid : String) (job : Job) (s : Store)
    → IsValid s
    → (j : Job) × (t : Store) × (create_job now uuid job s ≡ ok (j, t))
unfolding create_job create_keyed put_job
create_job_total now uuid job s v = elim (Bool-cases (job.idempotency_key == "")) [
  | inl none_ ↦ (stamped now uuid job, with_job (stamped now uuid job) s, ground (arith, none_))
  | inr some_ ↦ elim (Option-cases (lookup job.idempotency_key s.by_idem)) [
    | inl fresh ↦ (
      stamped now uuid job,
      with_job (stamped now uuid job) (with_key (stamped now uuid job) s),
      ground (arith, some_, fresh),
    )
    | inr (id, old) ↦
        let (j, at_, has) = v.indexed job.idempotency_key id old in
        (j, s, ground (arith, some_, old, at_))
  ]
]

pub finds_stored :
    (now : Instant) (uuid id : String) (job : Job) (t : Store) (j : Job)
    → job.idempotency_key ≢ ""
    → lookup job.idempotency_key t.by_idem ≡ some id
    → lookup id t.jobs ≡ some j
    → create_job now uuid job t ≡ ok (j, t)
unfolding create_job create_keyed
finds_stored now uuid id job t j nonempty old at_ =
    ground (arith, eq_iff job.idempotency_key "", old, at_)

-- A second creation with the key of a first one, whatever else it asks for, gives the job of the
-- first and leaves the store as it is.
pub create_job_idempotent :
    (now later : Instant) (uuid uuid' : String) (job job' : Job) (s t : Store) (j : Job)
    → job.idempotency_key ≢ ""
    → job'.idempotency_key ≡ job.idempotency_key
    → create_job now uuid job s ≡ ok (j, t)
    → create_job later uuid' job' t ≡ ok (j, t)
create_job_idempotent now later uuid uuid' job job' s t j nonempty same e =
    elim (create_job-Outcome now uuid job s t j e) [
      | keyless blank _ _ ↦ absurd (nonempty blank)
      | first _ p q ↦
          finds_stored later uuid' n.id job' t j (rw same nonempty)
            (ground (arith, same, q, lookup-insert key key n.id s.by_idem, eq_refl key))
            (ground (arith, p, q, lookup-insert n.id n.id n s.jobs, eq_refl n.id))
      | repeated id old at_ q ↦
          finds_stored later uuid' id job' t j (rw same nonempty) (ground (arith, same, old, q))
            (ground (arith, at_, q))
    ]
  where
    n : Job
    n = stamped now uuid job

    key : String
    key = job.idempotency_key

-- ===== src/Postgres/Tables.antt =====
-- Rows of a table, found by identifier and by idempotency key.
use chronos_dev.Common.{
  String, [], ◌∷◌, Option, none, some, ◌==◌, eq_iff, ◌≡◌, refl, if◌then◌else◌, Map, lookup, insert,
  lookup-insert, map_option, arith, Bool-cases, Option-cases, inl, inr,
}
use chronos_dev.Domain.Job.{Job}
use chronos_dev.Postgres.{find_key}

-- Each row stands under its identifier, once.
abbrev pub IsTable : Map Job → Type 0
IsTable [] = Unit {0}
IsTable ((id, j) ∷ m) = (j.id ≡ id) × (lookup id m ≡ none) × IsTable m

pub IsTable-lookup :
    (m : Map Job) (id : String) (j : Job) → IsTable m → lookup id m ≡ some j → j.id ≡ id
unfolding lookup
IsTable-lookup [] id j t h = absurd (cc)
IsTable-lookup ((i, w) ∷ m) id j t h = ground (arith, eq_iff i id, IsTable-lookup m id j t.2)

pub insert-IsTable :
    (id : String) (n : Job) (m : Map Job) → n.id ≡ id → IsTable m → IsTable (insert id n m)
unfolding insert lookup
insert-IsTable id n [] h t = (h, refl, tt)
insert-IsTable id n ((i, w) ∷ m) h t = elim (Bool-cases (i == id)) [
  | inl e ↦ rw e (h, ground (arith, e, eq_iff i id), t.2)
  | inr e ↦ rw e (
    t.0,
    ground (arith, e, eq_iff i id, eq_iff id i, lookup-insert id i n m),
    insert-IsTable id n m h t.2,
  )
]

-- A row that is found by its key is the one under its identifier.
pub find_key-lookup :
    (key : String) (m : Map Job) (j : Job)
    → IsTable m
    → find_key key m ≡ some j
    → (lookup j.id m ≡ some j) × (j.idempotency_key ≡ key)
unfolding find_key lookup
find_key-lookup key [] j t h = absurd (cc)
find_key-lookup key ((i, w) ∷ m) j t h = elim (Bool-cases (w.idempotency_key == key)) [
  | inl e ↦ ground (arith, e, eq_iff w.idempotency_key key, eq_iff i j.id)
  | inr e ↦
      let (at_, has) = find_key-lookup key m j t.2 (ground (arith, e)) in
      (ground (arith, at_, eq_iff i j.id), has)
]

-- A new row is found behind the old ones.
abbrev pub or_new : String → Job → Option Job → Option Job
or_new key n none = if n.idempotency_key == key then some n else none
or_new key n (some j) = some j

pub find_key-insert_new :
    (key id : String) (n : Job) (m : Map Job)
    → lookup id m ≡ none
    → find_key key (insert id n m) ≡ or_new key n (find_key key m)
unfolding find_key insert lookup
find_key-insert_new key id n [] h = refl
find_key-insert_new key id n ((i, w) ∷ m) h = ground (arith, h, find_key-insert_new key id n m)

-- A row that is rewritten keeps its place.
abbrev pub rewritten : String → Job → Job → Job
rewritten id n x = if x.id == id then n else x

pub find_key-insert_old :
    (key id : String) (n j : Job) (m : Map Job)
    → IsTable m
    → lookup id m ≡ some j
    → n.idempotency_key ≡ j.idempotency_key
    → find_key key (insert id n m) ≡ map_option (rewritten id n) (find_key key m)
unfolding find_key insert lookup
find_key-insert_old key id n j [] t h same = absurd (cc)
find_key-insert_old key id n j ((i, w) ∷ m) t h same = elim (Bool-cases (i == id)) [
  | inl e ↦ elim (Option-cases (find_key key m)) [
    | inl gone ↦ ground (arith, e, h, t, same, gone, eq_iff w.id id, eq_iff i id)
    | inr (x, found) ↦ ground (
      arith,
      e,
      h,
      t,
      same,
      found,
      eq_iff w.id id,
      eq_iff i id,
      eq_iff x.id id,
      (find_key-lookup key m x t.2 found).0,
    )
  ]
  | inr e ↦
      ground (arith, e, h, t, eq_iff w.id id, eq_iff i id, find_key-insert_old key id n j m t.2)
]

-- ===== src/Postgres/Due.antt =====
-- The due jobs that a database and the store in memory list.
use mathlib.Core.List.Perm
use mathlib.Core.List.{Permᴰ}
use mathlib.Core.Logic.{∥∥₁_elim, ∥∥₁_prop}
use native.Mathlib.Nat.{ℕ_set}
use chronos_dev.Common.{
  ℕ, zero, suc, ◌≤◌, pos, Bool, ◌&&◌, ◌||◌, Option, none, some, List, [], ◌∷◌, Perm, ◌≡◌, refl, ap,
  subst, fun_ext, ◌∙◌, inl, inr, arith, take, select, length, Bool-cases, String, Visit, IsVisit,
  values, ok,
}
use chronos_dev.Domain.Job.{Job, JobState, Instant, scheduled, retrying, same_state}
use chronos_dev.Store.State.{Store}
use chronos_dev.Store.Listing as Memory
use chronos_dev.Store.Listing.{is_due, due_in, reached}
use chronos_dev.Store.Limits.{list_due_scheduled-take}
use chronos_dev.Postgres.{Database}
use chronos_dev.Postgres.Queries.{by_urgency, not_after, is_ready, list_due_scheduled}
use chronos_dev.Sql.{ordered, page}
use chronos_dev.Sql.Ordering.{ordered-Perm}
use chronos_dev.Postgres.Listings.{list_due_scheduled-page}

not_after-reached : (now : Instant) (t : Option Instant) → not_after t now ≡ reached now t
not_after-reached now none = refl
not_after-reached now (some t) = refl

ready-due_in :
    (st : JobState) (now : Instant) (j : Job)
    → ((same_state st scheduled && not_after j.scheduled_at now)
        || (same_state st retrying && not_after j.next_retry_at now))
      ≡ due_in st now j
ready-due_in scheduled now j = ground (arith, not_after-reached now j.scheduled_at)
ready-due_in retrying now j = ground (arith, not_after-reached now j.next_retry_at)
ready-due_in _ now j = ground arith

is_ready-is_due : (now : Instant) (j : Job) → is_ready now j ≡ is_due now j
unfolding is_ready is_due
is_ready-is_due now j = ready-due_in j.state now j

select-same :
    (p q : Job → Bool) (xs : List Job) → ((j : Job) → p j ≡ q j) → select p xs ≡ select q xs
select-same p q [] h = refl
select-same p q (x ∷ xs) h = rw (h x, select-same p q xs h) refl

take_all : (n : ℕ) (xs : List Job) → length xs ≤ n → take n xs ≡ xs
take_all zero [] h = refl
take_all zero (x ∷ xs) h = absurd (omega (arith, h))
take_all (suc n) [] h = refl
take_all (suc n) (x ∷ xs) h = ap (◌∷◌ x) (take_all n xs (omega (arith, h)))

-- The jobs that pass a test, out of the entries of a map.
abbrev passing : (Job → Bool) → List (String × Job) → List Job
passing p m = select p (values m)

passing-cons :
    (p : Job → Bool) (e : String × Job) (m n : List (String × Job))
    → Perm (passing p m) (passing p n)
    → Perm (passing p (e ∷ m)) (passing p (e ∷ n))
passing-cons p (k, j) m n h = elim (Bool-cases (p j)) [
  | inl e ↦ rw e (Perm.cons j h)
  | inr e ↦ rw e h
]

passing-swap :
    (p : Job → Bool) (d e : String × Job) (m : List (String × Job))
    → Perm (passing p (d ∷ e ∷ m)) (passing p (e ∷ d ∷ m))
passing-swap p (k, j) (l, i) m = elim (Bool-cases (p j)) [
  | inl e ↦ elim (Bool-cases (p i)) [
    | inl f ↦ rw (e, f) (Perm.swap i j (passing p m))
    | inr f ↦ rw (e, f) Perm.rfl
  ]
  | inr e ↦ elim (Bool-cases (p i)) [ inl f ↦ rw (e, f) Perm.rfl | inr f ↦ rw (e, f) Perm.rfl ]
]

passing-Permᴰ :
    (p : Job → Bool) {m n : List (String × Job)} → Permᴰ m n → Perm (passing p m) (passing p n)
passing-Permᴰ p Permᴰ.nil = Perm.rfl
passing-Permᴰ p (Permᴰ.cons {a = a} {l₁ = m} {l₂ = n} e h) =
    subst (λ x. Perm (passing p (a ∷ m)) (passing p (x ∷ n))) e
      (passing-cons p a m n (passing-Permᴰ p h))
passing-Permᴰ p (Permᴰ.swap {a = a} {b = b} {b' = y} {l = m} e f) =
    subst (λ x. Perm (passing p (a ∷ b ∷ m)) (passing p (x ∷ y ∷ m))) f
      (subst (λ y. Perm (passing p (a ∷ b ∷ m)) (passing p (b ∷ y ∷ m))) e (passing-swap p a b m))
passing-Permᴰ p (Permᴰ.trans h k) = Perm.trans (passing-Permᴰ p h) (passing-Permᴰ p k)

pub passing-Perm :
    (p : Job → Bool) (m n : List (String × Job)) → Perm m n → Perm (passing p m) (passing p n)
passing-Perm p m n h = ∥∥₁_elim h ∥∥₁_prop (passing-Permᴰ p)

length-Permᴰ : {xs ys : List Job} → Permᴰ xs ys → length xs ≡ length ys
length-Permᴰ Permᴰ.nil = refl
length-Permᴰ (Permᴰ.cons e h) = ap suc (length-Permᴰ h)
length-Permᴰ (Permᴰ.swap e f) = refl
length-Permᴰ (Permᴰ.trans h k) = length-Permᴰ h ∙ length-Permᴰ k

length-Perm : (xs ys : List Job) → Perm xs ys → length xs ≡ length ys
length-Perm xs ys h = ∥∥₁_elim h (ℕ_set (length xs) (length ys)) length-Permᴰ

-- With the same jobs on a database and in memory, and room in a positive limit for all that are due, both
-- list the same due jobs, up to their order.
pub list_due_scheduled-same :
    (scan visit : Visit Job) (now : Instant) (n : ℕ) (db : Database) (s : Store)
    → IsVisit scan
    → IsVisit visit
    → Perm db.jobs s.jobs
    → length (passing (is_ready now) db.jobs) ≤ suc n
    → (out : List Job) × (list_due_scheduled scan now (pos (suc n)) db ≡ ok out)
      × Perm out (Memory.list_due_scheduled visit now (pos (suc n)) s)
unfolding page
list_due_scheduled-same scan visit now n db s on_db in_memory same room =
    let rows = passing (is_ready now) (scan db.jobs) in
    let jobs = passing (is_due now) (visit s.jobs) in
    let all_rows = passing-Perm (is_ready now) (scan db.jobs) db.jobs (on_db db.jobs) in
    let across : Perm rows jobs =
      subst (λ p. Perm rows (select p (values (visit s.jobs)))) (fun_ext (is_ready-is_due now))
        (passing-Perm (is_ready now) (scan db.jobs) (visit s.jobs)
          (Perm.trans (on_db db.jobs) (Perm.trans same (Perm.symm (in_memory s.jobs))))) in
    let sorted = ordered-Perm by_urgency rows in
    let fits : length jobs ≤ suc n =
      omega (arith, length-Perm rows jobs across, length-Perm rows _ all_rows, room) in
    let fits_ordered : length (ordered by_urgency rows) ≤ suc n =
      omega (arith, length-Perm _ rows sorted, length-Perm rows _ all_rows, room) in
    (
      page by_urgency (is_ready now) (suc n) (values (scan db.jobs)),
      list_due_scheduled-page scan now (suc n) db,
      rw
          (
            list_due_scheduled-take visit now n s,
            take_all (suc n) (ordered by_urgency rows) fits_ordered,
            take_all (suc n) jobs fits,
          )
          (Perm.trans sorted across),
    )

-- ===== src/Queue/Order.antt =====
-- The ready items stand by priority, and at one priority by the time of their enqueueing.
use mathlib.Core.List.Perm
use chronos_dev.Common.{
  Bool, true, false, List, [], ◌∷◌, ◌++◌, Perm, ◌≡◌, refl, ap, ◌⊎◌, inl, inr, ◌<ℤ◌, ◌≤ℤ◌, arith,
  take, drop, All, All-map, select, if◌then◌else◌, Bool-cases, eqb_ℤ, ◌&&◌, eq_of_parts,
}
use chronos_dev.Domain.Job.{QueuedJob}
use chronos_dev.Queue.{Queue, goes_before, position, insert_locked}

-- `a` may stand ahead of `b`.
abbrev pub Ahead : QueuedJob → QueuedJob → Type 0
Ahead a b =
    (b.priority <ℤ a.priority) ⊎ ((a.priority ≡ b.priority) × (a.enqueued_at ≤ℤ b.enqueued_at))

abbrev pub IsSorted : List QueuedJob → Type 0
IsSorted [] = Unit {0}
IsSorted (x ∷ xs) = All (Ahead x) xs × IsSorted xs

-- Insertion in one pass, which the search and the splice of the source amount to.
pub place : QueuedJob → List QueuedJob → List QueuedJob
place job [] = job ∷ []
place job (x ∷ xs) = let rest = x ∷ place job xs in if goes_before job x then job ∷ x ∷ xs else rest

splice-place :
    (job : QueuedJob) (xs : List QueuedJob)
    → take (position job xs) xs ++ (job ∷ drop (position job xs) xs) ≡ place job xs
unfolding position place
splice-place job [] = refl
splice-place job (x ∷ xs) = elim (Bool-cases (goes_before job x)) [
  | inl e ↦ rw e refl
  | inr e ↦ rw e (ap (◌∷◌ x) (splice-place job xs))
]

pub insert_locked-place :
    (job : QueuedJob) (q : Queue) → insert_locked job q ≡ record q { items = place job q.items }
unfolding insert_locked
insert_locked-place job q = λ i. record q { items = splice-place job q.items i }

goes_before-Ahead : (a b : QueuedJob) → goes_before a b ≡ true → Ahead a b
unfolding goes_before
goes_before-Ahead a b h = ground (arith, eq_of_parts a.priority b.priority)

not_before-Ahead : (a b : QueuedJob) → goes_before a b ≡ false → Ahead b a
unfolding goes_before
not_before-Ahead a b h = ground (arith, eq_of_parts b.priority a.priority)

Ahead-trans : (a b c : QueuedJob) → Ahead a b → Ahead b c → Ahead a c
Ahead-trans a b c h k = ground arith

place-All :
    (x job : QueuedJob) (xs : List QueuedJob)
    → Ahead x job
    → All (Ahead x) xs
    → All (Ahead x) (place job xs)
unfolding place
place-All x job [] h k = (h, tt)
place-All x job (y ∷ ys) h k = elim (Bool-cases (goes_before job y)) [
  | inl e ↦ rw e (h, k)
  | inr e ↦ rw e (k.0, place-All x job ys h k.1)
]

pub place-IsSorted : (job : QueuedJob) (xs : List QueuedJob) → IsSorted xs → IsSorted (place job xs)
unfolding place
place-IsSorted job [] s = (tt, tt)
place-IsSorted job (x ∷ xs) s = elim (Bool-cases (goes_before job x)) [
  | inl e ↦
      let first = goes_before-Ahead job x e in
      rw e ((first, All-map _ _ (λ y k. Ahead-trans job x y first k) xs s.0), s)
  | inr e ↦ rw e (place-All x job xs (not_before-Ahead job x e) s.0, place-IsSorted job xs s.1)
]

pub place-perm : (job : QueuedJob) (xs : List QueuedJob) → Perm (place job xs) (job ∷ xs)
unfolding place
place-perm job [] = Perm.refl _
place-perm job (x ∷ xs) = elim (Bool-cases (goes_before job x)) [
  | inl e ↦ rw e (Perm.refl _)
  | inr e ↦ rw e (Perm.trans (Perm.cons x (place-perm job xs)) (Perm.swap job x xs))
]

-- Jobs between which only their order of arrival can decide.
abbrev pub same_rank : QueuedJob → QueuedJob → Bool
same_rank a b = eqb_ℤ a.priority b.priority && eqb_ℤ a.enqueued_at b.enqueued_at

no_rank_behind :
    (job x : QueuedJob) (xs : List QueuedJob)
    → goes_before job x ≡ true
    → All (Ahead x) xs
    → select (same_rank job) xs ≡ []
no_rank_behind job x [] b h = refl
no_rank_behind job x (y ∷ ys) b h = ground (arith, no_rank_behind job x ys b h.1, strictly job x y)
  where
    strictly : (a b c : QueuedJob) → goes_before a b ≡ true → Ahead b c → same_rank a c ≡ false
    strictly a b c p k = unfold goes_before in ground arith

select-place :
    (job : QueuedJob) (xs : List QueuedJob)
    → IsSorted xs
    → select (same_rank job) (place job xs) ≡ select (same_rank job) xs ++ (job ∷ [])
unfolding place
select-place job [] s = ground arith
select-place job (x ∷ xs) s = elim (Bool-cases (goes_before job x)) [
  | inl b ↦ rw b (ground (arith, no_rank_behind job x (x ∷ xs) b (ground arith, s.0)))
  | inr b ↦ rw b (ground (arith, select-place job xs s.1))
]

-- Insertion into ordered items puts a job behind all items of its priority and time of enqueueing,
-- and leaves the order of those as it was.
pub insert_locked_fifo :
    (job : QueuedJob) (q : Queue)
    → IsSorted q.items
    → select (same_rank job) (insert_locked job q).items
      ≡ select (same_rank job) q.items ++ (job ∷ [])
insert_locked_fifo job q s = rw (insert_locked-place job q) (select-place job q.items s)

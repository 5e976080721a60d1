-- ===== src/Store/Limits.antt =====
-- The listing loops compute the first matches in the order of the visit.
use mathlib.Core.List.{append_assoc, append-nil}
use chronos_dev.Common.{
  ℕ, zero, suc, ℤ, pos, ◌+◌, String, Bool, List, [], ◌∷◌, ◌++◌, ◌≡◌, refl, sym, Visit, length,
  length-append, take, select, values, arith, Bool-cases, inl, inr, pos_part, negsuc,
}
use chronos_dev.Domain.Job.{Job, Instant, cancel_requested, same_state}
use chronos_dev.Store.State.{Store}
use chronos_dev.Store.Listing.{
  or_fifty, collect, collect_due, has_state, list_jobs, is_due, list_due_scheduled,
  list_cancel_requested, is_timed_out, list_timed_out_running,
}

take_nil : (n : ℕ) → take {A = Job} n [] ≡ []
take_nil zero = refl
take_nil (suc n) = refl

one_more : (out : List Job) (j : Job) → length (out ++ (j ∷ [])) ≡ suc (length out)
one_more out j = omega (arith, length-append out (j ∷ []))

-- `room` more jobs may be taken after the next one.
module _ (p : Job → Bool) (limit : ℕ) where
  collect-take :
      (room : ℕ) (out : List Job) (m : List (String × Job))
      → length out + suc room ≡ limit
      → collect p (pos limit) out m ≡ out ++ take (suc room) (select p (values m))
  unfolding collect
  collect-take room out [] h = sym (append-nil out)
  collect-take zero out ((k, j) ∷ m) h = elim (Bool-cases (p j)) [
    | inl e ↦ rw e (ground (arith, one_more out j))
    | inr e ↦ rw e (collect-take zero out m h)
  ]
  collect-take (suc room) out ((k, j) ∷ m) h = elim (Bool-cases (p j)) [
    | inl e ↦ rw e (
        ground (
          arith,
          one_more out j,
          collect-take room (out ++ (j ∷ [])) m (omega (arith, one_more out j)),
          append_assoc out (j ∷ []) (take (suc room) (select p (values m))),
        ))
    | inr e ↦ rw e (collect-take (suc room) out m h)
  ]

  collect_due-take :
      (room : ℕ) (out : List Job) (m : List (String × Job))
      → length out + suc room ≡ limit
      → collect_due p (pos limit) out m ≡ out ++ take (suc room) (select p (values m))
  unfolding collect_due
  collect_due-take room out [] h = sym (append-nil out)
  collect_due-take zero out ((k, j) ∷ m) h = elim (Bool-cases (p j)) [
    | inl e ↦ rw e (ground (arith, one_more out j))
    | inr e ↦ rw e (ground (arith, collect_due-take zero out m h))
  ]
  collect_due-take (suc room) out ((k, j) ∷ m) h = elim (Bool-cases (p j)) [
    | inl e ↦ rw e (
        ground (
          arith,
          one_more out j,
          collect_due-take room (out ++ (j ∷ [])) m (omega (arith, one_more out j)),
          append_assoc out (j ∷ []) (take (suc room) (select p (values m))),
        ))
    | inr e ↦ rw e (ground (arith, collect_due-take (suc room) out m h))
  ]

-- The number of jobs that a limit lets through, where 50 stands for a limit that is not positive.
abbrev pub capacity_of : ℤ → ℕ
capacity_of limit = pos_part (or_fifty limit)

collect-select :
    (p : Job → Bool) (limit : ℤ) (m : List (String × Job))
    → collect p (or_fifty limit) [] m ≡ take (capacity_of limit) (select p (values m))
collect-select p (pos zero) m = collect-take p 50 49 [] m (omega arith)
collect-select p (pos (suc n)) m = ground (arith, collect-take p (suc n) n [] m (omega arith))
collect-select p (negsuc n) m = ground (arith, collect-take p 50 49 [] m (omega arith))

-- Each of the three listings of jobs with a limit returns the first jobs of its kind in the order of
-- the visit: all of them, or as many as the limit (50 if the limit is not positive).
pub listings_exact :
    (visit : Visit Job) (now : Instant) (state : String) (limit : ℤ) (s : Store)
    → let jobs = values (visit s.jobs) in
      let room = capacity_of limit in
      (list_jobs visit state limit s ≡ take room (select (has_state state) jobs))
      × (list_cancel_requested visit limit s
          ≡ take room (select (λ j. same_state j.state cancel_requested) jobs))
      × (list_timed_out_running visit now limit s ≡ take room (select (is_timed_out now) jobs))
unfolding list_jobs list_cancel_requested list_timed_out_running
listings_exact visit now state limit s = (
  collect-select _ limit (visit s.jobs),
  collect-select _ limit (visit s.jobs),
  collect-select _ limit (visit s.jobs),
)

-- With a positive limit the jobs listed as due are the first due ones in the order of the visit, as
-- many as the limit if there are more.
pub list_due_scheduled-take :
    (visit : Visit Job) (now : Instant) (n : ℕ) (s : Store)
    → list_due_scheduled visit now (pos (suc n)) s
      ≡ take (suc n) (select (is_due now) (values (visit s.jobs)))
unfolding list_due_scheduled
list_due_scheduled-take visit now n s =
    collect_due-take (is_due now) (suc n) n [] (visit s.jobs) (omega arith)

-- ===== src/Queue/Delivery.antt =====
-- What the queue delivers: the first item in order, every item once, a failed one again.
use mathlib.Core.List.{perm_middle, append_assoc, append-nil, map-append}
use mathlib.Core.List.Perm
use chronos_dev.Common.{
  ◌≢◌, eqb_ℤ, eq_of_parts, Bool-cases, inl, inr, String, true, false, not, List, [], ◌∷◌, ◌++◌, map,
  Perm, ◌≡◌, refl, ap, sym, subst, arith, All, select, if◌then◌else◌, none, some, after, Error, ok,
  ◌∙◌,
}
use chronos_dev.Domain.Job.{QueuedJob, Instant, zero_time}
use chronos_dev.Queue.{
  Queue, DelayedItem, took, insert_locked, enqueue, is_due, release_loop, release_delayed,
  take_next, settle, stamp,
}
use chronos_dev.Queue.Order.{Ahead, IsSorted, insert_locked-place, place-perm}

-- The first item of an ordered queue may stand ahead of each one that stays, and it is taken unless
-- the queue is closed.
pub take_next-first :
    (q : Queue) (job : QueuedJob) (rest : List QueuedJob)
    → IsSorted q.items
    → q.closed ≡ false
    → q.items ≡ job ∷ rest
    → (take_next q ≡ took job (record q { items = rest })) × All (Ahead job) rest
unfolding take_next
take_next-first q job rest s open_ e = (ground arith, (subst IsSorted e s).0)

-- The identifiers that a queue holds, ready or delayed.
abbrev pub ids : List QueuedJob → List String
ids = map (λ job. job.job_id)

abbrev pub delayed_ids : List DelayedItem → List String
delayed_ids = map (λ d. d.job.job_id)

abbrev pub held : Queue → List String
held q = ids q.items ++ delayed_ids q.delayed

insert_locked-perm :
    (job : QueuedJob) (q : Queue)
    → Perm (ids (insert_locked job q).items) (job.job_id ∷ ids q.items)
insert_locked-perm job q =
    rw (insert_locked-place job q) (Perm.map (λ (j : QueuedJob). j.job_id) (place-perm job q.items))

shift :
    (x : String) (xs bs cs : List String) → Perm (x ∷ (xs ++ (bs ++ cs))) (xs ++ (bs ++ (x ∷ cs)))
shift x xs bs cs =
    Perm.symm (Perm.trans (Perm.append_left xs (perm_middle bs cs)) (perm_middle xs (bs ++ cs)))

release_loop-perm :
    (now : Instant) (ds rs : List DelayedItem) (q : Queue)
    → Perm (held (release_loop now ds rs q)) (ids q.items ++ (delayed_ids rs ++ delayed_ids ds))
unfolding release_loop
release_loop-perm now [] rs q = rw append-nil (Perm.refl _)
release_loop-perm now (d ∷ ds) rs q =
    elim (is_due now d)
      as (λ b.
        Perm
          (held (
            release_loop now ds (if b then rs else rs ++ (d ∷ []))
              (if b then insert_locked d.job q else q)))
          (ids q.items ++ (delayed_ids rs ++ (d.job.job_id ∷ delayed_ids ds)))) [
            | true ↦ Perm.trans (release_loop-perm now ds rs (insert_locked d.job q)) (
                Perm.trans (Perm.append_right _ (insert_locked-perm d.job q))
                  (shift d.job.job_id (ids q.items) (delayed_ids rs) (delayed_ids ds)))
            | false ↦
                subst (λ t. Perm (held (release_loop now ds (rs ++ (d ∷ [])) q)) (ids q.items ++ t))
                  (ap (λ t. t ++ delayed_ids ds) (map-append _ rs (d ∷ []))
                    ∙ append_assoc (delayed_ids rs) (d.job.job_id ∷ []) (delayed_ids ds))
                  (release_loop-perm now ds (rs ++ (d ∷ [])) q)
          ]

-- A tick of the delay loop loses and copies no job.
pub release_delayed-perm :
    (now : Instant) (q : Queue) → Perm (held (release_delayed now q)) (held q)
unfolding release_delayed
release_delayed-perm now q =
    elim q.closed
      as (λ b. Perm (held (if b then q else release_loop now q.delayed [] q)) (held q)) [
        | true ↦ Perm.refl _
        | false ↦ release_loop-perm now q.delayed [] q
      ]

release_loop-delayed :
    (now : Instant) (ds rs : List DelayedItem) (q : Queue)
    → (release_loop now ds rs q).delayed ≡ rs ++ select (λ d. not (is_due now d)) ds
unfolding release_loop
release_loop-delayed now [] rs q = sym (append-nil rs)
release_loop-delayed now (d ∷ ds) rs q =
    elim (is_due now d)
      as (λ b.
        (release_loop now ds (if b then rs else rs ++ (d ∷ []))
          (if b then insert_locked d.job q else q)).delayed
        ≡ rs
          ++ (if not b
              then d ∷ select (λ d. not (is_due now d)) ds
              else select (λ d. not (is_due now d)) ds)) [
                | true ↦ release_loop-delayed now ds rs (insert_locked d.job q)
                | false ↦
                    release_loop-delayed now ds (rs ++ (d ∷ [])) q ∙ append_assoc rs (d ∷ []) _
              ]

-- A tick of the delay loop of an open queue leaves exactly the delayed jobs that are not due, in
-- their order, and loses and copies no job.
pub release_delayed_exact :
    (now : Instant) (q : Queue)
    → q.closed ≡ false
    → ((release_delayed now q).delayed ≡ select (λ d. not (is_due now d)) q.delayed)
      × Perm (held (release_delayed now q)) (held q)
unfolding release_delayed
release_delayed_exact now q open_ =
    (ground (arith, release_loop-delayed now q.delayed [] q), release_delayed-perm now q)

-- Between the items and the delayed ones nothing else is written.
insert_locked-delayed : (job : QueuedJob) (q : Queue) → (insert_locked job q).delayed ≡ q.delayed
unfolding insert_locked
insert_locked-delayed job q = refl

stamp-id : (now : Instant) (job : QueuedJob) → (stamp now job).job_id ≡ job.job_id
stamp-id now job = ground arith

take_next-took :
    (q rest : Queue) (job : QueuedJob)
    → take_next q ≡ took job rest
    → (q.items ≡ job ∷ rest.items) × (q.delayed ≡ rest.delayed) × (rest.closed ≡ false)
unfolding take_next
take_next-took q rest job h = ground arith

enqueue_open :
    (now : Instant) (job : QueuedJob) (q : Queue)
    → q.closed ≡ false
    → after q (enqueue now job q) ≡ insert_locked (stamp now job) q
unfolding enqueue
enqueue_open now job q h = ground arith

pub requeue-perm :
    (now : Instant) (job : QueuedJob) (q : Queue)
    → q.closed ≡ false
    → Perm (held (after q (enqueue now job q))) (job.job_id ∷ held q)
unfolding insert_locked
requeue-perm now job q h = rw (enqueue_open now job q h) (
    subst (λ x. Perm (held (insert_locked (stamp now job) q)) (x ∷ held q)) (stamp-id now job)
      (Perm.append_right (delayed_ids q.delayed) (insert_locked-perm (stamp now job) q)))

-- The job as it was, with `now` as its time of enqueueing if it had none.
pub record IsStamped (now : Instant) (job stamped : QueuedJob) : Type 0 where
  pub same : stamped ≡ record job { enqueued_at = stamped.enqueued_at }
  pub filled : job.enqueued_at ≡ zero_time → stamped.enqueued_at ≡ now
  pub kept : job.enqueued_at ≢ zero_time → stamped ≡ job

zero_eq : (t : Instant) → eqb_ℤ t zero_time ≡ true → t ≡ zero_time
zero_eq t e = ground (arith, e, eq_of_parts t zero_time)

nonzero_ne : (t : Instant) → eqb_ℤ t zero_time ≡ false → t ≢ zero_time
nonzero_ne t e h = ground (arith, e, h)

stamp-IsStamped : (now : Instant) (job : QueuedJob) → IsStamped now job (stamp now job)
stamp-IsStamped now job = elim (Bool-cases (eqb_ℤ job.enqueued_at zero_time)) [
  | inl e ↦ record {
    same = rw e refl;
    filled = λ h. rw e refl;
    kept = λ p. absurd (p (zero_eq job.enqueued_at e));
  }
  | inr e ↦ record {
    same = rw e refl;
    filled = λ h. absurd (nonzero_ne job.enqueued_at e h);
    kept = λ p. rw e refl;
  }
]

-- A job that a queue hands out, whole as it stood there, is the only one that leaves it, and if its handler
-- succeeds that is all. If its handler fails, the queue holds it again beside the other jobs, each as it
-- was, with every field as it was but the time of its enqueueing, which is filled in if the job had none;
-- the delayed jobs stay in either case.
pub settle-take_next :
    (now : Instant) (q rest : Queue) (job : QueuedJob) (e : Error)
    → take_next q ≡ took job rest
    → let done = settle now job none rest in
      let failed = settle now job (some e) rest in
      (job ∷ done.items ≡ q.items)
      × (done.delayed ≡ q.delayed)
      × ((stamped : QueuedJob) × IsStamped now job stamped
          × Perm failed.items (stamped ∷ done.items)
          × (failed.delayed ≡ q.delayed))
unfolding settle insert_locked
settle-take_next now q rest job e h =
    let facts = take_next-took q rest job h in
    let back = enqueue_open now job rest facts.2 in
    (
      sym facts.0,
      sym facts.1,
      (
        stamp now job,
        stamp-IsStamped now job,
        subst (λ x. Perm x.items (stamp now job ∷ rest.items)) (sym back)
            (subst (λ x. Perm x.items (stamp now job ∷ rest.items))
              (sym (insert_locked-place (stamp now job) rest))
              (place-perm (stamp now job) rest.items)),
        ap (λ x. x.delayed) back ∙ sym facts.1,
      ),
    )

pub enqueue_succeeds :
    (now : Instant) (job : QueuedJob) (q : Queue)
    → q.closed ≡ false
    → enqueue now job q ≡ ok (after q (enqueue now job q))
unfolding enqueue
enqueue_succeeds now job q h = ground arith

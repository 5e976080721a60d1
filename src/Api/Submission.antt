-- ===== src/Api/Submission.antt =====
-- What a request to create a job does.
use chronos_dev.Common.{
  pos, String, Bool, true, false, not, ◌&&◌, ◌||◌, ◌∷◌, some, ◌==◌, eq_iff, ◌≡◌, ◌≢◌, refl, ◌∙◌,
  sym, ap, subst, ◌⊎◌, lookup, lookup-insert, eq_refl, insert, Result, ok, err, ◌≤ℤ◌, leb_ℤ, Perm,
  ◌++◌, [], arith, bind-ok, after,
}
use chronos_dev.Domain.Job.{
  Job, CreateJobRequest, queued, scheduled, Instant, job_type_builtin, job_type_webhook,
}
use chronos_dev.Domain.Schedule.{validate_schedule}
use chronos_dev.Store.Jobs.{no_fields, write_fields, update_job_state}
use chronos_dev.Store.Listing.{reached}
use chronos_dev.Store.Update.{update_job_state-found}
use chronos_dev.Domain.Event.{job_queued}
use chronos_dev.Store.Idempotency.{finds_stored}
use chronos_dev.Queue.{Queue, enqueue}
use chronos_dev.Queue.Delivery.{held, requeue-perm, enqueue_succeeds}
use chronos_dev.Scheduler.Assign.{queued_job}
use chronos_dev.Api.{
  Env, Server, new_job, first_run, type_of, priority_of, schedule_of, prepare, mark_queued,
  enqueued, enqueue_job, answer, announce, stored_job, submit, create_job_handler, require,
  no_error,
}

require-ok : (b : Bool) (why : String) (u : Unit {0}) → require b why ≡ ok u → b ≡ true
require-ok true why u h = refl
require-ok false why u h = absurd (cc)

-- A job that a request may ask for: named, of a known type, with a priority from 1 to 10, scheduled for some
-- time, not yet attempted, under the fresh identifier and the request's key.
pub record Acceptable (env : Env) (req : CreateJobRequest) (job : Job) : Type 0 where
  pub named : job.name ≢ ""
  pub typed : (job.job_type ≡ job_type_builtin) ⊎ (job.job_type ≡ job_type_webhook)
  pub ranked : (pos 1 ≤ℤ job.priority) × (job.priority ≤ℤ pos 10)
  pub planned : (t : Instant) × (job.scheduled_at ≡ some t)
  pub fresh : (job.state ≡ scheduled) × (job.attempt ≡ pos 0) × (job.id ≡ env.uuid)
  pub same_key : job.idempotency_key ≡ req.idempotency_key

new_job-Acceptable :
    (env : Env) (req : CreateJobRequest) (t : Instant)
    → not (req.name == "") ≡ true
    → (type_of req == job_type_builtin || type_of req == job_type_webhook) ≡ true
    → (leb_ℤ (pos 1) (priority_of req) && leb_ℤ (priority_of req) (pos 10)) ≡ true
    → Acceptable env req (new_job env req t)
unfolding new_job
new_job-Acceptable env req t a b c = record {
  named = λ e. absurd (ground (arith, a, e, eq_iff req.name ""));
  typed =
      ground
        (arith, b, eq_iff (type_of req) job_type_builtin, eq_iff (type_of req) job_type_webhook);
  ranked = (ground (arith, c), ground (arith, c));
  planned = (t, refl);
  fresh = (refl, refl, refl);
  same_key = refl;
}

-- A request that is not refused asks for an acceptable job.
pub prepare-Acceptable :
    (env : Env) (req : CreateJobRequest) (job : Job)
    → prepare env req ≡ ok job
    → Acceptable env req job
unfolding prepare
prepare-Acceptable env req job h =
    let (u1, a, h1) = bind-ok _ _ job h in
    let (u2, b, h2) = bind-ok _ _ job h1 in
    let (u3, c, h3) = bind-ok _ _ job h2 in
    let (u4, d, h4) =
      bind-ok (no_error (validate_schedule env.cron env.now (schedule_of req))) _ job h3 in
    let (t, e, h5) = bind-ok (first_run env.cron (schedule_of req) env.now) _ job h4 in
    subst (Acceptable env req) (ok-injective h5) (
      new_job-Acceptable env req t (require-ok _ _ u1 a) (require-ok _ _ u2 b)
        (require-ok _ _ u3 c))
  where
    ok-injective : {x y : Job} → ok x ≡ ok y → x ≡ y
    ok-injective q = cc

-- The update that `enqueueJob` makes to a stored job.
abbrev pub marked : Env → Job → Job
marked env j = write_fields env.now queued (record no_fields { queued_at = some env.now }) j

-- The queue once the job's message is in it, and the server before the job is marked.
abbrev queue_with : Env → Job → Server → Queue
queue_with env j s = after s.queue (enqueue env.now (queued_job env.now j) s.queue)

mark_queued-found :
    (env : Env) (j i : Job) (s : Server)
    → lookup j.id s.store.jobs ≡ some i
    → mark_queued env j
        (update_job_state env.now j.id queued
          (record no_fields { queued_at = some env.now })
          s.store)
        s
      ≡ (
        record s { store = record s.store { jobs = insert j.id (marked env i) s.store.jobs } },
        ok (record j { state = queued; queued_at = some env.now }),
      )
unfolding mark_queued
mark_queued-found env j i s h = rw (update_job_state-found env.now j.id queued _ s.store i h) refl

enqueue_job-found :
    (env : Env) (j : Job) (s : Server)
    → lookup j.id s.store.jobs ≡ some j
    → s.queue.closed ≡ false
    → let r = enqueue_job env j s in
      (r.1 ≡ ok (record j { state = queued; queued_at = some env.now }))
      × (lookup j.id r.0.store.jobs ≡ some (marked env j))
      × (r.0.queue ≡ queue_with env j s)
unfolding enqueue_job enqueued
enqueue_job-found env j s h open_ =
    let queued_up = enqueue_succeeds env.now (queued_job env.now j) s.queue open_ in
    let t : Server = record s {
      queue = queue_with env j s;
      emitted =
          s.emitted
          ++ (record {
            event_type = job_queued;
            job_id = j.id;
            execution_id = "";
            worker_id = "";
            attempt = j.attempt;
            payload = [];
          }
              ∷ []);
    } in
    let run : enqueue_job env j s ≡ _ =
      ap (λ x. enqueued env j x s) queued_up ∙ mark_queued-found env j j t h in
    (
      ap (λ x. x.1) run,
      ap (λ x. lookup j.id x.0.store.jobs) run ∙ rw (lookup-insert, eq_refl j.id) refl,
      ap (λ x. x.0.queue) run,
    )

answer-ok :
    (x : Server × Result Job) (j : Job)
    → x.1 ≡ ok j
    → ((answer x).0 ≡ x.0) × ((answer x).1.status ≡ 201)
answer-ok (s, ok i) j h = (refl, refl)
answer-ok (s, err e) j h = absurd (cc)

stored_job-due :
    (env : Env) (j : Job) (s : Server) (t : Instant)
    → j.scheduled_at ≡ some t
    → t ≤ℤ env.now
    → stored_job env (ok (j, s.store)) s ≡ answer (enqueue_job env j (announce j s))
unfolding stored_job
stored_job-due env j s t due past =
    let at_once : reached env.now j.scheduled_at ≡ true = simp due (ground arith) in rw at_once refl

submit_taken :
    (env : Env) (req : CreateJobRequest) (s : Server) (new j : Job) (t : Instant)
    → prepare env req ≡ ok new
    → new.idempotency_key ≢ ""
    → lookup new.idempotency_key s.store.by_idem ≡ some j.id
    → lookup j.id s.store.jobs ≡ some j
    → j.scheduled_at ≡ some t
    → t ≤ℤ env.now
    → create_job_handler env req s ≡ answer (enqueue_job env j (announce j s))
unfolding create_job_handler submit
submit_taken env req s new j t p nonempty taken found due past =
    ap (λ x. submit env x s) p
    ∙ (ap (λ x. stored_job env x s)
          (finds_stored env.now env.uuid j.id new s.store j nonempty taken found)
        ∙ stored_job-due env j s t due past)

-- A second request with a key that is taken is answered as created, and runs the job of the first again: if
-- that job was due and the queue is open, its message goes to the queue and it becomes queued, whatever
-- state it was in. A completed job is run once more.
pub resubmit_requeues :
    (env : Env) (req : CreateJobRequest) (s : Server) (new j : Job) (t : Instant)
    → prepare env req ≡ ok new
    → new.idempotency_key ≢ ""
    → lookup new.idempotency_key s.store.by_idem ≡ some j.id
    → lookup j.id s.store.jobs ≡ some j
    → j.scheduled_at ≡ some t
    → t ≤ℤ env.now
    → s.queue.closed ≡ false
    → let r = create_job_handler env req s in
      (r.1.status ≡ 201)
      × (lookup j.id r.0.store.jobs ≡ some (marked env j))
      × Perm (held r.0.queue) (j.id ∷ held s.queue)
unfolding announce queued_job
resubmit_requeues env req s new j t p nonempty taken found due past open_ =
    let run = submit_taken env req s new j t p nonempty taken found due past in
    let facts = enqueue_job-found env j (announce j s) found open_ in
    let answered = answer-ok (enqueue_job env j (announce j s)) _ facts.0 in
    (
      ap (λ x. x.1.status) run ∙ answered.1,
      ap (λ x. lookup j.id x.0.store.jobs) run
          ∙ (ap (λ x. lookup j.id x.store.jobs) answered.0 ∙ facts.1),
      subst (λ q. Perm (held q) (j.id ∷ held s.queue))
          (sym (ap (λ x. x.0.queue) run ∙ (ap (λ x. x.queue) answered.0 ∙ facts.2)))
          (requeue-perm env.now (queued_job env.now j) s.queue open_),
    )

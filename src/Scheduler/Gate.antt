-- ===== src/Scheduler/Gate.antt =====
-- What the token check and the registration of a worker amount to.
use chronos_dev.Common.{
  ℤ, String, true, false, [], Option, none, some, ◌≡◌, refl, ◌∙◌, ap, Map, lookup, insert,
  lookup-insert, eq_refl, arith, Error, ltb_ℤ, -ℤ_parts,
}
use chronos_dev.Domain.Worker.{Worker, WorkerStatus, available_slots, is_assignable}
use chronos_dev.Store.Fleet.{upsert_worker}
use chronos_dev.Auth.{Authenticator, valid_worker_token}
use chronos_dev.Scheduler.State.{Service, Env, emit}
use chronos_dev.Scheduler.Fleet.{
  registered, connect, register_worker, refreshed, heartbeat_of, heartbeat,
}
use chronos_dev.Scheduler.Grpc.{
  RegisterRequest, worker_of, register_call, heartbeat_call, deregister_call, ReportRequest,
  report_call,
}

-- A call of a worker whose token is not accepted changes nothing, and is answered with a refusal.
pub unauthorized_unchanged :
    (auth : Authenticator) (print : Error → String) (env : Env) (dial : Option Error)
    (req : RegisterRequest) (report : ReportRequest) (token id : String) (active capacity : ℤ)
    (s : Service)
    → valid_worker_token auth token ≡ false
    → req.token ≡ token
    → report.token ≡ token
    → let r = register_call auth print env dial req s in
      let h = heartbeat_call auth env token id active capacity s in
      ((r.0 ≡ s) × (r.1.is_ok ≡ false))
      × ((h.0 ≡ s) × (h.1.is_ok ≡ false) × (h.1.cancel_job_ids ≡ []))
      × (deregister_call auth token id s ≡ (s, false))
      × (report_call auth env report s ≡ (s, (false, none)))
unfolding register_call heartbeat_call deregister_call report_call
unauthorized_unchanged auth print env dial req report token id active capacity s refused p q =
    rw (p, q, refused) ((refl, refl), (refl, refl, refl), refl, refl)

-- The service once a worker is registered.
abbrev pub with_worker : Env → Worker → Service → Service
with_worker env w s = (connect env w none (record s { store = upsert_worker w s.store })).0

pub register-with_worker :
    (auth : Authenticator) (print : Error → String) (env : Env) (req : RegisterRequest)
    (s : Service)
    → valid_worker_token auth req.token ≡ true
    → register_call auth print env none req s ≡ (
      with_worker env (registered env.now (worker_of req)) s,
      record { is_ok = true; message = "registered" },
    )
unfolding register_call register_worker connect
register-with_worker auth print env req s accepted = rw accepted refl

lookup-inserted : (id : String) (w : Worker) (m : Map Worker) → lookup id (insert id w m) ≡ some w
lookup-inserted id w m = rw (lookup-insert, eq_refl id) refl

pub connected :
    (env : Env) (w : Worker) (s : Service) → lookup w.id (with_worker env w s).workers ≡ some w
unfolding connect emit
connected env w s = lookup-inserted w.id w s.workers

pub heartbeat-known :
    (auth : Authenticator) (env : Env) (token id : String) (active capacity : ℤ) (s : Service)
    (w : Worker)
    → valid_worker_token auth token ≡ true
    → lookup id s.workers ≡ some w
    → w.id ≡ id
    → let t = (heartbeat_call auth env token id active capacity s).0 in
      (lookup id t.workers ≡ some (refreshed env.now active capacity w))
      × (lookup id t.store.workers ≡ some (refreshed env.now active capacity w))
unfolding heartbeat_call heartbeat heartbeat_of upsert_worker refreshed
heartbeat-known auth env token id active capacity s w accepted h p =
    rw (accepted, h, p) (lookup-inserted id _ s.workers, lookup-inserted id _ s.store.workers)

assignable_exact :
    (w : Worker)
    → w.status ≡ WorkerStatus.healthy
    → is_assignable w ≡ ltb_ℤ w.active_jobs w.capacity
unfolding is_assignable available_slots
assignable_exact w h = ground (arith, h, -ℤ_parts w.capacity w.active_jobs)

-- A worker that registers with an accepted token, and is reached, is healthy after its next heartbeat,
-- both in the service and in the store, with the numbers that the heartbeat gives; it can take a job
-- exactly if it has fewer jobs than slots.
pub register-heartbeat :
    (auth : Authenticator) (print : Error → String) (env later : Env) (req : RegisterRequest)
    (active capacity : ℤ) (s : Service)
    → valid_worker_token auth req.token ≡ true
    → let t = (register_call auth print env none req s).0 in
      let u = (heartbeat_call auth later req.token req.worker_id active capacity t).0 in
      (w : Worker) × (lookup req.worker_id u.workers ≡ some w)
      × (lookup req.worker_id u.store.workers ≡ some w)
      × (w.active_jobs ≡ active)
      × (w.last_heartbeat ≡ later.now)
      × (is_assignable w ≡ ltb_ℤ active capacity)
unfolding refreshed registered worker_of
register-heartbeat auth print env later req active capacity s accepted =
    let w = registered env.now (worker_of req) in
    let joined =
      ap (λ x. lookup req.worker_id x.0.workers)
        (register-with_worker auth print env req s accepted)
      ∙ connected env w s in
    let seen =
      heartbeat-known auth later req.token req.worker_id active capacity _ w accepted joined refl in
    (
      refreshed later.now active capacity w,
      seen.0,
      seen.1,
      refl,
      refl,
      assignable_exact (refreshed later.now active capacity w) refl,
    )

-- ===== src/Worker/Session/Lost.antt =====
-- A worker that the scheduler gives up as lost.
use chronos_dev.Common.{
  String, Bool, true, false, List, [], ◌∷◌, none, ◌==◌, ◌≡◌, refl, ap, ◌∙◌, arith, inl, inr,
  Bool-cases, if◌then◌else◌, lookup, delete, lookup-delete, eq_iff, All, Error,
}
use chronos_dev.Domain.Job.{Job}
use chronos_dev.Auth.{Authenticator}
use chronos_dev.Store.Fleet.{mark_stale_workers}
use chronos_dev.Scheduler.State.{Service, Env, emit, set_job, finish, has}
use chronos_dev.Scheduler.Report.{set_retrying}
use chronos_dev.Scheduler.Recovery.{
  recover_job, recover_all, recover_worker_jobs, drop_worker, drop_all, check_workers,
}
use chronos_dev.Worker.Session.{World, Turn, beating, session}
use chronos_dev.Worker.Session.Forgotten.{IsServedTick, IsForgotten, session-IsForgotten}

recover_job-workers :
    (env : Env) (id : String) (j : Job) (s : Service) → (recover_job env id j s).workers ≡ s.workers
unfolding recover_job emit set_job finish set_retrying
recover_job-workers env id j s = ground arith

recover_all-workers :
    (env : Env) (id : String) (js : List Job) (s : Service)
    → (recover_all env id js s).workers ≡ s.workers
unfolding recover_all
recover_all-workers env id [] s = refl
recover_all-workers env id (j ∷ js) s =
    recover_all-workers env id js (if j.worker_id == id then recover_job env id j s else s)
    ∙ go (j.worker_id == id)
  where
    go : (b : Bool) → (if b then recover_job env id j s else s).workers ≡ s.workers
    go true = recover_job-workers env id j s
    go false = refl

drop_worker-workers :
    (env : Env) (id : String) (s : Service) → (drop_worker env id s).workers ≡ delete id s.workers
unfolding drop_worker recover_worker_jobs emit
drop_worker-workers env id s = recover_all-workers env id _ _

drop_worker-none :
    (env : Env) (key id : String) (s : Service)
    → lookup id s.workers ≡ none
    → lookup id (drop_worker env key s).workers ≡ none
drop_worker-none env key id s h =
    ap (lookup id) (drop_worker-workers env key s)
    ∙ lookup-delete key id s.workers
    ∙ ground (arith, h)

drop_all-none :
    (env : Env) (id : String) (ids : List String) (s : Service)
    → lookup id s.workers ≡ none
    → lookup id (drop_all env ids s).workers ≡ none
unfolding drop_all
drop_all-none env id [] s h = h
drop_all-none env id (key ∷ ids) s h =
    drop_all-none env id ids (drop_worker env key s) (drop_worker-none env key id s h)

drop_all-gone :
    (env : Env) (id : String) (ids : List String) (s : Service)
    → has id ids ≡ true
    → lookup id (drop_all env ids s).workers ≡ none
unfolding drop_all has
drop_all-gone env id [] s h = absurd (cc)
drop_all-gone env id (key ∷ ids) s h = elim (Bool-cases (has id ids)) [
  | inl e ↦ drop_all-gone env id ids (drop_worker env key s) e
  | inr e ↦ drop_all-none env id ids (drop_worker env key s) (
      ap (lookup id) (drop_worker-workers env key s)
      ∙ lookup-delete key id s.workers
      ∙ ground (arith, h, e, eq_iff id key, eq_iff key id))
]

-- A worker's session is past its registration when the scheduler gives the worker up as lost, that is, when its sweep
-- of the store finds no heartbeat for too long. However many heartbeats the scheduler serves from then on, and
-- whatever else happens to it that does not register the worker, the session goes on with heartbeats and never
-- registers again: the scheduler does not know the worker.
pub check_workers-IsForgotten :
    (auth : Authenticator) (print : Error → String) (env : Env) (turns : List Turn) (w : World)
    → w.phase ≡ beating
    → has w.node.cfg.id
        (mark_stale_workers env.visit_workers env.now w.service.cfg.heartbeat_timeout
          w.service.cfg.suspect_grace_period w.service.store).unavailable_ids
      ≡ true
    → All (IsServedTick w.node.cfg.id) turns
    → IsForgotten w.node.cfg.id
        (session auth print turns (record w { service = check_workers env w.service }))
unfolding check_workers
check_workers-IsForgotten auth print env turns w beats lost served_ticks =
    session-IsForgotten auth print w.node.cfg.id turns _ served_ticks record {
      named = refl;
      is_beating = beats;
      unknown = drop_all-gone env w.node.cfg.id _ _ lost;
    }

-- ===== src/Scheduler/Fleet.antt =====
-- internal/scheduler/scheduler.go: `RegisterWorker`, `Heartbeat` and `Deregister`.
use chronos_dev.Common.{
  ℤ, pos, String, List, [], ◌∷◌, Option, none, some, if◌then◌else◌, lookup, insert, delete, eqb_ℤ,
  Error,
}
use chronos_dev.Domain.Job.{Instant, zero_time}
use chronos_dev.Domain.Worker.{Worker, healthy}
use chronos_dev.Domain.Event.{worker_registered, worker_deregistered, text, number}
use chronos_dev.Store.Fleet.{upsert_worker}
use chronos_dev.Scheduler.State.{Service, Env, Act, emit, or_empty}

unfoldable pub registered : Instant → Worker → Worker
registered now w = record w {
  status = healthy;
  last_heartbeat = now;
  registered_at = if eqb_ℤ w.registered_at zero_time then now else w.registered_at;
}

unfoldable pub connect : Env → Worker → Option Error → Act
connect env w (some e) s = (s, some e)
connect env w none s = (
  emit worker_registered "" "" w.id (pos 0)
      (text "address" w.address ∷ number "capacity" w.capacity ∷ [])
      (record s { workers = insert w.id w s.workers }),
  none,
)

-- `dial` is the error of the connection to the worker, which is made after the store is written.
unfoldable pub register_worker : Env → Option Error → Worker → Act
register_worker env dial w s =
    let w' = registered env.now w in
    connect env w' dial (record s { store = upsert_worker w' s.store })

unfoldable pub refreshed : Instant → ℤ → ℤ → Worker → Worker
refreshed now active capacity w = record w {
  active_jobs = active;
  capacity = capacity;
  last_heartbeat = now;
  status = healthy;
}

unfoldable pub heartbeat_of : Env → String → ℤ → ℤ → Option Worker → Service → Service
heartbeat_of env id active capacity none s = s
heartbeat_of env id active capacity (some w) s =
    let w' = refreshed env.now active capacity w in
    record s { workers = insert id w' s.workers; store = upsert_worker w' s.store }

-- The jobs that the worker has to cancel come back with the new state.
unfoldable pub heartbeat : Env → String → ℤ → ℤ → Service → Service × List String
heartbeat env id active capacity s = (
  heartbeat_of env id active capacity (lookup id s.workers) s,
  or_empty (lookup id s.pending_cancels),
)

unfoldable pub deregister : String → Service → Service
deregister id s =
    emit worker_deregistered "" "" id (pos 0) [] (record s { workers = delete id s.workers })

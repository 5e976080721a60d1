-- ===== src/Scheduler/Tick.antt =====
-- internal/scheduler/scheduler.go: `NewService`, and the body of the ticker's loop in `Run`.
use chronos_dev.Common.{pos, [], ◌∷◌}
use chronos_dev.Domain.Event.{scheduler_started, scheduler_stopped, text}
use chronos_dev.Store.State.{Store}
use chronos_dev.Queue.{Queue}
use chronos_dev.Scheduler.State.{Service, SchedulerConfig, Env, emit}
use chronos_dev.Scheduler.Assign.{promote_due_jobs}
use chronos_dev.Scheduler.Cancel.{push_pending_cancels}
use chronos_dev.Scheduler.Recovery.{watchdog_timeouts, check_workers}

unfoldable pub new_service : SchedulerConfig → Store → Queue → Service
new_service cfg store queue = record {
  cfg = cfg;
  store = store;
  queue = queue;
  emitted = [];
  sent = [];
  workers = [];
  pending_cancels = [];
}

unfoldable pub start : Service → Service
start s = emit scheduler_started "" "" "" (pos 0) (text "scheduler_id" s.cfg.id ∷ []) s

unfoldable pub stop : Service → Service
stop s = emit scheduler_stopped "" "" "" (pos 0) [] s

-- None of the four steps fails on the store in memory.
unfoldable pub tick : Env → Service → Service
tick env s =
    check_workers env (watchdog_timeouts env (push_pending_cancels env (promote_due_jobs env s)))

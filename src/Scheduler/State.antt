-- ===== src/Scheduler/State.antt =====
-- internal/scheduler/scheduler.go: the state of the service and the small steps on it. An operation
-- reads the clock once; fresh identifiers, random draws, the orders of its `range` loops and the
-- answers of workers come from outside.
use chronos_dev.Common.{
  ℤ, String, Bool, false, not, ◌||◌, List, [], ◌∷◌, ◌++◌, Option, none, some, ◌==◌, if◌then◌else◌,
  Map, Visit, lookup, insert, delete, select, Error, after,
}
use chronos_dev.Domain.Job.{
  Job, JobState, Instant, Duration, Float64, QueuedJob, ExecutionState, ExecutionResult,
}
use chronos_dev.Domain.Schedule.{Cron}
use chronos_dev.Domain.Worker.{Worker}
use chronos_dev.Domain.Event.{Emitted, EventType, Member}
use chronos_dev.Store.State.{Store}
use chronos_dev.Store.Jobs.{Fields, update_job_state, update_job_state_if}
use chronos_dev.Store.Fleet.{finish_execution}
use chronos_dev.Queue.{Queue}

pub record SchedulerConfig : Type 0 where
  pub id : String
  pub poll_interval : Duration
  pub assign_batch_size : ℤ
  pub heartbeat_timeout : Duration
  pub suspect_grace_period : Duration
  pub grpc_addr : String
  pub listen_addr : String

-- The operations on float64, which the model does not define: conversions from and to int64, and the
-- functions of `math`, on bit patterns.
pub record Floats : Type 0 where
  pub of_int : ℤ → Float64
  pub to_int : Float64 → ℤ
  pub less : Float64 → Float64 → Bool
  pub add : Float64 → Float64 → Float64
  pub mul : Float64 → Float64 → Float64
  pub pow : Float64 → Float64 → Float64

-- What an operation takes from outside.
pub record Env : Type 0 where
  pub now : Instant
  pub uuid : String
  pub cron : Cron
  pub floats : Floats
  -- The draw of rand.Float64 for a job.
  pub draw : String → Float64
  pub visit_jobs : Visit Job
  pub visit_workers : Visit Worker
  pub visit_fleet : Visit Worker

-- A call to a worker: its worker, job and execution.
pub data Rpc : Type 0 where
  execute_job : String → QueuedJob → String → Rpc
  cancel_job : String → String → String → Rpc

-- `workers` holds the `info` of each connection; its client is always set.
pub record Service : Type 0 where
  pub cfg : SchedulerConfig
  pub store : Store
  pub queue : Queue
  pub emitted : List Emitted
  pub sent : List Rpc
  pub workers : Map Worker
  pub pending_cancels : Map (List String)

-- A method that can fail.
abbrev pub Act : Type 0
Act = Service → Service × Option Error

-- `if err := f(); err != nil { return err }`.
abbrev pub resume : Act → Service × Option Error → Service × Option Error
resume k (t, none) = k t
resume k (t, some e) = (t, some e)

infixl 5 ◌>>◌
abbrev pub ◌>>◌ : Act → Act → Act
◌>>◌ m k s = resume k (m s)

abbrev pub succeed : (Service → Service) → Act
succeed f s = (f s, none)

unfoldable pub emit : EventType → String → String → String → ℤ → List Member → Service → Service
emit event_type job_id execution_id worker_id attempt payload s = record s {
  emitted = s.emitted ++ (event ∷ []);
}
  where
    event : Emitted
    event = record {
      event_type = event_type;
      job_id = job_id;
      execution_id = execution_id;
      worker_id = worker_id;
      attempt = attempt;
      payload = payload;
    }

unfoldable pub send : Rpc → Service → Service
send call s = record s { sent = s.sent ++ (call ∷ []) }

-- `_ = s.store.UpdateJobState(…)`.
unfoldable pub set_job : Instant → String → JobState → Fields → Service → Service
set_job now id state fields s = record s {
  store = after s.store (update_job_state now id state fields s.store);
}

unfoldable pub set_job_if : Instant → String → JobState → Fields → List JobState → Service → Service
set_job_if now id state fields only_from s = record s {
  store = after s.store (update_job_state_if now id state fields only_from s.store);
}

-- `_ = s.store.FinishExecution(…)`, if there is an execution.
unfoldable pub finish : Instant → String → ExecutionState → ExecutionResult → Service → Service
finish now id state result s =
    if id == ""
    then s
    else record s { store = after s.store (finish_execution now id state result s.store) }

-- A set of identifiers.
unfoldable pub has : String → List String → Bool
has x [] = false
has x (y ∷ ys) = x == y || has x ys

abbrev pub set_add : String → List String → List String
set_add x xs = if has x xs then xs else xs ++ (x ∷ [])

abbrev pub set_remove : String → List String → List String
set_remove x xs = select (λ y. not (x == y)) xs

abbrev pub or_empty : Option (List String) → List String
or_empty none = []
or_empty (some xs) = xs

-- s.pendingCancels[workerID][jobID] = struct{}{}, with the inner map made if it is missing.
unfoldable pub add_pending_cancel : String → String → Service → Service
add_pending_cancel worker_id job_id s = record s {
  pending_cancels =
      insert worker_id (set_add job_id (or_empty (lookup worker_id s.pending_cancels)))
        s.pending_cancels;
}

unfoldable pub keep_set : String → List String → Map (List String) → Map (List String)
keep_set worker_id [] m = delete worker_id m
keep_set worker_id (x ∷ xs) m = insert worker_id (x ∷ xs) m

unfoldable pub clear_set :
    String → String → Option (List String) → Map (List String) → Map (List String)
clear_set worker_id job_id none m = m
clear_set worker_id job_id (some xs) m = keep_set worker_id (set_remove job_id xs) m

unfoldable pub clear_pending_cancel : String → String → Service → Service
clear_pending_cancel worker_id job_id s = record s {
  pending_cancels =
      clear_set worker_id job_id (lookup worker_id s.pending_cancels) s.pending_cancels;
}

-- A worker is asked to cancel a job, if it is connected; whether it can be reached changes nothing.
abbrev pub send_if : Option Worker → Rpc → Service → Service
send_if none call s = s
send_if (some w) call s = send call s

unfoldable pub push_cancel : String → String → String → Service → Service
push_cancel worker_id job_id execution_id s =
    send_if (lookup worker_id s.workers) (cancel_job worker_id job_id execution_id) s

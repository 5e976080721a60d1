-- ===== src/Worker.antt =====
-- internal/worker/worker.go: the node that runs jobs, and the request by which internal/workerclient
-- gives it one. Listening and the dialling of a report are not modelled.
pub mod Threads
pub mod Load
pub mod Overrun
pub mod Cancels
pub mod Journey
pub mod Session
mod Examples
use chronos_dev.Common.{
  ℕ, suc, ℤ, pos, ◌*◌, ◌*ℤ◌, ◌+ℤ◌, ◌-ℤ◌, String, Bool, true, false, List, [], ◌∷◌, ◌++◌, Option,
  none, some, if◌then◌else◌, Map, lookup, insert, delete, leb_ℤ, int32,
}
use chronos_dev.Domain.Job.{QueuedJob, ExecutionResult, Duration, millisecond, milliseconds, second}
use chronos_dev.Scheduler.Report.{with_reason}
use chronos_dev.Scheduler.Grpc.{RegisterRequest, ReportRequest}

pub record ExecuteJobRequest : Type 0 where
  pub job_id : String
  pub execution_id : String
  pub name : String
  pub job_type : String
  pub payload : String
  pub attempt : ℤ
  pub timeout_ms : ℤ
  pub trace_id : String

-- Client.ExecuteJob: the request for a job.
unfoldable pub execute_request : QueuedJob → String → ExecuteJobRequest
execute_request job execution_id = record {
  job_id = job.job_id;
  execution_id = execution_id;
  name = job.name;
  job_type = job.job_type;
  payload = job.payload;
  attempt = int32 job.attempt;
  timeout_ms = milliseconds (if leb_ℤ job.timeout (pos 0) then pos (30 * second) else job.timeout);
  trace_id = job.trace_id;
}

pub record WorkerConfig : Type 0 where
  pub id : String
  pub listen_addr : String
  pub advertise_addr : String
  pub capacity : ℤ
  pub heartbeat_every : Duration
  pub scheduler_addr : String
  pub http_client_timeout : Duration

-- A context is a number; `cancelled` lists those whose cancel function was called.
pub record Node : Type 0 where
  pub cfg : WorkerConfig
  pub token : String
  pub active : ℤ
  pub cancels : Map ℕ
  pub cancelled : List ℕ
  pub contexts : ℕ

unfoldable pub new_node : WorkerConfig → String → Node
new_node cfg token = record {
  cfg = cfg;
  token = token;
  active = pos 0;
  cancels = [];
  cancelled = [];
  contexts = 0;
}

unfoldable pub register_request : Node → RegisterRequest
register_request n = record {
  token = n.token;
  worker_id = n.cfg.id;
  address = n.cfg.advertise_addr;
  capacity = int32 n.cfg.capacity;
  cap_builtin = true;
  cap_webhook = true;
  labels = [];
}

-- The test of `ExecuteJob`.
unfoldable pub at_capacity : Node → Bool
at_capacity n = leb_ℤ n.cfg.capacity n.active

-- w.active.Add(1)
unfoldable pub count_job : Node → Node
count_job n = record n { active = int32 (n.active +ℤ pos 1) }

unfoldable pub timeout_of : ExecuteJobRequest → Duration
timeout_of req =
    if leb_ℤ (req.timeout_ms *ℤ pos millisecond) (pos 0)
    then pos (30 * second)
    else req.timeout_ms *ℤ pos millisecond

-- A new context, with its cancel function under the identifier of the job.
unfoldable pub register_cancel : ExecuteJobRequest → Node → Node
register_cancel req n = record n {
  cancels = insert req.job_id n.contexts n.cancels;
  contexts = suc n.contexts;
}

-- The deferred calls of a run, in the order in which they are made.
unfoldable pub remove_cancel : ExecuteJobRequest → Node → Node
remove_cancel req n = record n { cancels = delete req.job_id n.cancels }

unfoldable pub call_cancel : ℕ → Node → Node
call_cancel context n = record n { cancelled = context ∷ n.cancelled }

unfoldable pub uncount_job : Node → Node
uncount_job n = record n { active = int32 (n.active -ℤ pos 1) }

unfoldable pub cancel_at : Option ℕ → Node → Node
cancel_at none n = n
cancel_at (some context) n = call_cancel context n

unfoldable pub cancel_local : String → Node → Node
cancel_local job_id n = cancel_at (lookup job_id n.cancels) n

abbrev pub is_registered : Option ℕ → Bool
is_registered none = false
is_registered (some context) = true

unfoldable pub cancel_job_call : String → Node → Node × Bool
cancel_job_call job_id n = (cancel_local job_id n, is_registered (lookup job_id n.cancels))

-- The answer to a heartbeat: the jobs to cancel.
unfoldable pub cancel_each : List String → Node → Node
cancel_each [] n = n
cancel_each (id ∷ ids) n = cancel_each ids (cancel_local id n)

-- `report`: what the scheduler is told of a run.
unfoldable pub report_request : Node → ExecuteJobRequest → ExecutionResult → ReportRequest
report_request n req result = record {
  token = n.token;
  worker_id = n.cfg.id;
  job_id = req.job_id;
  execution_id = req.execution_id;
  attempt = req.attempt;
  success = result.success;
  output = result.output;
  error = result.error;
  retryable = result.retryable;
  duration_ms = milliseconds result.duration;
  reason = (with_reason result).reason;
}

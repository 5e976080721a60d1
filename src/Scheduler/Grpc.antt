-- ===== src/Scheduler/Grpc.antt =====
-- internal/scheduler/grpc_server.go: the calls of workers, each behind the check of its token. A call
-- gives the service after it and the reply; `print` is the text of an error.
use chronos_dev.Common.{
  ℤ, pos, ◌*ℤ◌, String, Bool, true, false, List, [], Option, none, some, if◌then◌else◌, Map, Error,
}
use chronos_dev.Domain.Job.{millisecond, zero_time}
use chronos_dev.Domain.Worker.{Worker, WorkerStatus}
use chronos_dev.Auth.{Authenticator, valid_worker_token}
use chronos_dev.Scheduler.State.{Service, Env}
use chronos_dev.Scheduler.Report.{Report, handle_result}
use chronos_dev.Scheduler.Fleet.{register_worker, heartbeat, deregister}

pub record RegisterRequest : Type 0 where
  pub token : String
  pub worker_id : String
  pub address : String
  pub capacity : ℤ
  pub cap_builtin : Bool
  pub cap_webhook : Bool
  pub labels : Map String

pub record RegisterResponse : Type 0 where
  pub is_ok : Bool
  pub message : String

unfoldable pub worker_of : RegisterRequest → Worker
worker_of req = record {
  id = req.worker_id;
  address = req.address;
  status = WorkerStatus.unset;
  capacity = req.capacity;
  active_jobs = pos 0;
  capabilities = record { builtin = req.cap_builtin; webhook = req.cap_webhook };
  labels = req.labels;
  last_heartbeat = zero_time;
  registered_at = zero_time;
  metadata = [];
}

abbrev register_reply : (Error → String) → Option Error → RegisterResponse
register_reply print none = record { is_ok = true; message = "registered" }
register_reply print (some e) = record { is_ok = false; message = print e }

unfoldable pub register_call :
    Authenticator
    → (Error → String)
    → Env
    → Option Error
    → RegisterRequest
    → Service
    → Service × RegisterResponse
register_call auth print env dial req s =
    let done = register_worker env dial (worker_of req) s in
    if valid_worker_token auth req.token
    then (done.0, register_reply print done.1)
    else (s, record { is_ok = false; message = "unauthorized" })

pub record HeartbeatResponse : Type 0 where
  pub is_ok : Bool
  pub cancel_job_ids : List String

unfoldable pub heartbeat_call :
    Authenticator → Env → String → String → ℤ → ℤ → Service → Service × HeartbeatResponse
heartbeat_call auth env token worker_id active capacity s =
    let done = heartbeat env worker_id active capacity s in
    if valid_worker_token auth token
    then (done.0, record { is_ok = true; cancel_job_ids = done.1 })
    else (s, record { is_ok = false; cancel_job_ids = [] })

unfoldable pub deregister_call : Authenticator → String → String → Service → Service × Bool
deregister_call auth token worker_id s =
    if valid_worker_token auth token then (deregister worker_id s, true) else (s, false)

pub record ReportRequest : Type 0 where
  pub token : String
  pub worker_id : String
  pub job_id : String
  pub execution_id : String
  pub attempt : ℤ
  pub success : Bool
  pub output : String
  pub error : String
  pub retryable : Bool
  pub duration_ms : ℤ
  pub reason : String

unfoldable pub report_of : ReportRequest → Report
report_of req = record {
  job_id = req.job_id;
  execution_id = req.execution_id;
  worker_id = req.worker_id;
  attempt = req.attempt;
  result = record {
    success = req.success;
    output = req.output;
    error = req.error;
    retryable = req.retryable;
    duration = req.duration_ms *ℤ pos millisecond;
    reason = req.reason;
  };
}

abbrev is_none : Option Error → Bool
is_none none = true
is_none (some e) = false

-- The reply's flag, and the error of the call.
unfoldable pub report_call :
    Authenticator → Env → ReportRequest → Service → Service × (Bool × Option Error)
report_call auth env req s =
    let done = handle_result env (report_of req) s in
    if valid_worker_token auth req.token
    then (done.0, (is_none done.1, done.1))
    else (s, (false, none))

-- ===== src/Domain/Samples.antt =====
-- Data for the examples: jobs, a worker, and a cron library that knows no expression.
use chronos_dev.Common.{ℕ, pos, ◌+ℤ◌, String, true, false, [], none, some, failure}
use chronos_dev.Domain.Job.{
  Job, JobState, RetryPolicy, Schedule, CreateJobRequest, QueuedJob, ExecutionResult,
}
use chronos_dev.Domain.Worker.{Worker, WorkerStatus}
use chronos_dev.Domain.Schedule.{Cron}

abbrev pub plain_retry : RetryPolicy
plain_retry = record {
  max_attempts = pos 3;
  backoff_strategy = "fixed";
  initial_delay = pos 2_000_000_000;
  max_delay = pos 1_000_000_000;
  multiplier = 0;
  jitter = false;
}

abbrev pub immediate : Schedule
immediate = record {
  schedule_type = "immediate";
  run_at = none;
  delay = pos 0;
  cron_expr = "";
  timezone = "";
}

abbrev pub sample_job : String → JobState → Job
sample_job id state = record {
  id = id;
  name = "mail";
  job_type = "builtin";
  payload = "{}";
  priority = pos 5;
  state = state;
  schedule = immediate;
  retry_policy = plain_retry;
  timeout = pos 10;
  idempotency_key = "k1";
  attempt = pos 1;
  max_attempts = pos 3;
  worker_id = "w1";
  execution_id = "e1";
  last_error = "";
  scheduled_at = some (pos 5);
  queued_at = none;
  started_at = some (pos 7);
  completed_at = none;
  next_retry_at = none;
  created_at = pos 5;
  updated_at = pos 5;
  metadata = [];
}

abbrev pub sample_message : String → QueuedJob
sample_message id = record {
  job_id = id;
  execution_id = "";
  name = "mail";
  job_type = "builtin";
  payload = "{}";
  priority = pos 5;
  attempt = pos 0;
  timeout = pos 10;
  enqueued_at = pos 6;
  trace_id = "";
}

abbrev pub sample_request : CreateJobRequest
sample_request = record {
  name = "mail";
  job_type = "";
  payload = none;
  priority = pos 0;
  schedule = immediate;
  retry_policy = none;
  timeout_seconds = pos 0;
  idempotency_key = "k1";
  metadata = [];
}

abbrev pub sample_worker : String → ℕ → Worker
sample_worker id active = record {
  id = id;
  address = "host";
  status = WorkerStatus.healthy;
  capacity = pos 4;
  active_jobs = pos active;
  capabilities = record { builtin = true; webhook = false };
  labels = [];
  last_heartbeat = pos 10;
  registered_at = pos 1;
  metadata = [];
}

abbrev pub timed_out_result : ExecutionResult
timed_out_result = record {
  success = false;
  output = "";
  error = "timeout";
  retryable = true;
  duration = pos 10;
  reason = "timeout";
}

abbrev pub no_cron : Cron
no_cron = record {
  load_location = λ zone. none;
  parse = λ expr. some (failure "no expressions");
  next = λ expr zone from. from +ℤ pos 1;
}

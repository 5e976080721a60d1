-- ===== src/Execution/Results.antt =====
-- internal/execution/builtin.go: the results that the executors share, and `ctxResult`.
use chronos_dev.Common.{String, Bool, true, false}
use chronos_dev.Domain.Job.{
  Duration, ExecutionResult, reason_success, reason_failed, reason_timeout, reason_cancelled,
}

-- Why a context has ended.
pub data ContextError : Type 0 where
  deadline_exceeded canceled_context : ContextError

abbrev pub succeeded : String → Duration → ExecutionResult
succeeded output duration = record {
  success = true;
  output = output;
  error = "";
  retryable = false;
  duration = duration;
  reason = reason_success;
}

abbrev pub failed_with : String → Bool → Duration → ExecutionResult
failed_with error retryable duration = record {
  success = false;
  output = "";
  error = error;
  retryable = retryable;
  duration = duration;
  reason = reason_failed;
}

unfoldable pub ctx_result : ContextError → Duration → ExecutionResult
ctx_result deadline_exceeded duration = record {
  success = false;
  output = "";
  error = "timeout";
  retryable = true;
  duration = duration;
  reason = reason_timeout;
}
ctx_result canceled_context duration = record {
  success = false;
  output = "";
  error = "cancelled";
  retryable = false;
  duration = duration;
  reason = reason_cancelled;
}

-- ===== src/Execution.antt =====
-- internal/execution: how a worker runs a job. The JSON library, the client of HTTP, the clock and the
-- moment at which a context ends are outside; a run is given what they do.
pub mod Results
pub mod Builtin
pub mod Webhook
pub mod Outcome
pub mod Samples
mod Examples
use chronos_dev.Common.{ℤ, pos, String, true, false, ◌==◌, if◌then◌else◌}
use chronos_dev.Domain.Job.{
  Duration, ExecutionResult, job_type_builtin, job_type_webhook, reason_success, reason_failed,
  reason_timeout, reason_cancelled,
}
use Builtin.{BuiltinRun, builtin_execute}
use Webhook.{WebhookRun, webhook_execute}

-- What the two executors would meet, if the job is of their type, and the text of the error on a type
-- that is none of theirs.
pub record Run : Type 0 where
  pub builtin : BuiltinRun
  pub webhook : WebhookRun
  pub unsupported : String → String

unfoldable pub execute : Run → String → ExecutionResult
execute run job_type =
    if job_type == job_type_builtin
    then builtin_execute run.builtin
    else if job_type == job_type_webhook
    then webhook_execute run.webhook
    else record {
      success = false;
      output = "";
      error = run.unsupported job_type;
      retryable = false;
      duration = pos 0;
      reason = "";
    }

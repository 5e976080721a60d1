-- ===== src/Execution/Outcome.antt =====
-- What a result of a run may say.
use text.Mathlib.Text.{starts_with}
use chronos_dev.Common.{
  ℕ, ◌≤◌, ◌<◌, String, Bool, true, false, not, ◌&&◌, ◌||◌, Option, none, some, ◌==◌, eq_iff, ◌≡◌,
  ◌≢◌, refl, ◌⊎◌, if◌then◌else◌, arith, ◌↔◌,
}
use chronos_dev.Domain.Job.{
  Duration, ExecutionResult, reason_success, reason_failed, reason_timeout, reason_cancelled,
}
use chronos_dev.Execution.Results.{
  ContextError, deadline_exceeded, canceled_context, succeeded, failed_with, ctx_result,
}
use chronos_dev.Execution.Builtin.{
  BuiltinRun, BuiltinPayload, unless_ended, run_handler, run_payload, builtin_execute,
}
use chronos_dev.Execution.Webhook.{
  WebhookRun, WebhookPayload, Request, Reply, answered, broken, read_reply, send_request,
  request_of, run_webhook, webhook_execute, is_success, is_deadline, is_canceled,
}
use chronos_dev.Execution.{Run, execute}
use chronos_dev.Scheduler.Report.{with_reason}

-- The reason, the success and the readiness to be retried fit together: a success says so and is not
-- retried, a timeout can be retried, a cancellation can not, and there is no fifth way.
pub data IsCoherent (r : ExecutionResult) : Type 0 where
  success : r.success ≡ true → r.reason ≡ reason_success → r.retryable ≡ false → IsCoherent r
  failure : r.success ≡ false → r.reason ≡ reason_failed → IsCoherent r
  timeout : r.success ≡ false → r.reason ≡ reason_timeout → r.retryable ≡ true → IsCoherent r
  cancellation :
      r.success ≡ false → r.reason ≡ reason_cancelled → r.retryable ≡ false → IsCoherent r

succeeded-IsCoherent : (out : String) (d : Duration) → IsCoherent (with_reason (succeeded out d))
unfolding with_reason
succeeded-IsCoherent out d = success refl refl refl

failed-IsCoherent :
    (error : String) (retryable : Bool) (d : Duration)
    → IsCoherent (with_reason (failed_with error retryable d))
unfolding with_reason
failed-IsCoherent error retryable d = failure refl refl

ctx_result-IsCoherent :
    (e : ContextError) (d : Duration) → IsCoherent (with_reason (ctx_result e d))
unfolding ctx_result with_reason
ctx_result-IsCoherent deadline_exceeded d = timeout refl refl refl
ctx_result-IsCoherent canceled_context d = cancellation refl refl refl

unless_ended-IsCoherent :
    (o : Option ContextError) (d : Duration) (out : String)
    → IsCoherent (with_reason (unless_ended o d (succeeded out d)))
unfolding unless_ended
unless_ended-IsCoherent none d out = succeeded-IsCoherent out d
unless_ended-IsCoherent (some e) d out = ctx_result-IsCoherent e d

if_lem :
    (P : ExecutionResult → Type 0) (b : Bool) {x y : ExecutionResult}
    → P x
    → P y
    → P (if b then x else y)
if_lem P true p q = p
if_lem P false p q = q

abbrev IsReported : ExecutionResult → Type 0
IsReported r = IsCoherent (with_reason r)

run_handler-IsCoherent : (run : BuiltinRun) (p : BuiltinPayload) → IsReported (run_handler run p)
unfolding run_handler
run_handler-IsCoherent run p =
    if_lem IsReported (p.handler == "sleep") (unless_ended-IsCoherent run.ended run.duration _) (
      if_lem IsReported (p.handler == "echo") (succeeded-IsCoherent _ _) (
        if_lem IsReported (p.handler == "fail") (failed-IsCoherent _ _ _) (
          if_lem IsReported (p.handler == "cpu_burn")
            (unless_ended-IsCoherent run.ended run.duration _) (failed-IsCoherent _ _ _))))

builtin-IsCoherent : (run : BuiltinRun) (p : Option BuiltinPayload) → IsReported (run_payload run p)
unfolding run_payload
builtin-IsCoherent run none = failed-IsCoherent _ _ _
builtin-IsCoherent run (some p) = run_handler-IsCoherent run p

read_reply-IsCoherent : (run : WebhookRun) (reply : Reply) → IsReported (read_reply run reply)
unfolding read_reply with_reason
read_reply-IsCoherent run (answered status text) =
    if_lem IsReported (is_success status) (succeeded-IsCoherent _ _) (failure refl refl)
read_reply-IsCoherent run (broken text cause) =
    if_lem IsReported (is_deadline cause || is_deadline run.ended) (ctx_result-IsCoherent _ _) (
      if_lem IsReported (is_canceled cause || is_canceled run.ended) (ctx_result-IsCoherent _ _)
        (failed-IsCoherent _ _ _))

send_request-IsCoherent :
    (run : WebhookRun) (req : Request) (o : Option String) → IsReported (send_request run req o)
unfolding send_request
send_request-IsCoherent run req none = read_reply-IsCoherent run _
send_request-IsCoherent run req (some text) = failed-IsCoherent _ _ _

webhook-IsCoherent : (run : WebhookRun) (p : Option WebhookPayload) → IsReported (run_webhook run p)
unfolding run_webhook
webhook-IsCoherent run none = failed-IsCoherent _ _ _
webhook-IsCoherent run (some p) = if_lem IsReported (p.url == "") (failed-IsCoherent _ _ _) (
    if_lem IsReported (not (starts_with p.url "http://") && not (starts_with p.url "https://"))
      (failed-IsCoherent _ _ _) (send_request-IsCoherent run _ _))

-- The result of any run, with an empty reason filled in as the worker does, is coherent: a success with
-- its reason and no retry, a failure, a timeout that can be retried, or a cancellation that can not.
pub execute-IsCoherent :
    (run : Run) (job_type : String) → IsCoherent (with_reason (execute run job_type))
unfolding execute builtin_execute webhook_execute with_reason
execute-IsCoherent run job_type =
    if_lem IsReported (job_type == "builtin") (builtin-IsCoherent run.builtin run.builtin.payload) (
      if_lem IsReported (job_type == "webhook") (webhook-IsCoherent run.webhook run.webhook.payload)
        (failure refl refl))

-- A webhook with a web address that is answered succeeds exactly at the statuses from 200 to 299; else it
-- can be retried exactly from 500 on and at 429.
pub webhook_answered :
    (run : WebhookRun) (p : WebhookPayload) (status : ℕ) (text : String)
    → run.payload ≡ some p
    → p.url ≢ ""
    → (starts_with p.url "http://" ≡ true) ⊎ (starts_with p.url "https://" ≡ true)
    → run.build_error (request_of run p) ≡ none
    → run.send (request_of run p) ≡ answered status text
    → let r = webhook_execute run in
      ((r.success ≡ true) ↔ ((200 ≤ status) × (status < 300)))
      × ((r.retryable ≡ true) ↔ ((500 ≤ status) ⊎ (status ≡ 429)))
unfolding webhook_execute run_webhook send_request read_reply
webhook_answered run p status text read nonempty web built sent =
    rw read (ground (arith, eq_iff p.url "", web, built, sent))

-- ===== src/Execution/Webhook.antt =====
-- internal/execution/webhook.go: a job that is a request over HTTP.
use text.Mathlib.Text.{starts_with}
use chronos_dev.Common.{
  ℕ, String, Bool, true, false, not, ◌&&◌, ◌||◌, List, [], ◌∷◌, Option, none, some, ◌==◌,
  if◌then◌else◌, Map, leb, ltb, eqb, insert,
}
use chronos_dev.Domain.Job.{Duration, ExecutionResult, reason_failed}
use chronos_dev.Execution.Results.{
  ContextError, deadline_exceeded, canceled_context, succeeded, failed_with, ctx_result,
}

pub record WebhookPayload : Type 0 where
  pub url : String
  pub method : String
  pub headers : Map String
  pub body : String

-- The request as it is sent.
pub record Request : Type 0 where
  pub method : String
  pub url : String
  pub body : String
  pub headers : Map String

-- What the client of HTTP gives: an answer with its status and the text that is kept of it, or an error
-- with its text and the end of a context in it.
pub data Reply : Type 0 where
  answered : ℕ → String → Reply
  broken : String → Option ContextError → Reply

-- A run: the payload as read, the tests and texts of the libraries, what the request meets, and the
-- context's own end by then. `is_host` is strings.EqualFold with "Host"; `build_error` is the error of
-- the request's making; `canonical` is the form of a name under which headers are kept; the headers are visited in the order of the list.
pub record WebhookRun : Type 0 where
  pub payload : Option WebhookPayload
  pub payload_error : String
  pub is_host : String → Bool
  pub canonical : String → String
  pub build_error : Request → Option String
  pub send : Request → Reply
  pub output : ℕ → String → String
  pub status_error : ℕ → String
  pub ended : Option ContextError
  pub duration : Duration

-- req.Header.Set for each header but the host.
unfoldable pub set_headers :
    (String → Bool) → (String → String) → List (String × String) → Map String → Map String
set_headers is_host canonical [] m = m
set_headers is_host canonical ((k, v) ∷ hs) m =
    set_headers is_host canonical hs (if is_host k then m else insert (canonical k) v m)

unfoldable pub request_of : WebhookRun → WebhookPayload → Request
request_of run p = record {
  method = if p.method == "" then "POST" else p.method;
  url = p.url;
  body = p.body;
  headers =
      set_headers run.is_host run.canonical p.headers
        (("Content-Type", "application/json") ∷ ("User-Agent", "chronos-worker/1.0") ∷ []);
}

abbrev pub is_deadline : Option ContextError → Bool
is_deadline none = false
is_deadline (some deadline_exceeded) = true
is_deadline (some canceled_context) = false

abbrev pub is_canceled : Option ContextError → Bool
is_canceled none = false
is_canceled (some deadline_exceeded) = false
is_canceled (some canceled_context) = true

-- 200 to 299.
abbrev pub is_success : ℕ → Bool
is_success status = leb 200 status && ltb status 300

abbrev pub is_retryable : ℕ → Bool
is_retryable status = leb 500 status || eqb status 429

unfoldable pub read_reply : WebhookRun → Reply → ExecutionResult
read_reply run (broken text cause) =
    if is_deadline cause || is_deadline run.ended
    then ctx_result deadline_exceeded run.duration
    else if is_canceled cause || is_canceled run.ended
    then ctx_result canceled_context run.duration
    else failed_with text true run.duration
read_reply run (answered status text) =
    if is_success status then succeeded (run.output status text) run.duration else record {
      success = false;
      output = run.output status text;
      error = run.status_error status;
      retryable = is_retryable status;
      duration = run.duration;
      reason = reason_failed;
    }

unfoldable pub send_request : WebhookRun → Request → Option String → ExecutionResult
send_request run req (some text) = failed_with text false run.duration
send_request run req none = read_reply run (run.send req)

unfoldable pub run_webhook : WebhookRun → Option WebhookPayload → ExecutionResult
run_webhook run none = failed_with run.payload_error false run.duration
run_webhook run (some p) =
    if p.url == ""
    then failed_with "webhook url required" false run.duration
    else if not (starts_with p.url "http://") && not (starts_with p.url "https://")
    then failed_with "webhook url must be http(s)" false run.duration
    else send_request run (request_of run p) (run.build_error (request_of run p))

unfoldable pub webhook_execute : WebhookRun → ExecutionResult
webhook_execute run = run_webhook run run.payload

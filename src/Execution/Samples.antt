-- ===== src/Execution/Samples.antt =====
-- Runs for the examples: a task that is cut off, and a webhook of a busy site.
use chronos_dev.Common.{pos, true, [], none, some, ◌==◌}
use chronos_dev.Execution.Results.{deadline_exceeded}
use chronos_dev.Execution.Builtin.{BuiltinRun, BuiltinJson}
use chronos_dev.Execution.Webhook.{WebhookRun, WebhookPayload, answered}
use chronos_dev.Execution.{Run}

abbrev pub json : BuiltinJson
json = record {
  read_duration_ms = λ args. pos 5;
  read_message = λ args. args;
  read_fail = λ args. record { message = args; retryable = true };
  slept = λ ms. "slept";
  echoed = λ text. text;
  iterated = λ n. "iterated";
  unknown_handler = λ name. "unknown";
}

abbrev pub cut_off : BuiltinRun
cut_off = record {
  json = json;
  payload = some record { handler = "sleep"; args = "" };
  payload_error = "";
  ended = some deadline_exceeded;
  turns = 0;
  duration = pos 5;
}

abbrev pub hook : WebhookPayload
hook = record { url = "https://a.b"; method = ""; headers = []; body = "" }

abbrev pub busy_site : WebhookRun
busy_site = record {
  payload = some hook;
  payload_error = "";
  is_host = λ name. name == "Host";
  canonical = λ name. name;
  build_error = λ req. none;
  send = λ req. answered 429 "later";
  output = λ status text. text;
  status_error = λ status. "status";
  ended = none;
  duration = pos 5;
}

abbrev pub run : Run
run = record { builtin = cut_off; webhook = busy_site; unsupported = λ name. "unsupported" }

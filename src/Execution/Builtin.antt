-- ===== src/Execution/Builtin.antt =====
-- internal/execution/builtin.go: the tasks that are built in.
use chronos_dev.Common.{
  ℕ, ℤ, pos, String, Bool, false, Option, none, some, ◌==◌, if◌then◌else◌, leb_ℤ,
}
use chronos_dev.Domain.Job.{Duration, ExecutionResult}
use chronos_dev.Execution.Results.{ContextError, succeeded, failed_with, ctx_result}

pub record BuiltinPayload : Type 0 where
  pub handler : String
  pub args : String

pub record FailArgs : Type 0 where
  pub message : String
  pub retryable : Bool

-- The JSON library on these types: a payload is read or there is the text of an error; arguments that
-- cannot be read stay zero, since their error is dropped. And the texts that it and `fmt` make.
pub record BuiltinJson : Type 0 where
  pub read_duration_ms : String → ℤ
  pub read_message : String → String
  pub read_fail : String → FailArgs
  pub slept : ℤ → String
  pub echoed : String → String
  pub iterated : ℕ → String
  pub unknown_handler : String → String

-- A run: the payload as read or the text of the error, whether and how the context ends before the
-- timer or the deadline of the loop, the turns of the loop, and the time that it took.
pub record BuiltinRun : Type 0 where
  pub json : BuiltinJson
  pub payload : Option BuiltinPayload
  pub payload_error : String
  pub ended : Option ContextError
  pub turns : ℕ
  pub duration : Duration

-- args.DurationMs with its default.
abbrev pub or_default_ms : ℕ → ℤ → ℤ
or_default_ms default ms = if leb_ℤ ms (pos 0) then pos default else ms

unfoldable pub unless_ended : Option ContextError → Duration → ExecutionResult → ExecutionResult
unless_ended none duration result = result
unless_ended (some e) duration result = ctx_result e duration

unfoldable pub fail_message : String → String
fail_message message = if message == "" then "intentional failure" else message

unfoldable pub run_handler : BuiltinRun → BuiltinPayload → ExecutionResult
run_handler run p =
    if p.handler == "sleep"
    then unless_ended run.ended run.duration (
        succeeded (run.json.slept (or_default_ms 100 (run.json.read_duration_ms p.args)))
          run.duration)
    else if p.handler == "echo"
    then succeeded (run.json.echoed (run.json.read_message p.args)) run.duration
    else if p.handler == "fail"
    then failed_with (fail_message (run.json.read_fail p.args).message)
        (run.json.read_fail p.args).retryable run.duration
    else if p.handler == "cpu_burn"
    then unless_ended run.ended run.duration (succeeded (run.json.iterated run.turns) run.duration)
    else failed_with (run.json.unknown_handler p.handler) false run.duration

unfoldable pub run_payload : BuiltinRun → Option BuiltinPayload → ExecutionResult
run_payload run none = failed_with run.payload_error false run.duration
run_payload run (some p) = run_handler run p

unfoldable pub builtin_execute : BuiltinRun → ExecutionResult
builtin_execute run = run_payload run run.payload

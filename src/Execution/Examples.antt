-- ===== src/Execution/Examples.antt =====
-- The laws of runs, at a webhook and at a task that is cut off.
use chronos_dev.Execution.{execute}
use chronos_dev.Execution.Outcome.{IsCoherent, execute-IsCoherent}
use chronos_dev.Scheduler.Report.{with_reason}
use chronos_dev.Execution.Samples.{run}

execute-IsCoherent_example : IsCoherent (with_reason (execute run "builtin"))
execute-IsCoherent_example = execute-IsCoherent run "builtin"

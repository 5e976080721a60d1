-- ===== src/Store/State.antt =====
-- internal/store/memory/store.go: the state of the store.
use chronos_dev.Common.{String, List, [], Map}
use chronos_dev.Domain.Job.{Job, JobExecution, Instant}
use chronos_dev.Domain.Worker.{Worker}

-- postgres.OutboxRow.
pub record OutboxRow : Type 0 where
  pub id : String
  pub event_type : String
  pub aggregate_id : String
  pub payload : String
  pub created_at : Instant

pub record Store : Type 0 where
  pub jobs : Map Job
  pub by_idem : Map String
  pub executions : Map JobExecution
  pub workers : Map Worker
  pub outbox : List OutboxRow

unfoldable pub empty : Store
empty = record { jobs = []; by_idem = []; executions = []; workers = []; outbox = [] }

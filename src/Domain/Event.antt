-- ===== src/Domain/Event.antt =====
-- internal/domain/event.go. The payload of an event is a JSON object; its members are kept as data.
use chronos_dev.Common.{ℤ, String, Bool, List, Option}
use chronos_dev.Domain.Job.{Instant}

pub data EventType : Type 0 where
  job_created job_scheduled job_queued job_assigned job_started job_completed : EventType
  job_failed job_retry_scheduled job_cancel_requested job_cancelled : EventType
  job_timeout job_expired : EventType
  worker_registered worker_heartbeat worker_capacity_changed : EventType
  worker_unavailable worker_recovered worker_deregistered : EventType
  scheduler_started scheduler_stopped scheduler_leader_acquired : EventType
  scheduler_leader_lost scheduler_rebalanced : EventType

-- The text of a type, by which the outbox publisher chooses a topic.
unfoldable pub event_name : EventType → String
event_name job_created = "JOB_CREATED"
event_name job_scheduled = "JOB_SCHEDULED"
event_name job_queued = "JOB_QUEUED"
event_name job_assigned = "JOB_ASSIGNED"
event_name job_started = "JOB_STARTED"
event_name job_completed = "JOB_COMPLETED"
event_name job_failed = "JOB_FAILED"
event_name job_retry_scheduled = "JOB_RETRY_SCHEDULED"
event_name job_cancel_requested = "JOB_CANCEL_REQUESTED"
event_name job_cancelled = "JOB_CANCELLED"
event_name job_timeout = "JOB_TIMEOUT"
event_name job_expired = "JOB_EXPIRED"
event_name worker_registered = "WORKER_REGISTERED"
event_name worker_heartbeat = "WORKER_HEARTBEAT"
event_name worker_capacity_changed = "WORKER_CAPACITY_CHANGED"
event_name worker_unavailable = "WORKER_UNAVAILABLE"
event_name worker_recovered = "WORKER_RECOVERED"
event_name worker_deregistered = "WORKER_DEREGISTERED"
event_name scheduler_started = "SCHEDULER_STARTED"
event_name scheduler_stopped = "SCHEDULER_STOPPED"
event_name scheduler_leader_acquired = "SCHEDULER_LEADER_ACQUIRED"
event_name scheduler_leader_lost = "SCHEDULER_LEADER_LOST"
event_name scheduler_rebalanced = "SCHEDULER_REBALANCED"

-- A member of a payload.
pub data Member : Type 0 where
  text : String → String → Member
  number : String → ℤ → Member
  flag : String → Bool → Member
  instant : String → Option Instant → Member

-- What `Emit` is called with.
pub record Emitted : Type 0 where
  pub event_type : EventType
  pub job_id : String
  pub execution_id : String
  pub worker_id : String
  pub attempt : ℤ
  pub payload : List Member

-- `ingested_at` is left out: no code sets or reads it.
pub record Event : Type 0 where
  pub event_id : String
  pub event_type : EventType
  pub event_version : ℤ
  pub event_time : Instant
  pub job_id : String
  pub execution_id : String
  pub worker_id : String
  pub scheduler_id : String
  pub attempt : ℤ
  pub trace_id : String
  pub payload : List Member

-- ===== src/Domain/Job.antt =====
-- internal/domain/job.go, execution.go and queue.go. The source's string types that take only the
-- constants declared for them are data types here. A type that a request may fill with any text
-- (the type of a job, of a schedule, the reason of a result) stays a text, beside its constants.
use chronos_dev.Common.{
  ◌≡◌, ◌≢◌, ◌⊎◌, inl, inr, refl, ℕ, suc, ◌/◌, ℤ, pos, negsuc, ◌-ℤ◌, String, Bool, true, false,
  Option, Map, ite,
}

abbrev pub Instant : Type 0
Instant = ℤ

abbrev pub Duration : Type 0
Duration = ℤ

-- The bit pattern of a float64. What is computed with it is a parameter of the model.
abbrev pub Float64 : Type 0
Float64 = ℕ

abbrev pub millisecond : ℕ
millisecond = 1_000_000

abbrev pub second : ℕ
second = 1_000_000_000

-- Duration.Milliseconds, which rounds towards zero.
unfoldable pub milliseconds : Duration → ℤ
milliseconds (pos n) = pos (n / millisecond)
milliseconds (negsuc n) = pos 0 -ℤ pos (suc n / millisecond)

-- Go's zero time, of which IsZero holds.
abbrev pub zero_time : Instant
zero_time = pos 0

pub data JobState : Type 0 where
  created scheduled queued assigned running completed failed timed_out : JobState
  retrying cancel_requested cancelled expired : JobState

pub JobState-discrete : Discrete JobState
JobState-discrete = hlevel

-- The text of a state, by which a list of jobs is filtered.
unfoldable pub state_name : JobState → String
state_name created = "CREATED"
state_name scheduled = "SCHEDULED"
state_name queued = "QUEUED"
state_name assigned = "ASSIGNED"
state_name running = "RUNNING"
state_name completed = "COMPLETED"
state_name failed = "FAILED"
state_name timed_out = "TIMEOUT"
state_name retrying = "RETRYING"
state_name cancel_requested = "CANCEL_REQUESTED"
state_name cancelled = "CANCELLED"
state_name expired = "EXPIRED"

abbrev pub schedule_immediate : String
schedule_immediate = "immediate"

abbrev pub schedule_delayed : String
schedule_delayed = "delayed"

abbrev pub schedule_one_time : String
schedule_one_time = "one_time"

abbrev pub schedule_recurring : String
schedule_recurring = "recurring"

abbrev pub job_type_builtin : String
job_type_builtin = "builtin"

abbrev pub job_type_webhook : String
job_type_webhook = "webhook"

pub record RetryPolicy : Type 0 where
  pub max_attempts : ℤ
  pub backoff_strategy : String
  pub initial_delay : Duration
  pub max_delay : Duration
  pub multiplier : Float64
  pub jitter : Bool

-- The multiplier is the bit pattern of 2.0.
unfoldable pub default_retry_policy : RetryPolicy
default_retry_policy = record {
  max_attempts = pos 3;
  backoff_strategy = "exponential";
  initial_delay = pos 1_000_000_000;
  max_delay = pos 300_000_000_000;
  multiplier = 0x4000000000000000;
  jitter = true;
}

pub record Schedule : Type 0 where
  pub schedule_type : String
  pub run_at : Option Instant
  pub delay : Duration
  pub cron_expr : String
  pub timezone : String

-- A payload is the text of its JSON.
pub record Job : Type 0 where
  pub id : String
  pub name : String
  pub job_type : String
  pub payload : String
  pub priority : ℤ
  pub state : JobState
  pub schedule : Schedule
  pub retry_policy : RetryPolicy
  pub timeout : Duration
  pub idempotency_key : String
  pub attempt : ℤ
  pub max_attempts : ℤ
  pub worker_id : String
  pub execution_id : String
  pub last_error : String
  pub scheduled_at : Option Instant
  pub queued_at : Option Instant
  pub started_at : Option Instant
  pub completed_at : Option Instant
  pub next_retry_at : Option Instant
  pub created_at : Instant
  pub updated_at : Instant
  pub metadata : Map String

pub record CreateJobRequest : Type 0 where
  pub name : String
  pub job_type : String
  pub payload : Option String
  pub priority : ℤ
  pub schedule : Schedule
  pub retry_policy : Option RetryPolicy
  pub timeout_seconds : ℤ
  pub idempotency_key : String
  pub metadata : Map String

abbrev pub reason_success : String
reason_success = "success"

abbrev pub reason_failed : String
reason_failed = "failed"

abbrev pub reason_timeout : String
reason_timeout = "timeout"

abbrev pub reason_cancelled : String
reason_cancelled = "cancelled"

pub record ExecutionResult : Type 0 where
  pub success : Bool
  pub output : String
  pub error : String
  pub retryable : Bool
  pub duration : Duration
  pub reason : String

pub data ExecutionState : Type 0 where
  pending running completed failed timed_out cancelled : ExecutionState

pub record JobExecution : Type 0 where
  pub id : String
  pub job_id : String
  pub worker_id : String
  pub attempt : ℤ
  pub state : ExecutionState
  pub started_at : Option Instant
  pub finished_at : Option Instant
  pub duration_ms : ℤ
  pub error : String
  pub output : String
  pub retryable : Bool
  pub created_at : Instant

-- The message on the work queue.
pub record QueuedJob : Type 0 where
  pub job_id : String
  pub execution_id : String
  pub name : String
  pub job_type : String
  pub payload : String
  pub priority : ℤ
  pub attempt : ℤ
  pub timeout : Duration
  pub enqueued_at : Instant
  pub trace_id : String

-- a == b on two states.
abbrev pub same_state : JobState → JobState → Bool
same_state a b = ite (JobState-discrete a b) true false

pub same_state_refl : (a : JobState) → same_state a a ≡ true
same_state_refl a = elim (JobState-discrete a a) as (λ d. ite d true false ≡ true) [
  | yes e ↦ refl
  | no n ↦ absurd (n refl)
]

-- The test on two states decides whether they are the same.
pub same_state_iff :
    (a b : JobState) → ((same_state a b ≡ true) × (a ≡ b)) ⊎ ((same_state a b ≡ false) × (a ≢ b))
same_state_iff a b =
    elim (JobState-discrete a b)
      as (λ d. ((ite d true false ≡ true) × (a ≡ b)) ⊎ ((ite d true false ≡ false) × (a ≢ b))) [
        | yes e ↦ inl (refl, e)
        | no n ↦ inr (refl, n)
      ]

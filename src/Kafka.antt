-- ===== src/Kafka.antt =====
-- internal/queue/kafka/kafka.go: the work queue on Kafka. The JSON library and the reader of Kafka's
-- client are parameters; the writer shows as the messages that it was given.
pub mod Redelivery
mod Examples
use chronos_dev.Common.{
  ℕ, zero, suc, ℤ, pos, String, Bool, true, false, List, [], ◌∷◌, ◌++◌, Option, none, some, ◌==◌,
  if◌then◌else◌, Result, ok, err, Error, failure, eqb_ℤ, leb_ℤ, ◌>>=◌, ◌+ℤ◌,
}
use chronos_dev.Domain.Job.{QueuedJob, Instant, Duration, zero_time}

pub record KafkaConfig : Type 0 where
  pub brokers : List String
  pub topic : String
  pub group : String

pub record KafkaMessage : Type 0 where
  pub key : String
  pub value : String
  pub priority : ℤ
  pub job_id : String
  pub time : Instant

-- The encoding of a job as JSON.
pub record JobCodec : Type 0 where
  pub encode : QueuedJob → Result String
  pub decode : String → Result QueuedJob

-- `timers` holds the delayed jobs that a goroutine of this process still has, with their times.
pub record KafkaQueue : Type 0 where
  pub cfg : KafkaConfig
  pub closed : Bool
  pub written : List KafkaMessage
  pub timers : List (QueuedJob × Instant)

unfoldable pub with_defaults : KafkaConfig → KafkaConfig
with_defaults cfg = record cfg {
  topic = if cfg.topic == "" then "chronos.jobs" else cfg.topic;
  group = if cfg.group == "" then "chronos-scheduler" else cfg.group;
}

unfoldable pub opened : KafkaConfig → List String → Result KafkaQueue
opened cfg [] = err (failure "kafka queue: brokers required")
opened cfg (b ∷ bs) =
    ok (record { cfg = with_defaults cfg; closed = false; written = []; timers = [] })

unfoldable pub new_kafka_queue : KafkaConfig → Result KafkaQueue
new_kafka_queue cfg = opened cfg cfg.brokers

unfoldable pub stamp_job : Instant → QueuedJob → QueuedJob
stamp_job now job =
    if eqb_ℤ job.enqueued_at zero_time then record job { enqueued_at = now } else job

unfoldable pub kafka_message : Instant → QueuedJob → String → KafkaMessage
kafka_message now job body = record {
  key = job.job_id;
  value = body;
  priority = job.priority;
  job_id = job.job_id;
  time = now;
}

-- The writer's error, if it has one.
unfoldable pub write_message : Option Error → KafkaMessage → KafkaQueue → Result KafkaQueue
write_message none m q = ok (record q { written = q.written ++ (m ∷ []) })
write_message (some e) m q = err e

unfoldable pub enqueue_message :
    JobCodec → Instant → Option Error → QueuedJob → KafkaQueue → Result KafkaQueue
enqueue_message codec now failed job q =
    if q.closed
    then err (failure "kafka queue closed")
    else codec.encode (stamp_job now job) >>= λ body.
        write_message failed (kafka_message now (stamp_job now job) body) q

unfoldable pub enqueue_later :
    JobCodec → Instant → Option Error → QueuedJob → Duration → KafkaQueue → Result KafkaQueue
enqueue_later codec now failed job delay q =
    if leb_ℤ delay (pos 0)
    then enqueue_message codec now failed job q
    else ok (record q { timers = q.timers ++ ((job, now +ℤ delay) ∷ []) })

unfoldable pub close_queue : KafkaQueue → KafkaQueue
close_queue q = record q { closed = true }

-- A message as it is fetched: its place in the partition and its value.
pub record Fetched : Type 0 where
  pub offset : ℕ
  pub value : String

-- The reader of Kafka's client, on states of its own.
pub record Reader (R : Type 0) : Type 0 where
  pub fetch : R → Result (Fetched × R)
  pub commit : Fetched → R → Result R

-- The handler of jobs, on states of its own.
abbrev pub Handler : Type 0 → Type 0
Handler S = QueuedJob → S → S × Option Error

-- What a round of the consumer leads to: its end with an error, or the next round.
pub data Round (R S : Type 0) : Type 0 where
  ended : Error → S → Round R S
  goes_on : R → S → Round R S

module _ {R S : Type 0} (reader : Reader R) (codec : JobCodec) (handler : Handler S) where
  -- An unreadable message is committed whatever comes of that.
  unfoldable pub skip_poison : R → Result R → S → Round R S
  skip_poison r (ok r') s = goes_on r' s
  skip_poison r (err e) s = goes_on r s

  unfoldable pub commit_handled : Result R → S → Round R S
  commit_handled (ok r) s = goes_on r s
  commit_handled (err e) s = ended e s

  -- A job whose handler fails is not committed.
  unfoldable pub after_handler : Fetched → R → S × Option Error → Round R S
  after_handler m r (s, none) = commit_handled (reader.commit m r) s
  after_handler m r (s, some e) = goes_on r s

  unfoldable pub handle_fetched : Fetched → R → Result QueuedJob → S → Round R S
  handle_fetched m r (err e) s = skip_poison r (reader.commit m r) s
  handle_fetched m r (ok job) s = after_handler m r (handler job s)

  unfoldable pub on_fetch : Result (Fetched × R) → S → Round R S
  on_fetch (err e) s = ended e s
  on_fetch (ok (m, r)) s = handle_fetched m r (codec.decode m.value) s

  -- One turn of the loop of `StartConsumer`.
  unfoldable pub consume_one : R → S → Round R S
  consume_one r s = on_fetch (reader.fetch r) s

  unfoldable pub carry_on : (R → S → Round R S) → Round R S → Round R S
  carry_on again (ended e s) = ended e s
  carry_on again (goes_on r s) = again r s

  -- The loop, as far as a number of rounds.
  unfoldable pub consume : ℕ → R → S → Round R S
  consume zero r s = goes_on r s
  consume (suc n) r s = carry_on (consume n) (consume_one r s)

-- ===== src/Wiring.antt =====
-- internal/queue/registry.go and internal/app/wire.go: how the work queue is chosen. The container that
-- wires the parts together (nexus) is a parameter: `named` is what it gives for a name.
pub mod Backends
mod Examples
use chronos_dev.Common.{
  String, Bool, true, false, List, [], ◌∷◌, ◌++◌, Option, none, some, ◌==◌, if◌then◌else◌, Map,
  Visit, lookup, insert, Result, ok, err, failure,
}
use chronos_dev.Queue.{Queue, new}
use chronos_dev.Kafka.{KafkaQueue, new_kafka_queue}

pub record QueueConfig : Type 0 where
  pub backend : String
  pub kafka_brokers : List String
  pub kafka_topic : String
  pub kafka_group : String

pub data WorkQueue : Type 0 where
  on_kafka : KafkaQueue → WorkQueue
  in_memory : Queue → WorkQueue

abbrev pub Factory : Type 0
Factory = QueueConfig → Result WorkQueue

abbrev pub as_kafka : Result KafkaQueue → Result WorkQueue
as_kafka (ok q) = ok (on_kafka q)
as_kafka (err e) = err e

unfoldable pub kafka_factory : Factory
kafka_factory cfg = as_kafka (
    new_kafka_queue
      (record { brokers = cfg.kafka_brokers; topic = cfg.kafka_topic; group = cfg.kafka_group }))

unfoldable pub memory_factory : Factory
memory_factory cfg = ok (in_memory new)

-- The factories, after `init` and the calls of `Register`.
unfoldable pub register_backend : String → Factory → Map Factory → Map Factory
register_backend name factory factories = insert name factory factories

unfoldable pub first_backends : Map Factory
first_backends =
    register_backend "memory" memory_factory (register_backend "kafka" kafka_factory [])

unfoldable pub backend_or_kafka : String → String
backend_or_kafka backend = if backend == "" then "kafka" else backend

-- `text` makes the message out of the name; it lists the names that are registered.
unfoldable pub make_queue :
    (String → String) → String → Option Factory → QueueConfig → Result WorkQueue
make_queue text backend none cfg = err (failure (text backend))
make_queue text backend (some factory) cfg = factory cfg

unfoldable pub new_queue : (String → String) → Map Factory → QueueConfig → Result WorkQueue
new_queue text factories cfg =
    make_queue text (backend_or_kafka cfg.backend) (lookup (backend_or_kafka cfg.backend) factories)
      cfg

unfoldable pub list_backends : Visit Factory → Map Factory → List String
list_backends visit factories = names (visit factories)
  where
    names : List (String × Factory) → List String
    names [] = []
    names ((n, f) ∷ m) = n ∷ names m

-- newActiveQueue, with the settings' part about the queue.
unfoldable pub new_active_queue :
    (String → String) → Map Factory → (String → Result WorkQueue) → QueueConfig → Result WorkQueue
new_active_queue text factories named cfg =
    if backend_or_kafka cfg.backend == "kafka"
    then named "kafka"
    else if backend_or_kafka cfg.backend == "memory"
    then named "memory"
    else new_queue text factories (record cfg { backend = backend_or_kafka cfg.backend })

-- newEventPublisher: only the store on Postgres has an outbox to write to.
pub data StoreKind : Type 0 where
  postgres_store other_store : StoreKind

pub data EventPublisher : Type 0 where
  noop_publisher : EventPublisher
  outbox_publisher : String → EventPublisher

unfoldable pub new_event_publisher : StoreKind → String → EventPublisher
new_event_publisher postgres_store scheduler_id = outbox_publisher scheduler_id
new_event_publisher other_store scheduler_id = noop_publisher

pub data LogLevel : Type 0 where
  debug_level info_level warn_level error_level : LogLevel

-- Logger: the level that CHRONOS_LOG_LEVEL names.
unfoldable pub log_level : String → LogLevel
log_level name =
    if name == "debug"
    then debug_level
    else if name == "warn"
    then warn_level
    else if name == "error"
    then error_level
    else info_level

-- ===== src/Wiring/Examples.antt =====
-- The choice of a queue, with both declared.
use chronos_dev.Common.{
  String, [], ◌∷◌, ◌==◌, if◌then◌else◌, ◌≡◌, ◌≢◌, refl, ◌⊎◌, Result, ok, err, failure,
}
use chronos_dev.Queue.{new}
use chronos_dev.Wiring.{
  QueueConfig, WorkQueue, in_memory, kafka_factory, memory_factory, first_backends, new_queue,
  new_active_queue,
}
use chronos_dev.Wiring.Backends.{new_active_queue-exact}

abbrev on_redis : QueueConfig
on_redis = record {
  backend = "redis";
  kafka_brokers = "b" ∷ [];
  kafka_topic = "t";
  kafka_group = "g";
}

abbrev container : String → Result WorkQueue
container name = if name == "kafka" then kafka_factory on_redis else memory_factory on_redis

abbrev unknown : String → String
unknown backend = backend

new_active_queue-exact_example :
    (new_active_queue unknown first_backends container on_redis
      ≡ new_queue unknown first_backends on_redis)
    × ((on_redis.backend ≡ "") ⊎ (on_redis.backend ≡ "kafka")
        → new_queue unknown first_backends on_redis ≡ kafka_factory on_redis)
    × (on_redis.backend ≡ "memory" → new_queue unknown first_backends on_redis ≡ ok (in_memory new))
    × (on_redis.backend ≢ ""
        → on_redis.backend ≢ "kafka"
        → on_redis.backend ≢ "memory"
        → new_queue unknown first_backends on_redis ≡ err (failure "redis"))
new_active_queue-exact_example =
    new_active_queue-exact unknown container on_redis (record { kafka = refl; memory = refl })

-- ===== src/Wiring/Backends.antt =====
-- Which queue is chosen.
use chronos_dev.Common.{
  String, none, some, ◌==◌, eq_iff, ◌≡◌, ◌≢◌, refl, ap, ◌∙◌, ne_false, ◌⊎◌, inl, inr, if◌then◌else◌,
  lookup, insert, arith, Bool-cases, Result, ok, err, failure,
}
use chronos_dev.Queue.{new}
use chronos_dev.Wiring.{
  QueueConfig, WorkQueue, in_memory, kafka_factory, memory_factory, register_backend,
  first_backends, backend_or_kafka, make_queue, new_queue, new_active_queue,
}

-- A container in which the two queues were declared under their names.
pub record Declares (cfg : QueueConfig) (named : String → Result WorkQueue) : Type 0 where
  pub kafka : named "kafka" ≡ kafka_factory cfg
  pub memory : named "memory" ≡ memory_factory cfg

lookup-first :
    (name : String)
    → lookup name first_backends ≡ (
        if name == "kafka"
        then some kafka_factory
        else if name == "memory"
        then some memory_factory
        else none)
unfolding first_backends register_backend lookup insert
lookup-first name =
    ground
      (arith, eq_iff name "kafka", eq_iff name "memory", eq_iff "kafka" name, eq_iff "memory" name)

-- What the registry makes for a backend.
new_queue-at :
    (text : String → String) (cfg : QueueConfig)
    → new_queue text first_backends cfg ≡ (
        if backend_or_kafka cfg.backend == "kafka"
        then kafka_factory cfg
        else if backend_or_kafka cfg.backend == "memory"
        then memory_factory cfg
        else err (failure (text (backend_or_kafka cfg.backend))))
unfolding new_queue make_queue
new_queue-at text cfg =
    let b = backend_or_kafka cfg.backend in
    rw (lookup-first b) (elim (Bool-cases (b == "kafka")) [
      | inl e ↦ rw e refl
      | inr e ↦ rw e (elim (Bool-cases (b == "memory")) [ inl f ↦ rw f refl | inr f ↦ rw f refl ])
    ])

once : (b : String) → backend_or_kafka (backend_or_kafka b) ≡ backend_or_kafka b
unfolding backend_or_kafka
once b = elim (Bool-cases (b == "")) [ inl e ↦ rw e refl | inr e ↦ rw (e, e) refl ]

given : (b : String) → b ≢ "" → backend_or_kafka b ≡ b
unfolding backend_or_kafka
given b h = rw (ne_false b "" h) refl

same_queue :
    (text : String → String) (named : String → Result WorkQueue) (cfg : QueueConfig)
    → Declares cfg named
    → new_active_queue text first_backends named cfg ≡ new_queue text first_backends cfg
unfolding new_active_queue
same_queue text named cfg declared =
    let b = backend_or_kafka cfg.backend in
    let other = new_queue-at text (record cfg { backend = b }) in
    elim (Bool-cases (b == "kafka")) [
      | inl e ↦ rw (new_queue-at text cfg, e, declared.kafka) refl
      | inr e ↦ elim (Bool-cases (b == "memory")) [
        | inl f ↦ rw (new_queue-at text cfg, e, f, declared.memory) refl
        | inr f ↦ rw (new_queue-at text cfg, e, f, other, once cfg.backend, e, f) refl
      ]
    ]

-- With a container in which both queues are declared, the queue that the wiring makes is the one that the
-- registry makes for the same settings: on Kafka if the backend is empty or "kafka", in memory if it is
-- "memory", and an error otherwise.
pub new_active_queue-exact :
    (text : String → String) (named : String → Result WorkQueue) (cfg : QueueConfig)
    → Declares cfg named
    → (new_active_queue text first_backends named cfg ≡ new_queue text first_backends cfg)
      × ((cfg.backend ≡ "") ⊎ (cfg.backend ≡ "kafka")
          → new_queue text first_backends cfg ≡ kafka_factory cfg)
      × (cfg.backend ≡ "memory" → new_queue text first_backends cfg ≡ ok (in_memory new))
      × (cfg.backend ≢ ""
          → cfg.backend ≢ "kafka"
          → cfg.backend ≢ "memory"
          → new_queue text first_backends cfg ≡ err (failure (text cfg.backend)))
unfolding backend_or_kafka memory_factory
new_active_queue-exact text named cfg declared = (
  same_queue text named cfg declared,
  λ h. new_queue-at text cfg ∙ rw (as_kafka_name h) refl,
  λ h. new_queue-at text cfg ∙ rw (ap backend_or_kafka h) refl,
  λ filled not_kafka not_memory.
      new_queue-at text cfg
      ∙ rw
          (
            given cfg.backend filled,
            ne_false cfg.backend "kafka" not_kafka,
            ne_false cfg.backend "memory" not_memory,
          )
          refl,
)
  where
    as_kafka_name :
        (cfg.backend ≡ "") ⊎ (cfg.backend ≡ "kafka") → backend_or_kafka cfg.backend ≡ "kafka"
    as_kafka_name (inl h) = ap backend_or_kafka h
    as_kafka_name (inr h) = ap backend_or_kafka h

-- ===== src/Outbox.antt =====
-- internal/outbox/publisher.go: the loop that moves the rows of the outbox to Kafka. The writer is
-- Kafka's; a flush is given the error of its write, if any.
pub mod Draining
mod Examples
use chronos_dev.Common.{
  ℕ, zero, suc, String, Bool, true, false, List, [], ◌∷◌, ◌++◌, map, Option, none, some, ◌==◌,
  if◌then◌else◌, Error,
}
use text.Mathlib.Text.{starts_with}
use chronos_dev.Domain.Job.{Instant}
use chronos_dev.Store.State.{Store, OutboxRow}
use chronos_dev.Store.Outbox.{fetch_outbox_batch, mark_outbox_published}
use chronos_dev.Store.Publication.{row_ids}

pub record Topics : Type 0 where
  pub job_events_topic : String
  pub worker_events_topic : String
  pub scheduler_events_topic : String

pub record Message : Type 0 where
  pub topic : String
  pub key : String
  pub value : String
  pub time : Instant

-- The store, and what Kafka has acknowledged.
pub record Publisher : Type 0 where
  pub topics : Topics
  pub store : Store
  pub written : List Message

unfoldable pub topic_for : Topics → String → String
topic_for c event_type =
    if starts_with event_type "JOB_"
    then c.job_events_topic
    else if starts_with event_type "WORKER_"
    then c.worker_events_topic
    else if starts_with event_type "SCHEDULER_"
    then c.scheduler_events_topic
    else c.job_events_topic

unfoldable pub message_of : Topics → OutboxRow → Message
message_of c r = record {
  topic = topic_for c r.event_type;
  key = if r.aggregate_id == "" then r.id else r.aggregate_id;
  value = r.payload;
  time = r.created_at;
}

-- The rows are marked only after the write; a failed write leaves them for the next flush.
unfoldable pub flush_rows : List OutboxRow → Option Error → Publisher → Publisher × Option Error
flush_rows [] failed p = (p, none)
flush_rows (r ∷ rs) (some e) p = (p, some e)
flush_rows (r ∷ rs) none p = (
  record p {
    store = mark_outbox_published (row_ids (r ∷ rs)) p.store;
    written = p.written ++ map (message_of p.topics) (r ∷ rs);
  },
  none,
)

unfoldable pub flush : Option Error → Publisher → Publisher × Option Error
flush failed p = flush_rows (fetch_outbox_batch 100 p.store) failed p

-- So many ticks of `Run` in which Kafka takes every write.
unfoldable pub flushes : ℕ → Publisher → Publisher
flushes zero p = p
flushes (suc n) p = flushes n (flush none p).0

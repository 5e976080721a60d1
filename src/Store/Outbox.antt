-- ===== src/Store/Outbox.antt =====
-- internal/store/memory/store.go: the outbox, and internal/events/publisher.go, which writes to it.
use chronos_dev.Common.{
  ℕ, pos, String, Bool, false, not, ◌||◌, List, [], ◌∷◌, ◌++◌, ◌==◌, take, select,
}
use chronos_dev.Domain.Job.{Instant}
use chronos_dev.Domain.Event.{Event, Emitted, event_name}
use chronos_dev.Store.State.{Store, OutboxRow}

-- The payload of the event is not kept.
unfoldable pub insert_outbox : Event → Store → Store
unfolding event_name
insert_outbox event s = record s { outbox = s.outbox ++ (row ∷ []) }
  where
    row : OutboxRow
    row = record {
      id = event.event_id;
      event_type = event_name event.event_type;
      aggregate_id = event.job_id;
      payload = "";
      created_at = event.event_time;
    }

-- The callers' limit is a positive constant; a slice expression panics at a negative one.
unfoldable pub fetch_outbox_batch : ℕ → Store → List OutboxRow
fetch_outbox_batch limit s = take limit s.outbox

-- `set[id]`: the identifiers as a set.
unfoldable pub one_of : String → List String → Bool
one_of x [] = false
one_of x (y ∷ ys) = x == y || one_of x ys

unfoldable pub mark_outbox_published : List String → Store → Store
unfolding one_of
mark_outbox_published ids s = record s { outbox = select (λ r. not (one_of r.id ids)) s.outbox }

-- events.Publisher.Emit, with a fresh identifier and the clock as arguments.
unfoldable pub emit_event : String → String → Instant → Emitted → Store → Store
unfolding insert_outbox
emit_event scheduler_id uuid now e s = insert_outbox event s
  where
    event : Event
    event = record {
      event_id = uuid;
      event_type = e.event_type;
      event_version = pos 1;
      event_time = now;
      job_id = e.job_id;
      execution_id = e.execution_id;
      worker_id = e.worker_id;
      scheduler_id = scheduler_id;
      trace_id = "";
      attempt = e.attempt;
      payload = e.payload;
    }

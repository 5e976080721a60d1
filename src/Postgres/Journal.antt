-- ===== src/Postgres/Journal.antt =====
-- internal/store/postgres/store.go: the tables of the outbox and of executions.
use chronos_dev.Common.{
  ℕ, pos, String, Bool, true, false, List, [], ◌∷◌, ◌++◌, Option, none, some, ◌==◌, if◌then◌else◌,
  Map, lookup, insert, map, leb_ℤ, Result, ok, err, failure,
}
use chronos_dev.Domain.Job.{JobExecution, ExecutionState, ExecutionResult, Instant, milliseconds}
use chronos_dev.Domain.Event.{Event, event_name}
use chronos_dev.Store.State.{OutboxRow}
use chronos_dev.Sql.{page}

-- A row of the outbox, with published_at.
pub record Entry : Type 0 where
  pub row : OutboxRow
  pub published_at : Option Instant

abbrev pub is_unpublished : Entry → Bool
is_unpublished e = unset e.published_at
  where
    unset : Option Instant → Bool
    unset none = true
    unset (some t) = false

abbrev has_id : String → List Entry → Bool
has_id id [] = false
has_id id (e ∷ es) = let rest = has_id id es in if e.row.id == id then true else rest

-- `json` is the encoding of events.
unfoldable pub entry_of : (Event → String) → Event → Entry
entry_of json event = record {
  row = record {
    id = event.event_id;
    event_type = event_name event.event_type;
    aggregate_id = event.job_id;
    payload = json event;
    created_at = event.event_time;
  };
  published_at = none;
}

-- The primary key admits no second row.
unfoldable pub insert_outbox : (Event → String) → Event → List Entry → Result (List Entry)
insert_outbox json event table =
    if has_id event.event_id table
    then err (failure "duplicate key")
    else ok (table ++ (entry_of json event ∷ []))

-- ORDER BY created_at ASC, on the rows in the order in which the database comes upon them.
unfoldable pub fetch_outbox_batch : ℕ → List Entry → List Entry
fetch_outbox_batch limit rows =
    page (λ a b. leb_ℤ a.row.created_at b.row.created_at) is_unpublished limit rows

abbrev pub publish : Instant → String → Entry → Entry
publish now id e = if e.row.id == id then record e { published_at = some now } else e

-- One UPDATE for each identifier.
unfoldable pub mark_outbox_published : Instant → List String → List Entry → List Entry
mark_outbox_published now [] table = table
mark_outbox_published now (id ∷ ids) table =
    mark_outbox_published now ids (map (publish now id) table)

-- The row that INSERT makes of an execution.
unfoldable pub create_execution :
    Instant → String → JobExecution → Map JobExecution → Result (Map JobExecution)
create_execution now uuid ex table = insert_execution (lookup id table)
  where
    id : String
    id = if ex.id == "" then uuid else ex.id

    insert_execution : Option JobExecution → Result (Map JobExecution)
    insert_execution none = ok (
        insert id
          (record ex {
            id = id;
            created_at = now;
            started_at = none;
            finished_at = none;
            duration_ms = pos 0;
            error = "";
            output = "";
            retryable = false;
          })
          table)
    insert_execution (some old) = err (failure "duplicate key")

-- UPDATE job_executions … WHERE id=$1, which changes nothing if there is no such row.
unfoldable pub finish_execution :
    Instant → String → ExecutionState → ExecutionResult → Map JobExecution → Map JobExecution
finish_execution now id state result table = update (lookup id table)
  where
    update : Option JobExecution → Map JobExecution
    update none = table
    update (some ex) =
        insert id
          (record ex {
            state = state;
            finished_at = some now;
            duration_ms = milliseconds result.duration;
            error = result.error;
            output = result.output;
            retryable = result.retryable;
          })
          table

-- ===== src/Store/Fleet.antt =====
-- internal/store/memory/store.go: executions and workers.
use chronos_dev.Common.{
  String, Bool, false, ◌&&◌, ◌||◌, List, [], ◌∷◌, some, ◌==◌, if◌then◌else◌, Visit, lookup, insert,
  map_values, values, select, ltb_ℤ, ◌+ℤ◌, ◌-ℤ◌, Result, ok, not_found, or_error, ◌>>=◌,
}
use chronos_dev.Domain.Job.{
  JobExecution, ExecutionState, ExecutionResult, Instant, Duration, milliseconds,
}
use chronos_dev.Domain.Worker.{Worker, suspected, unavailable, is_healthy, is_suspected}
use chronos_dev.Store.State.{Store}

unfoldable pub create_execution : Instant → String → JobExecution → Store → Store
create_execution now uuid ex s = record s { executions = insert id stored s.executions }
  where
    id : String
    id = if ex.id == "" then uuid else ex.id

    stored : JobExecution
    stored = record ex { id = id; created_at = now }

unfoldable pub finish_execution :
    Instant → String → ExecutionState → ExecutionResult → Store → Result Store
unfolding milliseconds
finish_execution now id state result s = do
  ex ← or_error not_found (lookup id s.executions)
  let finished : JobExecution = record ex {
    state = state;
    finished_at = some now;
    duration_ms = milliseconds result.duration;
    error = result.error;
    output = result.output;
    retryable = result.retryable;
  }
  ok (record s { executions = insert id finished s.executions })

unfoldable pub upsert_worker : Worker → Store → Store
upsert_worker w s = record s { workers = insert w.id w s.workers }

unfoldable pub list_healthy_workers : Visit Worker → Store → List Worker
list_healthy_workers visit s = select (λ w. is_healthy w.status) (values (visit s.workers))

unfoldable pub list_workers : Visit Worker → Store → List Worker
list_workers visit s = values (visit s.workers)

-- The two tests of the loop of `MarkStaleWorkers`.
unfoldable pub becomes_unavailable : Instant → Worker → Bool
becomes_unavailable dead_before w =
    ltb_ℤ w.last_heartbeat dead_before && (is_healthy w.status || is_suspected w.status)

unfoldable pub becomes_suspected : Instant → Instant → Worker → Bool
unfolding becomes_unavailable
becomes_suspected dead_before suspect_before w =
    if becomes_unavailable dead_before w
    then false
    else ltb_ℤ w.last_heartbeat suspect_before && is_healthy w.status

unfoldable pub mark_stale : Instant → Instant → Worker → Worker
unfolding becomes_unavailable becomes_suspected
mark_stale dead_before suspect_before w =
    if becomes_unavailable dead_before w
    then record w { status = unavailable }
    else if becomes_suspected dead_before suspect_before w
    then record w { status = suspected }
    else w

abbrev keys : List (String × Worker) → (Worker → Bool) → List String
keys [] p = []
keys ((k, w) ∷ m) p = let rest = keys m p in if p w then k ∷ rest else rest

pub record Stale : Type 0 where
  pub store : Store
  pub suspected_ids : List String
  pub unavailable_ids : List String

-- Each worker is written in place, so the order of the loop shows in the two lists alone.
unfoldable pub mark_stale_workers : Visit Worker → Instant → Duration → Duration → Store → Stale
unfolding mark_stale ◌-ℤ◌ ◌+ℤ◌
mark_stale_workers visit now heartbeat_timeout grace s =
    let dead_before = now -ℤ (heartbeat_timeout +ℤ grace) in
    let suspect_before = now -ℤ heartbeat_timeout in
    record {
      store = record s { workers = map_values (mark_stale dead_before suspect_before) s.workers };
      suspected_ids = keys (visit s.workers) (becomes_suspected dead_before suspect_before);
      unavailable_ids = keys (visit s.workers) (becomes_unavailable dead_before);
    }

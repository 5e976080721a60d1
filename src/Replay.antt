-- ===== src/Replay.antt =====
-- cmd/event-replay/main.go: the loop that reads a topic again and writes its events to ClickHouse or to the
-- standard output. What Kafka answers is an input, one for each turn of the loop; configuration and connections
-- are made before the loop, and are not modelled.
pub mod Repeats
pub mod Completeness
mod Examples
use chronos_dev.Common.{
  ℕ, suc, String, Bool, true, false, ◌&&◌, List, [], ◌∷◌, ◌++◌, ◌==◌, if◌then◌else◌, leb, ltb,
  length, Result, ok, err, Error,
}
use chronos_dev.Domain.Job.{Instant}
use chronos_dev.Domain.Event.{Event}
use chronos_dev.Analytics.Table.{EventRow, Writer, insert_events}

-- The database, at the time of an insertion.
pub record Moment : Type 0 where
  pub writer : Writer
  pub now : Instant

-- A call of ReadMessage; whether the last message is too long ago or the program is being stopped; and the
-- database, for the case that a batch is full.
pub record Attempt : Type 0 where
  pub read : Result String
  pub is_over : Bool
  pub moment : Moment

pub record Replay : Type 0 where
  pub batch : List Event
  pub count : ℕ
  pub printed : List Event
  pub table : List EventRow

-- The loop goes on, it was left, or the program has ended with an error.
pub data Progress : Type 0 where
  reading finished : Replay → Progress
  exited : Error → Replay → Progress

unfoldable pub new_replay : List EventRow → Replay
new_replay table = record { batch = []; count = 0; printed = []; table = table }

unfoldable pub written : Replay → Result (List EventRow) → Progress
written s (ok table) = reading (record s { batch = []; table = table })
written s (err e) = exited e s

unfoldable pub insert_batch : Moment → Replay → Progress
insert_batch m s = written s (insert_events m.writer m.now s.batch s.table)

unfoldable pub insert_if : Bool → Moment → Replay → Progress
insert_if true m s = insert_batch m s
insert_if false m s = reading s

unfoldable pub take_replayed : String → Moment → Event → Replay → Progress
take_replayed target m ev s =
    let s' : Replay = record s { count = suc s.count } in
    if target == "stdout"
    then reading (record s' { printed = s.printed ++ (ev ∷ []) })
    else if target == "clickhouse"
    then insert_if (leb 100 (length (s.batch ++ (ev ∷ [])))) m
        (record s' { batch = s.batch ++ (ev ∷ []) })
    else reading s'

unfoldable pub unmarshal : String → Moment → Result Event → Replay → Progress
unmarshal target m (err e) s = reading s
unmarshal target m (ok ev) s = take_replayed target m ev s

abbrev pub stop_if : Bool → Replay → Progress
stop_if true s = finished s
stop_if false s = reading s

-- What a turn does with the answer of ReadMessage.
unfoldable pub on_read :
    (String → Result Event) → String → Attempt → Result String → Replay → Progress
on_read decode target a (err e) s = stop_if a.is_over s
on_read decode target a (ok value) s = unmarshal target a.moment (decode value) s

abbrev pub is_full : ℕ → Replay → Bool
is_full limit s = ltb 0 limit && leb limit s.count

unfoldable pub replay_turn : (String → Result Event) → String → ℕ → Attempt → Replay → Progress
replay_turn decode target limit a s =
    if is_full limit s then finished s else on_read decode target a a.read s

abbrev pub and_then : Progress → (Replay → Progress) → Progress
and_then (reading s) next = next s
and_then (finished s) next = finished s
and_then (exited e s) next = exited e s

unfoldable pub replay_loop : (String → Result Event) → String → ℕ → List Attempt → Replay → Progress
replay_loop decode target limit [] s = stop_if (is_full limit s) s
replay_loop decode target limit (a ∷ rest) s =
    and_then (replay_turn decode target limit a s) (replay_loop decode target limit rest)

abbrev pub as_finished : Progress → Progress
as_finished (reading s) = finished s
as_finished (finished s) = finished s
as_finished (exited e s) = exited e s

-- The last batch, if it is not empty.
unfoldable pub last_batch : String → Moment → Progress → Progress
last_batch target m (reading s) = reading s
last_batch target m (exited e s) = exited e s
last_batch target m (finished s) =
    if target == "clickhouse" && ltb 0 (length s.batch)
    then as_finished (insert_batch m s)
    else finished s

unfoldable pub replay :
    (String → Result Event) → String → ℕ → List Attempt → Moment → List EventRow → Progress
replay decode target limit attempts m table =
    last_batch target m (replay_loop decode target limit attempts (new_replay table))

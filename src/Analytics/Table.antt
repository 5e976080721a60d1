-- ===== src/Analytics/Table.antt =====
-- internal/analytics/clickhouse.go and the table chronos_events of internal/analytics/schema.go. The
-- table is a list of rows in the order in which they were written; FINAL is what ClickHouse documents
-- of ReplacingMergeTree(ingested_at) for it. An instant keeps its precision, and no row is old enough
-- to be deleted.
pub mod Keys
pub mod Again
mod Examples
use chronos_dev.Common.{
  ℕ, ℤ, pos, negsuc, ◌+◌, ◌-◌, ◌%◌, ◌^◌, String, Bool, true, false, ◌&&◌, List, [], ◌∷◌, ◌++◌,
  Option, none, some, ◌==◌, if◌then◌else◌, eqb_ℤ, leb_ℤ, ltb_ℤ, count, Result, ok, err, Error,
}
use chronos_dev.Domain.Job.{Instant, zero_time}
use chronos_dev.Domain.Event.{Event, Member, event_name}
use chronos_dev.Analytics.Range.{TimeRange}

pub record EventRow : Type 0 where
  pub event_id : String
  pub event_type : String
  pub event_version : ℕ
  pub event_time : Instant
  pub ingested_at : Instant
  pub job_id : String
  pub execution_id : String
  pub worker_id : String
  pub scheduler_id : String
  pub attempt : ℕ
  pub trace_id : String
  pub payload : String

-- uuid.Parse, with the text of the identifier that it reads; the identifiers that uuid.New draws, one for each
-- event; the bytes of a payload, which are empty if there is none; the errors of the batch's three calls.
pub record Writer : Type 0 where
  pub parse_uuid : String → Option String
  pub new_uuid : Event → String
  pub payload_of : List Member → String
  pub prepare_error : Option Error
  pub append_error : EventRow → Option Error
  pub send_error : Option Error

-- Go's conversion to an unsigned number of `w` bits.
unfoldable pub unsigned : ℕ → ℤ → ℕ
unsigned w (pos n) = n % 2 ^ w
unsigned w (negsuc n) = 2 ^ w - 1 - n % 2 ^ w

abbrev pub id_or_new : String → Option String → String
id_or_new fresh none = fresh
id_or_new fresh (some id) = id

unfoldable pub row_of_event : Writer → Instant → Event → EventRow
row_of_event w now e = record {
  event_id = id_or_new (w.new_uuid e) (w.parse_uuid e.event_id);
  event_type = event_name e.event_type;
  event_version = unsigned 16 e.event_version;
  event_time = if eqb_ℤ e.event_time zero_time then now else e.event_time;
  ingested_at = now;
  job_id = e.job_id;
  execution_id = e.execution_id;
  worker_id = e.worker_id;
  scheduler_id = e.scheduler_id;
  attempt = unsigned 32 e.attempt;
  trace_id = e.trace_id;
  payload = if w.payload_of e.payload == "" then "{}" else w.payload_of e.payload;
}

abbrev pub append_row : Option Error → EventRow → Result (List EventRow) → Result (List EventRow)
append_row (some e) r rest = err e
append_row none r (ok rows) = ok (r ∷ rows)
append_row none r (err e) = err e

-- The rows that the loop puts into the batch.
unfoldable pub batch_rows : Writer → Instant → List Event → Result (List EventRow)
batch_rows w now [] = ok []
batch_rows w now (e ∷ es) =
    let r = row_of_event w now e in append_row (w.append_error r) r (batch_rows w now es)

abbrev pub send_batch :
    Option Error → Result (List EventRow) → List EventRow → Result (List EventRow)
send_batch failed (err e) table = err e
send_batch (some e) (ok rows) table = err e
send_batch none (ok rows) table = ok (table ++ rows)

abbrev pub prepared : Option Error → Result (List EventRow) → Result (List EventRow)
prepared none rest = rest
prepared (some e) rest = err e

-- A batch that is not sent leaves the table as it was.
unfoldable pub insert_events :
    Writer → Instant → List Event → List EventRow → Result (List EventRow)
insert_events w now [] table = ok table
insert_events w now (e ∷ es) table =
    prepared w.prepare_error (send_batch w.send_error (batch_rows w now (e ∷ es)) table)

-- ORDER BY (event_type, event_time, event_id)
abbrev pub same_key : EventRow → EventRow → Bool
same_key a b =
    a.event_type == b.event_type && eqb_ℤ a.event_time b.event_time && a.event_id == b.event_id

-- Of two rows with one key the one with the later `ingested_at` stays, the last one of these if they tie.
unfoldable pub replace : EventRow → List EventRow → List EventRow
replace r [] = r ∷ []
replace r (x ∷ xs) =
    let rest = replace r xs in
    if same_key x r then (if leb_ℤ x.ingested_at r.ingested_at then r else x) ∷ xs else x ∷ rest

unfoldable pub replace_all : List EventRow → List EventRow → List EventRow
replace_all seen [] = seen
replace_all seen (r ∷ rs) = replace_all (replace r seen) rs

-- FROM chronos_events FINAL
unfoldable pub final : List EventRow → List EventRow
final table = replace_all [] table

-- event_time >= ? AND event_time < ?
abbrev pub in_range : TimeRange → EventRow → Bool
in_range tr r = leb_ℤ tr.from r.event_time && ltb_ℤ r.event_time tr.to

unfoldable pub count_events : List EventRow → ℕ
count_events table = count (λ r. true) (final table)

unfoldable pub count_by_type : String → List EventRow → ℕ
count_by_type event_type table = count (λ r. r.event_type == event_type) (final table)

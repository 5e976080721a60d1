-- ===== src/Analytics/Samples.antt =====
-- Events, a writer and a coarse arithmetic, for the examples.
use chronos_dev.Common.{
  ℕ, ◌-◌, pos, String, false, List, [], ◌∷◌, none, some, ◌==◌, if◌then◌else◌, ltb, leb, pos_part,
  canceled,
}
use chronos_dev.Domain.Event.{Event, EventType, job_completed, job_failed}
use chronos_dev.Analytics.Range.{TimeRange}
use chronos_dev.Analytics.Table.{EventRow, Writer, row_of_event}
use chronos_dev.Analytics.Queries.{Float64, ClickHouse, Asked}

abbrev pub sample_event : String → EventType → ℕ → Event
sample_event id event_type time = record {
  event_id = id;
  event_type = event_type;
  event_version = pos 1;
  event_time = pos time;
  job_id = "j1";
  execution_id = "";
  worker_id = "w1";
  scheduler_id = "s1";
  trace_id = "";
  attempt = pos 0;
  payload = [];
}

abbrev pub done_event : Event
done_event = sample_event "e1" job_completed 5

abbrev pub failed_event : Event
failed_event = sample_event "e2" job_failed 7

-- Identifiers are read as they are; nothing fails.
abbrev pub sample_writer : Writer
sample_writer = record {
  parse_uuid = λ id. if id == "" then none else some id;
  new_uuid = λ e. "fresh";
  payload_of = λ members. "";
  prepare_error = none;
  append_error = λ r. none;
  send_error = none;
}

abbrev pub sample_rows : List EventRow
sample_rows =
    row_of_event sample_writer (pos 10) done_event
    ∷ row_of_event sample_writer (pos 10) failed_event
    ∷ []

abbrev pub sample_range : TimeRange
sample_range = record { from = pos 0; to = pos 100 }

abbrev pub sample_query : Asked
sample_query = record {
  table = sample_rows;
  query_error = none;
  scan_error = λ n. none;
  broken = none;
}

abbrev pub broken_query : Asked
broken_query = record sample_query { broken = some (1, canceled) }

-- Numbers without fractions; a quotient says only how two numbers compare.
abbrev pub coarse : Float64 ℕ
coarse = record {
  of_uint64 = λ n. n;
  seconds = pos_part;
  minus = λ a b. a - b;
  over = λ a b. if ltb a b then 0 else if leb a b then 1 else 2;
  less = ltb;
  le = leb;
  or_zero = λ a. a;
  infinity = 1000;
  ceil_int = pos;
  is_nan = λ a. false;
  is_inf = λ a. false;
}

abbrev pub sample_clickhouse : ClickHouse ℕ
sample_clickhouse = record {
  start_of_minute = λ t. t;
  start_of_hour = λ t. pos 0;
  is_scheduler = λ t. t == "SCHEDULER_STARTED";
  duration_ms = λ p. 1;
  millis_between = λ s t. pos 1;
  quantile = λ p xs. p;
  average = λ xs. 0;
  quantile_int = λ p xs. p;
  average_int = λ xs. 0;
  quantile_present = λ p xs. none;
}

-- ===== src/Analytics/Queries.antt =====
-- internal/analytics/query.go: what the queries have in common, and Throughput. What
-- ClickHouse computes beyond selecting, grouping, ordering and counting is a parameter, as float64 is. The result
-- of a call that has an error is that error, since api/analytics.go drops the rest. Every query that is sent
-- meets the table of its moment.
pub mod Outcomes
pub mod Buckets
pub mod Counts
pub mod Rates
pub mod Capacity
pub mod Clean
pub mod Statistics
pub mod Anomalies
pub mod Alarms
pub mod Findings
mod Examples
use chronos_dev.Common.{
  ℕ, ℤ, zero, suc, ◌+◌, ◌%◌, ◌^◌, String, Bool, true, ◌&&◌, List, [], ◌∷◌, ◌++◌, map, Option, none,
  some, ◌==◌, if◌then◌else◌, eqb_ℤ, leb_ℤ, ltb, ◌-ℤ◌, take, select, length, count, Map, insert,
  Result, ok, err, Error, ◌>>=◌,
}
use chronos_dev.Domain.Job.{Instant, Duration}
use chronos_dev.Analytics.Range.{TimeRange}
use chronos_dev.Analytics.Table.{EventRow, final, in_range}
use chronos_dev.Sql.{ordered, group_by}

-- float64: conversions, `-`, `/`, `<`, `<=`, math.Max with 0, math.Inf(1), math.Ceil followed by a conversion to
-- `int`, Duration.Seconds, and the two tests of `cleanF`.
pub record Float64 (F : Type 0) : Type 0 where
  pub of_uint64 : ℕ → F
  pub seconds : Duration → F
  pub minus : F → F → F
  pub over : F → F → F
  pub less : F → F → Bool
  pub le : F → F → Bool
  pub or_zero : F → F
  pub infinity : F
  pub ceil_int : F → ℤ
  pub is_nan : F → Bool
  pub is_inf : F → Bool

-- toStartOfMinute, toStartOfHour, startsWith(…, 'SCHEDULER_'), JSONExtractUInt(…, 'duration_ms'),
-- dateDiff('millisecond', …), and quantileTDigest (by the thousand) and avg, for floats and for integers, and for
-- columns with NULL.
pub record ClickHouse (F : Type 0) : Type 0 where
  pub start_of_minute : Instant → Instant
  pub start_of_hour : Instant → Instant
  pub is_scheduler : String → Bool
  pub duration_ms : String → ℕ
  pub millis_between : Instant → Instant → ℤ
  pub quantile : ℕ → List F → F
  pub average : List F → F
  pub quantile_int : ℕ → List ℤ → F
  pub average_int : List ℤ → F
  pub quantile_present : ℕ → List (Option F) → Option F

-- A query on its way: the table that it meets, and the errors of the call, of a row's Scan, and of a connection
-- that breaks after some rows.
pub record Asked : Type 0 where
  pub table : List EventRow
  pub query_error : Option Error
  pub scan_error : ℕ → Option Error
  pub broken : Option (ℕ × Error)

abbrev pub scan_row : {R : Type 0} → Option Error → R → Result (List R) → Result (List R)
scan_row (some e) r rest = err e
scan_row none r (ok rows) = ok (r ∷ rows)
scan_row none r (err e) = err e

unfoldable pub scan_rows : {R : Type 0} → (ℕ → Option Error) → ℕ → List R → Result (List R)
scan_rows failed n [] = ok []
scan_rows failed n (r ∷ rows) = scan_row (failed n) r (scan_rows failed (suc n) rows)

-- The rows that the loop has, with rows.Err().
pub record Fetched (R : Type 0) : Type 0 where
  pub rows : List R
  pub rows_error : Option Error

abbrev pub fetched : {R : Type 0} → Option Error → Result (List R) → Result (Fetched R)
fetched e (ok rows) = ok (record { rows = rows; rows_error = e })
fetched e (err f) = err f

unfoldable pub fetch_until : {R : Type 0} → Asked → Option (ℕ × Error) → List R → Result (Fetched R)
fetch_until a none rows = fetched none (scan_rows a.scan_error 0 rows)
fetch_until a (some (n, e)) rows = fetched (some e) (scan_rows a.scan_error 0 (take n rows))

abbrev pub called : {A : Type 0} → Option Error → Result A → Result A
called none rest = rest
called (some e) rest = err e

-- conn.Query, and the loop over its rows.
unfoldable pub fetch : {R : Type 0} → Asked → List R → Result (Fetched R)
fetch a rows = called a.query_error (fetch_until a a.broken rows)

-- conn.QueryRow, and its Scan.
unfoldable pub fetch_one : {R : Type 0} → Asked → R → Result R
fetch_one a r = called a.query_error (called (a.scan_error 0) (ok r))

-- `return out, rows.Err()`
abbrev pub unless_broken : {A : Type 0} → Option Error → A → Result A
unless_broken none a = ok a
unless_broken (some e) a = err e

-- FROM chronos_events FINAL WHERE event_time >= ? AND event_time < ?
unfoldable pub rows_in : TimeRange → Asked → List EventRow
rows_in tr a = select (in_range tr) (final a.table)

abbrev pub of_type : String → EventRow → Bool
of_type event_type r = r.event_type == event_type

-- countIf(event_type = …)
unfoldable pub count_if : String → List EventRow → ℕ
count_if event_type = count (of_type event_type)

-- Sums of uint64.
infixl 65 ◌+u◌
unfoldable pub ◌+u◌ : ℕ → ℕ → ℕ
a +u b = (a + b) % 2 ^ 64

abbrev pub by_time : (Instant → Instant) → List EventRow → List (Instant × List EventRow)
by_time start = group_by eqb_ℤ (λ r. start r.event_time)

-- GROUP BY bucket ORDER BY bucket
unfoldable pub buckets : (Instant → Instant) → List EventRow → List (Instant × List EventRow)
buckets start rows = ordered (λ a b. leb_ℤ a.0 b.0) (by_time start rows)

-- GROUP BY event_type, with count().
unfoldable pub type_counts : List EventRow → List (String × ℕ)
type_counts rows = map (λ g. (g.0, length g.1)) (group_by ◌==◌ (λ r. r.event_type) rows)

-- Throughput.

pub record BucketCounts : Type 0 where
  pub bucket : Instant
  pub completed : ℕ
  pub failed : ℕ
  pub created : ℕ

pub record ThroughputPoint (F : Type 0) : Type 0 where
  pub bucket : Instant
  pub completed : ℕ
  pub failed : ℕ
  pub created : ℕ
  pub rate_per_sec : F

pub record ThroughputTotals (F : Type 0) : Type 0 where
  pub completed : ℕ
  pub failed : ℕ
  pub created : ℕ
  pub avg_rate : F

pub record ThroughputResult (F : Type 0) : Type 0 where
  pub range : TimeRange
  pub grain : String
  pub points : List (ThroughputPoint F)
  pub totals : ThroughputTotals F

abbrev pub counts_of : Instant × List EventRow → BucketCounts
counts_of g = record {
  bucket = g.0;
  completed = count_if "JOB_COMPLETED" g.1;
  failed = count_if "JOB_FAILED" g.1;
  created = count_if "JOB_CREATED" g.1;
}

unfoldable pub throughput_rows : (Instant → Instant) → TimeRange → Asked → List BucketCounts
throughput_rows start tr a = map counts_of (buckets start (rows_in tr a))

module _ {F : Type 0} (f : Float64 F) (ch : ClickHouse F) where
  unfoldable pub clean_f : F → F
  clean_f x = if f.is_nan x then f.of_uint64 0 else if f.is_inf x then f.of_uint64 0 else x

  -- A quotient that is left at zero unless `test` is positive.
  abbrev pub ratio_if : Bool → F → F → F
  ratio_if positive x y = if positive then f.over x y else f.of_uint64 0

  abbrev pub per_second : TimeRange → ℕ → F
  per_second tr n =
      let duration = f.seconds (tr.to -ℤ tr.from) in
      ratio_if (f.less (f.of_uint64 0) duration) (f.of_uint64 n) duration

  abbrev pub bucket_of : String → Instant → Instant
  bucket_of grain = if grain == "hour" then ch.start_of_hour else ch.start_of_minute

  abbrev pub bucket_seconds : String → ℕ
  bucket_seconds grain = if grain == "hour" then 3600 else 60

  abbrev pub point_of : String → BucketCounts → ThroughputPoint F
  point_of grain c = record {
    bucket = c.bucket;
    completed = c.completed;
    failed = c.failed;
    created = c.created;
    rate_per_sec = f.over (f.of_uint64 c.completed) (f.of_uint64 (bucket_seconds grain));
  }

  -- The loop over the rows.
  unfoldable pub add_points : String → List BucketCounts → ThroughputResult F → ThroughputResult F
  add_points grain [] out = out
  add_points grain (c ∷ rows) out = add_points grain rows (record out {
    points = out.points ++ (point_of grain c ∷ []);
    totals = record (out.totals) {
      completed = out.totals.completed +u c.completed;
      failed = out.totals.failed +u c.failed;
      created = out.totals.created +u c.created;
    };
  })

  abbrev pub no_points : TimeRange → String → ThroughputResult F
  no_points tr grain = record {
    range = tr;
    grain = grain;
    points = [];
    totals = record { completed = 0; failed = 0; created = 0; avg_rate = f.of_uint64 0 };
  }

  abbrev pub rated : TimeRange → ThroughputResult F → ThroughputResult F
  rated tr out = record out {
    totals = record (out.totals) { avg_rate = per_second tr out.totals.completed };
  }

  unfoldable pub throughput : TimeRange → String → Asked → Result (ThroughputResult F)
  throughput tr grain a = fetch a (throughput_rows (bucket_of grain) tr a) >>= λ got.
      unless_broken got.rows_error (rated tr (add_points grain got.rows (no_points tr grain)))

-- ===== src/Analytics/Queries/Anomalies.antt =====
-- internal/analytics/query.go: Anomalies. The text of a message is not kept.
use chronos_dev.Common.{
  ℕ, String, Bool, true, false, ◌&&◌, List, [], ◌∷◌, ◌++◌, map, Option, none, some, if◌then◌else◌,
  Result, ok, ◌>>=◌,
}
use chronos_dev.Analytics.Range.{TimeRange}
use chronos_dev.Analytics.Table.{EventRow}
use chronos_dev.Analytics.Queries.{
  Float64, ClickHouse, Asked, fetch_one, rows_in, of_type, count_if, ◌+u◌, clean_f, ratio_if,
  per_second,
}

pub data Severity : Type 0 where
  warn critical : Severity

pub record Anomaly (F : Type 0) : Type 0 where
  pub metric : String
  pub baseline : F
  pub current : F
  pub ratio : F
  pub severity : Severity

pub record AnomaliesResult (F : Type 0) : Type 0 where
  pub window : TimeRange
  pub baseline : TimeRange
  pub anomalies : List (Anomaly F)

pub record Snap (F : Type 0) : Type 0 where
  pub p95 : F
  pub fail_rate : F
  pub throughput : F

-- The columns of the query: the jobs that were completed, those that failed, and the quantile of the durations.
pub record SnapRow (F : Type 0) : Type 0 where
  pub completed : ℕ
  pub failed : ℕ
  pub p95 : F

-- ifNull(…, 0)
abbrev pub or_nought : {F : Type 0} → F → Option F → F
or_nought nought none = nought
or_nought nought (some x) = x

module _ {F : Type 0} (f : Float64 F) (ch : ClickHouse F) where
  abbrev pub completed_duration : EventRow → Option F
  completed_duration r =
      if of_type "JOB_COMPLETED" r then some (f.of_uint64 (ch.duration_ms r.payload)) else none

  unfoldable pub snap_row : List EventRow → SnapRow F
  snap_row rows = record {
    completed = count_if "JOB_COMPLETED" rows;
    failed = count_if "JOB_FAILED" rows;
    p95 = or_nought (f.of_uint64 0) (ch.quantile_present 950 (map completed_duration rows));
  }

  unfoldable pub snap_of : TimeRange → SnapRow F → Snap F
  snap_of tr row =
      let term = f.of_uint64 (row.completed +u row.failed) in
      record {
        p95 = clean_f f ch row.p95;
        fail_rate = ratio_if f ch (f.less (f.of_uint64 0) term) (f.of_uint64 row.failed) term;
        throughput = per_second f ch tr row.completed;
      }

  unfoldable pub load_snap : TimeRange → Asked → Result (Snap F)
  load_snap tr a = fetch_one a (snap_row (rows_in tr a)) >>= λ row. ok (snap_of tr row)

  unfoldable pub ratio_of : F → F → F
  ratio_of b c =
      if f.less (f.of_uint64 0) b
      then f.over c b
      else if f.less (f.of_uint64 0) c
      then f.infinity
      else f.of_uint64 0

  unfoldable pub severity_rise : F → F → F → Option Severity
  severity_rise ratio warning crit =
      if f.le crit ratio then some critical else if f.le warning ratio then some warn else none

  -- A drop is bad.
  unfoldable pub severity_drop : F → F → F → F → Option Severity
  severity_drop b c warning crit =
      if f.less (f.of_uint64 0) b && f.le (f.over c b) (f.over (f.of_uint64 1) crit)
      then some critical
      else if f.less (f.of_uint64 0) b && f.le (f.over c b) (f.over (f.of_uint64 1) warning)
      then some warn
      else none

  abbrev pub note_if : String → F → F → Option Severity → List (Anomaly F) → List (Anomaly F)
  note_if metric b c none out = out
  note_if metric b c (some sev) out =
      out
      ++ (record {
        metric = metric;
        baseline = b;
        current = c;
        ratio = ratio_of b c;
        severity = sev;
      }
          ∷ [])

  unfoldable pub check : String → F → F → ℕ → ℕ → Bool → List (Anomaly F) → List (Anomaly F)
  check metric b c warning crit higher_bad out =
      if f.le b (f.of_uint64 0) && f.le c (f.of_uint64 0)
      then out
      else note_if metric b c
          (if higher_bad
            then severity_rise (ratio_of b c) (f.of_uint64 warning) (f.of_uint64 crit)
            else severity_drop b c (f.of_uint64 warning) (f.of_uint64 crit))
          out

  unfoldable pub checked : Snap F → Snap F → List (Anomaly F)
  checked base cur = check "throughput_per_sec" base.throughput cur.throughput 2 4 false (
      check "failure_rate" base.fail_rate cur.fail_rate 2 5 true
        (check "p95_latency_ms" base.p95 cur.p95 2 4 true []))

  unfoldable pub anomalies : TimeRange → TimeRange → Asked → Asked → Result (AnomaliesResult F)
  anomalies current baseline a b = load_snap current a >>= λ cur. load_snap baseline b >>= λ base.
      ok (record { window = current; baseline = baseline; anomalies = checked base cur })

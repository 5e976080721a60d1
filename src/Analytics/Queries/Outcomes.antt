-- ===== src/Analytics/Queries/Outcomes.antt =====
-- internal/analytics/query.go: Failures and Scheduler.
use chronos_dev.Common.{
  ℕ, ltb, String, Bool, true, List, [], ◌∷◌, map, ◌==◌, if◌then◌else◌, select, Map, insert, Result,
  ◌>>=◌,
}
use chronos_dev.Domain.Job.{Instant}
use chronos_dev.Analytics.Range.{TimeRange}
use chronos_dev.Analytics.Table.{EventRow}
use chronos_dev.Analytics.Queries.{
  Float64, ClickHouse, Asked, fetch, unless_broken, rows_in, count_if, ◌+u◌, buckets, type_counts,
  ratio_if,
}

pub record FailurePoint : Type 0 where
  pub bucket : Instant
  pub failed : ℕ
  pub timeout : ℕ
  pub retry : ℕ

pub record FailureResult (F : Type 0) : Type 0 where
  pub range : TimeRange
  pub by_type : Map ℕ
  pub success_rate : F
  pub failure_rate : F
  pub retry_rate : F
  pub timeout_rate : F
  pub cancel_rate : F
  pub series : List FailurePoint

-- The variables of the loop.
pub record Outcomes : Type 0 where
  pub by_type : Map ℕ
  pub completed : ℕ
  pub failed : ℕ
  pub timeout : ℕ
  pub cancel : ℕ
  pub retry : ℕ

abbrev pub is_outcome : String → Bool
is_outcome t =
    if t == "JOB_COMPLETED"
    then true
    else if t == "JOB_FAILED"
    then true
    else if t == "JOB_TIMEOUT"
    then true
    else if t == "JOB_CANCELLED"
    then true
    else t == "JOB_RETRY_SCHEDULED"

abbrev pub put_outcome : String × ℕ → Outcomes → Outcomes
put_outcome (t, c) o =
    if t == "JOB_COMPLETED"
    then record o { completed = c }
    else if t == "JOB_FAILED"
    then record o { failed = c }
    else if t == "JOB_TIMEOUT"
    then record o { timeout = c }
    else if t == "JOB_CANCELLED"
    then record o { cancel = c }
    else if t == "JOB_RETRY_SCHEDULED"
    then record o { retry = c }
    else o

unfoldable pub put_counts : List (String × ℕ) → Map ℕ → Map ℕ
put_counts [] m = m
put_counts ((t, c) ∷ rows) m = put_counts rows (insert t c m)

unfoldable pub read_outcomes : List (String × ℕ) → Outcomes → Outcomes
read_outcomes [] o = o
read_outcomes (r ∷ rows) o =
    read_outcomes rows (put_outcome r (record o { by_type = insert r.0 r.1 o.by_type }))

abbrev pub no_outcomes : Outcomes
no_outcomes = record { by_type = []; completed = 0; failed = 0; timeout = 0; cancel = 0; retry = 0 }

unfoldable pub outcome_rows : TimeRange → Asked → List (String × ℕ)
outcome_rows tr a = type_counts (select (λ r. is_outcome r.event_type) (rows_in tr a))

abbrev pub failures_of : Instant × List EventRow → FailurePoint
failures_of g = record {
  bucket = g.0;
  failed = count_if "JOB_FAILED" g.1;
  timeout = count_if "JOB_TIMEOUT" g.1;
  retry = count_if "JOB_RETRY_SCHEDULED" g.1;
}

module _ {F : Type 0} (f : Float64 F) (ch : ClickHouse F) where
  unfoldable pub rates_of : TimeRange → Outcomes → FailureResult F
  rates_of tr o =
      let term = f.of_uint64 (o.completed +u o.failed +u o.timeout +u o.cancel) in
      let positive = f.less (f.of_uint64 0) term in
      let attempts = o.completed +u o.failed +u o.timeout in
      record {
        range = tr;
        by_type = o.by_type;
        success_rate = ratio_if f ch positive (f.of_uint64 o.completed) term;
        failure_rate = ratio_if f ch positive (f.of_uint64 o.failed) term;
        retry_rate =
            ratio_if f ch (ltb 0 attempts) (f.of_uint64 o.retry)
              (f.of_uint64 (attempts +u o.retry));
        timeout_rate = ratio_if f ch positive (f.of_uint64 o.timeout) term;
        cancel_rate = ratio_if f ch positive (f.of_uint64 o.cancel) term;
        series = [];
      }

  -- The first query's rows.Err() is not read.
  unfoldable pub failures : TimeRange → Asked → Asked → Result (FailureResult F)
  failures tr a b = fetch a (outcome_rows tr a) >>= λ got.
      fetch b (map failures_of (buckets ch.start_of_minute (rows_in tr b))) >>= λ series.
      unless_broken series.rows_error
        (record (rates_of tr (read_outcomes got.rows no_outcomes)) { series = series.rows })

  unfoldable pub scheduler_counts : TimeRange → Asked → Result (Map ℕ)
  scheduler_counts tr a =
      fetch a (type_counts (select (λ r. ch.is_scheduler r.event_type) (rows_in tr a))) >>= λ got.
      unless_broken got.rows_error (put_counts got.rows [])

-- ===== src/Analytics/Queries/Statistics.antt =====
-- internal/analytics/query.go: Latency, Workers, Queue and Capacity.
use chronos_dev.Common.{
  ℕ, ℤ, pos, negsuc, ◌-◌, ◌%◌, ◌^◌, String, Bool, not, ◌&&◌, List, [], ◌∷◌, ◌++◌, map, ◌==◌,
  if◌then◌else◌, leb_ℤ, ltb_ℤ, leb, ltb, take, select, length, total, Result, ok, err, ◌>>=◌,
}
use chronos_dev.Domain.Job.{Instant}
use chronos_dev.Analytics.Range.{TimeRange}
use chronos_dev.Analytics.Table.{EventRow}
use chronos_dev.Sql.{ordered, group_by}
use chronos_dev.Analytics.Queries.{
  Float64, ClickHouse, Asked, fetch, fetch_one, unless_broken, rows_in, of_type, count_if, ◌+u◌,
  by_time, buckets, clean_f,
}

-- Latency.

pub record LatencyPoint (F : Type 0) : Type 0 where
  pub bucket : Instant
  pub p50 : F
  pub p95 : F
  pub p99 : F
  pub count : ℕ

pub record LatencyRow (F : Type 0) : Type 0 where
  pub p50 : F
  pub p90 : F
  pub p95 : F
  pub p99 : F
  pub avg : F
  pub count : ℕ

pub record LatencyResult (F : Type 0) : Type 0 where
  pub range : TimeRange
  pub overall : LatencyRow F
  pub series : List (LatencyPoint F)

-- Workers.

pub record WorkerStats (F : Type 0) : Type 0 where
  pub worker_id : String
  pub completed : ℕ
  pub failed : ℕ
  pub avg_ms : F
  pub share : F

-- The answer has the list of statistics, which is null if there are no rows.
pub record WorkersResult (F : Type 0) : Type 0 where
  pub range : TimeRange
  pub workers : List (WorkerStats F)

unfoldable pub completed_total : {F : Type 0} → List (WorkerStats F) → ℕ → ℕ
completed_total [] n = n
completed_total (s ∷ rows) n = completed_total rows (n +u s.completed)

-- Queue.

pub record QueueResult (F : Type 0) : Type 0 where
  pub range : TimeRange
  pub avg_wait_ms : F
  pub p95_wait_ms : F
  pub queued : ℕ
  pub started : ℕ
  pub depth_estimate : F

-- The query of the waits, as avg, p95 and count().
pub record WaitRow (F : Type 0) : Type 0 where
  pub avg : F
  pub p95 : F
  pub count : ℕ

unfoldable pub earliest : Instant → List EventRow → Instant
earliest t [] = t
earliest t (r ∷ rows) = earliest (if ltb_ℤ r.event_time t then r.event_time else t) rows

-- min(event_time) of a group, which has a row.
abbrev pub min_time : List EventRow → Instant
min_time [] = pos 0
min_time (r ∷ rows) = earliest r.event_time rows

-- SELECT job_id, min(event_time) … WHERE event_type = … AND job_id != '' GROUP BY job_id
unfoldable pub first_times : String → List EventRow → List (String × Instant)
first_times event_type rows =
    map (λ g. (g.0, min_time g.1))
      (group_by ◌==◌ (λ r. r.job_id)
        (select (λ r. of_type event_type r && not (r.job_id == "")) rows))

-- The rows of `started` that the join finds for a job that was queued at `t`.
unfoldable pub joined : String → Instant → List (String × Instant) → List (Instant × Instant)
joined job_id t [] = []
joined job_id t (s ∷ started) =
    let rest = joined job_id t started in
    if s.0 == job_id && leb_ℤ t s.1 then (t, s.1) ∷ rest else rest

unfoldable pub waits : List (String × Instant) → List (String × Instant) → List (Instant × Instant)
waits [] started = []
waits (q ∷ queued) started = joined q.0 q.1 started ++ waits queued started

-- Capacity.

pub record CapacityResult (F : Type 0) : Type 0 where
  pub range : TimeRange
  pub completed : ℕ
  pub peak_per_minute : ℕ
  pub avg_per_minute : F
  pub active_workers_hint : ℤ
  pub recommended_workers : ℤ
  pub target_per_worker : F

pub record CapacityRow (F : Type 0) : Type 0 where
  pub sum : ℕ
  pub peak : ℕ
  pub avg : F

unfoldable pub largest : List ℕ → ℕ
largest [] = 0
largest (n ∷ ns) = let rest = largest ns in if leb rest n then n else rest

-- uniqExact(worker_id)
unfoldable pub active_workers : List EventRow → ℕ
active_workers rows = length (
    group_by ◌==◌ (λ r. r.worker_id)
      (select (λ r. not (r.worker_id == "") && of_type "JOB_COMPLETED" r) rows))

-- A conversion of uint64 to int.
abbrev pub int_of : ℕ → ℤ
int_of n = if ltb n (2 ^ 63) then pos n else negsuc (2 ^ 64 - n - 1)

-- A result of a query whose error is dropped.
abbrev pub or_else : {A : Type 0} → A → Result A → A
or_else a (ok b) = b
or_else a (err e) = a

module _ {F : Type 0} (f : Float64 F) (ch : ClickHouse F) where
  -- A row with a duration, which only payloads with `duration_ms` have.
  abbrev pub is_timed : EventRow → Bool
  is_timed r = of_type "JOB_COMPLETED" r && ltb 0 (ch.duration_ms r.payload)

  abbrev pub durations : List EventRow → List F
  durations = map (λ r. f.of_uint64 (ch.duration_ms r.payload))

  unfoldable pub latency_row : List EventRow → LatencyRow F
  latency_row rows = record {
    p50 = ch.quantile 500 (durations rows);
    p90 = ch.quantile 900 (durations rows);
    p95 = ch.quantile 950 (durations rows);
    p99 = ch.quantile 990 (durations rows);
    avg = ch.average (durations rows);
    count = length rows;
  }

  abbrev pub latency_point : Instant × List EventRow → LatencyPoint F
  latency_point g = record {
    bucket = g.0;
    p50 = ch.quantile 500 (durations g.1);
    p95 = ch.quantile 950 (durations g.1);
    p99 = ch.quantile 990 (durations g.1);
    count = length g.1;
  }

  unfoldable pub clean_row : LatencyRow F → LatencyRow F
  clean_row r = record {
    p50 = clean_f f ch r.p50;
    p90 = clean_f f ch r.p90;
    p95 = clean_f f ch r.p95;
    p99 = clean_f f ch r.p99;
    avg = clean_f f ch r.avg;
    count = r.count;
  }

  unfoldable pub clean_point : LatencyPoint F → LatencyPoint F
  clean_point p = record p {
    p50 = clean_f f ch p.p50;
    p95 = clean_f f ch p.p95;
    p99 = clean_f f ch p.p99;
  }

  unfoldable pub latency : TimeRange → Asked → Asked → Result (LatencyResult F)
  latency tr a b = fetch_one a (latency_row (select is_timed (rows_in tr a))) >>= λ row.
      fetch b (map latency_point (buckets ch.start_of_minute (select is_timed (rows_in tr b))))
      >>= λ got.
          unless_broken got.rows_error
            (record { range = tr; overall = clean_row row; series = map clean_point got.rows })

  abbrev pub stats_of : String × List EventRow → WorkerStats F
  stats_of g = record {
    worker_id = g.0;
    completed = count_if "JOB_COMPLETED" g.1;
    failed = count_if "JOB_FAILED" g.1;
    avg_ms = ch.average (durations (select is_timed g.1));
    share = f.of_uint64 0;
  }

  unfoldable pub worker_rows : TimeRange → Asked → List (WorkerStats F)
  worker_rows tr a = take 100 (
      ordered (λ s t. leb t.completed s.completed)
        (map stats_of (
          group_by ◌==◌ (λ r. r.worker_id) (select (λ r. not (r.worker_id == "")) (rows_in tr a)))))

  unfoldable pub with_share : ℕ → WorkerStats F → WorkerStats F
  with_share n s = record s {
    share = if ltb 0 n then f.over (f.of_uint64 s.completed) (f.of_uint64 n) else s.share;
  }

  unfoldable pub workers : TimeRange → Asked → Result (WorkersResult F)
  workers tr a = fetch a (worker_rows tr a) >>= λ got.
      unless_broken got.rows_error
        (record { range = tr; workers = map (with_share (completed_total got.rows 0)) got.rows })

  abbrev pub wait_row : List (Instant × Instant) → WaitRow F
  wait_row ws =
      let millis = map (λ w. ch.millis_between w.0 w.1) ws in
      record { avg = ch.average_int millis; p95 = ch.quantile_int 950 millis; count = length ws }

  abbrev pub no_waits : WaitRow F
  no_waits = record { avg = f.of_uint64 0; p95 = f.of_uint64 0; count = 0 }

  abbrev pub seen_counts : List EventRow → ℕ × ℕ
  seen_counts rows = (count_if "JOB_QUEUED" rows, count_if "JOB_STARTED" rows)

  unfoldable pub queue : TimeRange → Asked → Asked → Result (QueueResult F)
  queue tr a b =
      let rows = rows_in tr a in
      let found =
        wait_row (waits (first_times "JOB_QUEUED" rows) (first_times "JOB_STARTED" rows)) in
      let row = or_else no_waits (fetch_one a found) in
      let counts : ℕ × ℕ = or_else (0, row.count) (fetch_one b (seen_counts (rows_in tr b))) in
      ok (record {
        range = tr;
        avg_wait_ms = clean_f f ch row.avg;
        p95_wait_ms = clean_f f ch row.p95;
        queued = counts.0;
        started = counts.1;
        depth_estimate = f.or_zero (f.minus (f.of_uint64 counts.0) (f.of_uint64 counts.1));
      })

  -- The jobs that were completed in each minute that has an event.
  unfoldable pub per_minute : List EventRow → List ℕ
  per_minute rows = map (λ g. count_if "JOB_COMPLETED" g.1) (by_time ch.start_of_minute rows)

  abbrev pub capacity_row : List ℕ → CapacityRow F
  capacity_row ns = record {
    sum = total (λ n. n) ns % 2 ^ 64;
    peak = largest ns;
    avg = ch.average_int (map pos ns);
  }

  -- A target that is not positive is 30 jobs.
  abbrev pub target_or_default : F → F
  target_or_default target = if f.le target (f.of_uint64 0) then f.of_uint64 30 else target

  abbrev pub at_least_one : ℕ → ℤ → ℤ
  at_least_one peak n = if ltb_ℤ n (pos 1) && ltb 0 peak then pos 1 else n

  unfoldable pub recommended : ℕ → F → ℤ
  recommended peak target =
      if f.less (f.of_uint64 0) target
      then at_least_one peak (f.ceil_int (f.over (f.of_uint64 peak) target))
      else pos 0

  abbrev pub capacity_of : TimeRange → F → ℕ → CapacityRow F → CapacityResult F
  capacity_of tr goal active row = record {
    range = tr;
    completed = row.sum;
    peak_per_minute = row.peak;
    avg_per_minute = row.avg;
    active_workers_hint = int_of active;
    recommended_workers = recommended row.peak goal;
    target_per_worker = goal;
  }

  unfoldable pub capacity : TimeRange → F → Asked → Asked → Result (CapacityResult F)
  capacity tr target a b =
      let active = or_else 0 (fetch_one b (active_workers (rows_in tr b))) in
      fetch_one a (capacity_row (per_minute (rows_in tr a))) >>= λ row.
      ok (capacity_of tr (target_or_default target) active row)

-- ===== src/Analytics/Queries/Counts.antt =====
-- What Throughput counts.
use chronos_dev.Common.{
  ℕ, ◌+◌, ◌%◌, ◌^◌, ◌≤◌, ◌<◌, String, List, [], ◌∷◌, ◌++◌, map, ◌≡◌, refl, sym, ap, subst, ◌∙◌,
  arith, if◌then◌else◌, eqb_ℤ, leb_ℤ, total, total-map, count, ok,
}
use mathlib.Core.List.{append_assoc, append-nil}
use chronos_dev.Domain.Job.{Instant}
use chronos_dev.Analytics.Range.{TimeRange}
use chronos_dev.Analytics.Table.{EventRow}
use chronos_dev.Sql.Ordering.{IsOrdered, map-IsOrdered}
use chronos_dev.Analytics.Queries.{
  Float64, ClickHouse, Asked, rows_in, of_type, count_if, ◌+u◌, buckets, BucketCounts,
  ThroughputPoint, ThroughputResult, counts_of, throughput_rows, bucket_of, point_of, add_points,
  no_points, rated, throughput,
}
use chronos_dev.Analytics.Queries.Buckets.{
  IsSent, fetch-sent, buckets-IsOrdered, buckets-once, buckets-total, buckets-of,
}

abbrev pub one_if : String → EventRow → ℕ
one_if event_type r = if of_type event_type r then 1 else 0

module _ {F : Type 0} (f : Float64 F) (ch : ClickHouse F) (grain : String) where
  -- What is summed over the points for which a test holds is the number of rows of the type whose bucket is the
  -- one asked for.
  abbrev pub CountsEach :
      String → (ThroughputPoint F → ℕ) → List EventRow → List (ThroughputPoint F) → Type 0
  CountsEach event_type column rows points =
      (b : Instant)
      → total (λ p. if eqb_ℤ p.bucket b then column p else 0) points
        ≡ total
            (λ r. if eqb_ℤ (bucket_of f ch grain r.event_time) b then one_if event_type r else 0)
            rows

  -- The points, and the totals, that are right for these rows.
  pub record IsThroughput (rows : List EventRow) (out : ThroughputResult F) : Type 0 where
    pub ascending : IsOrdered (λ p q. leb_ℤ p.bucket q.bucket) out.points
    pub once : (b : Instant) → count (λ p. eqb_ℤ p.bucket b) out.points ≤ 1
    pub completed_each : CountsEach "JOB_COMPLETED" (λ p. p.completed) rows out.points
    pub failed_each : CountsEach "JOB_FAILED" (λ p. p.failed) rows out.points
    pub created_each : CountsEach "JOB_CREATED" (λ p. p.created) rows out.points
    pub completed_total : out.totals.completed ≡ count_if "JOB_COMPLETED" rows % 2 ^ 64
    pub failed_total : out.totals.failed ≡ count_if "JOB_FAILED" rows % 2 ^ 64
    pub created_total : out.totals.created ≡ count_if "JOB_CREATED" rows % 2 ^ 64

  add_points-points :
      (rows : List BucketCounts) (out : ThroughputResult F)
      → (add_points f ch grain rows out).points ≡ out.points ++ map (point_of f ch grain) rows
  unfolding add_points
  add_points-points [] out = sym (append-nil out.points)
  add_points-points (c ∷ rows) out =
      add_points-points rows _
      ∙ append_assoc out.points (point_of f ch grain c ∷ []) (map (point_of f ch grain) rows)

  -- A total of the loop, from one that is below 2^64.
  abbrev AddsTo : ℕ → (BucketCounts → ℕ) → List BucketCounts → ℕ → Type 0
  AddsTo old column rows new = old < 2 ^ 64 → new ≡ (old + total column rows) % 2 ^ 64

  add_points-totals :
      (rows : List BucketCounts) (out : ThroughputResult F)
      → let t = (add_points f ch grain rows out).totals in
        AddsTo out.totals.completed (λ c. c.completed) rows t.completed
        × AddsTo out.totals.failed (λ c. c.failed) rows t.failed
        × AddsTo out.totals.created (λ c. c.created) rows t.created
  unfolding add_points total ◌+u◌
  add_points-totals [] out = (λ h. omega (arith, h), λ h. omega (arith, h), λ h. omega (arith, h))
  add_points-totals (c ∷ rows) out =
      let (x, y, z) = add_points-totals rows _ in
      (
        λ h. x (omega arith) ∙ omega arith,
        λ h. y (omega arith) ∙ omega arith,
        λ h. z (omega arith) ∙ omega arith,
      )

  abbrev bucket_rows : List EventRow → List BucketCounts
  bucket_rows rows = map counts_of (buckets (bucket_of f ch grain) rows)

  -- What is summed over the points is summed over the groups.
  points-total :
      (w : ThroughputPoint F → ℕ) (rows : List EventRow)
      → total w (map (point_of f ch grain) (bucket_rows rows))
        ≡ total (λ g. w (point_of f ch grain (counts_of g))) (buckets (bucket_of f ch grain) rows)
  points-total w rows =
      total-map w (point_of f ch grain) (bucket_rows rows)
      ∙ total-map (λ c. w (point_of f ch grain c)) counts_of (buckets (bucket_of f ch grain) rows)

  rows-IsThroughput :
      (tr : TimeRange) (rows : List EventRow)
      → IsThroughput rows
          (rated f ch tr (add_points f ch grain (bucket_rows rows) (no_points f ch tr grain)))
  unfolding count_if
  rows-IsThroughput tr rows =
      let start = bucket_of f ch grain in
      let made = add_points-points (bucket_rows rows) (no_points f ch tr grain) in
      let (x, y, z) = add_points-totals (bucket_rows rows) (no_points f ch tr grain) in
      let summed = λ (column : BucketCounts → ℕ). total-map column counts_of (buckets start rows) in
      record {
        ascending =
            subst (λ ps. IsOrdered (λ p q. leb_ℤ p.bucket q.bucket) ps) (sym made)
              (map-IsOrdered _ (point_of f ch grain) (bucket_rows rows)
                (map-IsOrdered _ counts_of (buckets start rows) (buckets-IsOrdered start rows)));
        once = λ b.
            subst (λ n. n ≤ 1) (sym (ap (count _) made ∙ points-total _ rows))
              (buckets-once start b rows);
        completed_each = λ b.
            ap (total _) made
            ∙ points-total _ rows
            ∙ buckets-of start (one_if "JOB_COMPLETED") b rows;
        failed_each = λ b.
            ap (total _) made ∙ points-total _ rows ∙ buckets-of start (one_if "JOB_FAILED") b rows;
        created_each = λ b.
            ap (total _) made
            ∙ points-total _ rows
            ∙ buckets-of start (one_if "JOB_CREATED") b rows;
        completed_total = omega (
          arith,
          x (omega arith),
          summed (λ c. c.completed),
          buckets-total start (one_if "JOB_COMPLETED") rows,
        );
        failed_total = omega (
          arith,
          y (omega arith),
          summed (λ c. c.failed),
          buckets-total start (one_if "JOB_FAILED") rows,
        );
        created_total = omega (
          arith,
          z (omega arith),
          summed (λ c. c.created),
          buckets-total start (one_if "JOB_CREATED") rows,
        );
      }

-- If no query fails, Throughput answers, and its answer is right for the rows of the table that are in the range,
-- each identifier, type and time counted once: the points go up by their buckets, no bucket has two points, the
-- three counts of a bucket are the numbers of rows with that type and bucket, and the totals are the numbers of
-- rows with that type, kept to 64 bits.
pub throughput-exact :
    {F : Type 0} (f : Float64 F) (ch : ClickHouse F) (tr : TimeRange) (grain : String) (a : Asked)
    → IsSent a
    → (out : ThroughputResult F) × (throughput f ch tr grain a ≡ ok out)
      × IsThroughput f ch grain (rows_in tr a) out
unfolding throughput throughput_rows
throughput-exact f ch tr grain a sent = (
  _,
  rw (fetch-sent a (throughput_rows (bucket_of f ch grain) tr a) sent) refl,
  rows-IsThroughput f ch grain tr (rows_in tr a),
)

-- ===== src/Analytics/Queries/Clean.antt =====
-- Which numbers of an answer JSON can hold.
use chronos_dev.Common.{false, List, [], ◌∷◌, map, ◌≡◌, refl, inl, inr, Bool-cases, All, select, ok}
use chronos_dev.Analytics.Range.{TimeRange}
use chronos_dev.Analytics.Queries.{Float64, ClickHouse, Asked, rows_in, buckets, clean_f}
use chronos_dev.Analytics.Queries.Buckets.{IsSent, fetch-sent, fetch_one-sent}
use chronos_dev.Analytics.Queries.Statistics.{
  LatencyPoint, LatencyRow, LatencyResult, is_timed, latency_row, latency_point, clean_row,
  clean_point, latency,
}

module _ {F : Type 0} (f : Float64 F) (ch : ClickHouse F) where
  -- A number that is neither NaN nor infinite.
  pub record IsFinite (x : F) : Type 0 where
    pub number : f.is_nan x ≡ false
    pub bounded : f.is_inf x ≡ false

  pub clean_f-IsFinite : IsFinite (f.of_uint64 0) → (x : F) → IsFinite (clean_f f ch x)
  unfolding clean_f
  clean_f-IsFinite zero x = elim (Bool-cases (f.is_nan x)) [
    | inl e ↦ rw e zero
    | inr e ↦ elim (Bool-cases (f.is_inf x)) [
      | inl i ↦ rw (e, i) zero
      | inr i ↦ rw (e, i) (record { number = e; bounded = i })
    ]
  ]

  abbrev pub IsFinitePoint : LatencyPoint F → Type 0
  IsFinitePoint p = IsFinite p.p50 × IsFinite p.p95 × IsFinite p.p99

  pub record IsFiniteLatency (out : LatencyResult F) : Type 0 where
    pub p50 : IsFinite out.overall.p50
    pub p90 : IsFinite out.overall.p90
    pub p95 : IsFinite out.overall.p95
    pub p99 : IsFinite out.overall.p99
    pub avg : IsFinite out.overall.avg
    pub series : All IsFinitePoint out.series

  clean_points :
      IsFinite (f.of_uint64 0)
      → (ps : List (LatencyPoint F)) → All IsFinitePoint (map (clean_point f ch) ps)
  unfolding clean_point
  clean_points zero [] = tt
  clean_points zero (p ∷ ps) = (
    (clean_f-IsFinite zero p.p50, clean_f-IsFinite zero p.p95, clean_f-IsFinite zero p.p99),
    clean_points zero ps,
  )

  row-IsFinite :
      (zero : IsFinite (f.of_uint64 0)) (tr : TimeRange) (row : LatencyRow F)
      (ps : List (LatencyPoint F))
      → IsFiniteLatency
          (record { range = tr; overall = clean_row f ch row; series = map (clean_point f ch) ps })
  unfolding clean_row
  row-IsFinite zero tr row ps = record {
    p50 = clean_f-IsFinite zero row.p50;
    p90 = clean_f-IsFinite zero row.p90;
    p95 = clean_f-IsFinite zero row.p95;
    p99 = clean_f-IsFinite zero row.p99;
    avg = clean_f-IsFinite zero row.avg;
    series = clean_points zero ps;
  }

-- If zero is a finite number and no query fails, Latency answers, and each quantile and average of its answer,
-- those of the series too, is a finite number, whatever ClickHouse computes.
pub latency-IsFiniteLatency :
    {F : Type 0} (f : Float64 F) (ch : ClickHouse F) (tr : TimeRange) (a b : Asked)
    → IsFinite f ch (f.of_uint64 0)
    → IsSent a
    → IsSent b
    → (out : LatencyResult F) × (latency f ch tr a b ≡ ok out) × IsFiniteLatency f ch out
unfolding latency
latency-IsFiniteLatency f ch tr a b zero sent sent_too =
    let row = latency_row f ch (select (is_timed f ch) (rows_in tr a)) in
    let ps =
      map (latency_point f ch)
        (buckets ch.start_of_minute (select (is_timed f ch) (rows_in tr b))) in
    (
      record { range = tr; overall = clean_row f ch row; series = map (clean_point f ch) ps },
      rw (fetch_one-sent a row sent, fetch-sent b ps sent_too) refl,
      row-IsFinite f ch zero tr row ps,
    )

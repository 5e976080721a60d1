-- ===== src/Analytics/Queries/Findings.antt =====
-- What a query answers when there is nothing to average.
use chronos_dev.Common.{[], ◌≡◌, refl, ok}
use chronos_dev.Analytics.Range.{TimeRange}
use chronos_dev.Sql.{group_by, group_onto}
use chronos_dev.Analytics.Queries.{Float64, ClickHouse, Asked, fetch_one, rows_in}
use chronos_dev.Analytics.Queries.Buckets.{IsSent, fetch_one-sent}
use chronos_dev.Analytics.Queries.Statistics.{
  CapacityResult, per_minute, capacity_row, target_or_default, active_workers, or_else, capacity_of,
  capacity,
}

-- If the first query does not fail and the range has no rows, Capacity answers with the average of no numbers,
-- which is not replaced by zero.
pub capacity_of_nothing :
    {F : Type 0} (f : Float64 F) (ch : ClickHouse F) (tr : TimeRange) (target : F) (a b : Asked)
    → IsSent a
    → rows_in tr a ≡ []
    → (out : CapacityResult F) × (capacity f ch tr target a b ≡ ok out)
      × (out.avg_per_minute ≡ ch.average_int [])
unfolding capacity per_minute group_by group_onto
capacity_of_nothing f ch tr target a b sent empty =
    let goal = target_or_default f ch target in
    let active = or_else 0 (fetch_one b (active_workers (rows_in tr b))) in
    let row = capacity_row f ch (per_minute f ch (rows_in tr a)) in
    (capacity_of f ch tr goal active row, rw (fetch_one-sent a row sent) refl, rw empty refl)

-- ===== src/Analytics/Queries/Examples.antt =====
-- Queries of two events, one of which is done.
use chronos_dev.Common.{ℕ, ◌≡◌, refl, arith, ok}
use chronos_dev.Analytics.Queries.{rows_in, ThroughputResult, throughput}
use chronos_dev.Analytics.Queries.Buckets.{IsSent}
use chronos_dev.Analytics.Queries.Counts.{IsThroughput, throughput-exact}
use chronos_dev.Analytics.Queries.Outcomes.{FailureResult, failures}
use chronos_dev.Analytics.Queries.Rates.{IsFailures, failures-exact}
use chronos_dev.Analytics.Queries.Statistics.{CapacityResult, capacity, LatencyResult, latency}
use chronos_dev.Analytics.Queries.Capacity.{IsCapacity, capacity-exact}
use chronos_dev.Analytics.Queries.Clean.{IsFiniteLatency, latency-IsFiniteLatency}
use chronos_dev.Analytics.Queries.Alarms.{HasQuotients}
use chronos_dev.Analytics.Samples.{
  sample_range, sample_query, broken_query, coarse, sample_clickhouse,
}

sent : IsSent sample_query
sent = record { asked = refl; scanned = λ n. refl; whole = refl }

throughput-exact_example :
    (out : ThroughputResult ℕ) × (throughput coarse sample_clickhouse sample_range "hour"
        sample_query
      ≡ ok out)
    × IsThroughput coarse sample_clickhouse "hour" (rows_in sample_range sample_query) out
throughput-exact_example =
    throughput-exact coarse sample_clickhouse sample_range "hour" sample_query sent

failures-exact_example :
    (out : FailureResult ℕ) × (failures coarse sample_clickhouse sample_range sample_query
        sample_query
      ≡ ok out)
    × IsFailures coarse sample_clickhouse (rows_in sample_range sample_query) out
failures-exact_example =
    failures-exact coarse sample_clickhouse sample_range sample_query sample_query sent sent

capacity-exact_example :
    (out : CapacityResult ℕ) × (capacity coarse sample_clickhouse sample_range 2 sample_query
        broken_query
      ≡ ok out)
    × IsCapacity coarse sample_clickhouse (rows_in sample_range sample_query) out
capacity-exact_example =
    capacity-exact coarse sample_clickhouse sample_range 2 sample_query broken_query sent

latency-IsFiniteLatency_example :
    (out : LatencyResult ℕ) × (latency coarse sample_clickhouse sample_range sample_query
        sample_query
      ≡ ok out)
    × IsFiniteLatency coarse sample_clickhouse out
latency-IsFiniteLatency_example =
    latency-IsFiniteLatency coarse sample_clickhouse sample_range sample_query sample_query
      (record { number = refl; bounded = refl }) sent sent

coarse-HasQuotients : HasQuotients coarse
coarse-HasQuotients = record {
  self_rise = λ x n two p. ground (arith, two, p);
  self_drop = λ x n two p. ground (arith, two, p);
  nought = λ n two. ground (arith, two);
}

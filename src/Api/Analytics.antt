-- ===== src/Api/Analytics.antt =====
-- internal/api/analytics.go: the handlers of analytics. The querier, which asks ClickHouse, and the parsers of
-- texts are parameters.
use chronos_dev.Common.{
  ℕ, pos, ◌*◌, ◌*ℤ◌, ◌-ℤ◌, String, Option, none, some, ◌==◌, if◌then◌else◌, Result, ok, err, Error,
  failure,
}
use chronos_dev.Domain.Job.{Instant, Duration, second}
use chronos_dev.Analytics.Range.{TimeRange, parse_range}

-- analytics.Querier; `F` is float64, and `A` are the results.
pub record Querier (F A : Type 0) : Type 0 where
  pub throughput : TimeRange → String → Result A
  pub latency : TimeRange → Result A
  pub failures : TimeRange → Result A
  pub workers : TimeRange → Result A
  pub queue : TimeRange → Result A
  pub capacity : TimeRange → F → Result A
  pub anomalies : TimeRange → TimeRange → Result A
  pub scheduler : TimeRange → Result A

-- time.Parse, time.ParseDuration and strconv.ParseFloat, the number 30.0, and the clock.
pub record Parsers (F : Type 0) : Type 0 where
  pub time_of : String → Result Instant
  pub duration_of : String → Option Duration
  pub float_of : String → Option F
  pub thirty : F
  pub now : Instant

-- The parameters of a request, where a missing one is empty.
pub record Params : Type 0 where
  pub from : String
  pub to : String
  pub grain : String
  pub target_per_worker : String
  pub window : String

pub data AnalyticsBody (A : Type 0) : Type 0 where
  result : A → AnalyticsBody A
  problem : Error → AnalyticsBody A

pub record Reply (A : Type 0) : Type 0 where
  pub status : ℕ
  pub body : AnalyticsBody A

abbrev pub hours : ℕ → Duration
hours n = pos (n * 3600 * second)

abbrev pub or_default : {F : Type 0} → F → Option F → F
or_default default none = default
or_default default (some f) = f

-- The current window and the one before it.
pub record Windows : Type 0 where
  pub current : TimeRange
  pub baseline : TimeRange

unfoldable pub windows_at : Instant → Duration → Windows
windows_at now window = record {
  current = record { from = now -ℤ window; to = now };
  baseline = record { from = now -ℤ pos 2 *ℤ window; to = now -ℤ window };
}

unfoldable pub windows_of : TimeRange → Windows
windows_of tr = record {
  current = tr;
  baseline = record { from = tr.from -ℤ (tr.to -ℤ tr.from); to = tr.from };
}

abbrev pub windows_or : Windows → Result TimeRange → Windows
windows_or w (ok tr) = windows_of tr
windows_or w (err e) = w

unfoldable pub reply_with : {A : Type 0} → Result A → Reply A
reply_with (ok a) = record { status = 200; body = result a }
reply_with (err e) = record { status = 502; body = problem e }

abbrev pub unavailable_reply : {A : Type 0} → Reply A
unavailable_reply = record {
  status = 503;
  body = problem (failure "analytics unavailable (ClickHouse not configured)");
}

module _ {F : Type 0} (parsers : Parsers F) (params : Params) where
  unfoldable pub range_or : Duration → Result TimeRange
  range_or window = parse_range parsers.time_of parsers.now params.from params.to window

  unfoldable pub target_of : F
  target_of =
      if params.target_per_worker == ""
      then parsers.thirty
      else or_default parsers.thirty (parsers.float_of params.target_per_worker)

  unfoldable pub window_of : Duration
  window_of =
      if params.window == ""
      then pos (900 * second)
      else or_default (pos (900 * second)) (parsers.duration_of params.window)

  -- The windows of `analyticsAnomalies`; a range that cannot be parsed is passed over.
  unfoldable pub anomaly_windows : Windows
  anomaly_windows =
      if params.from == ""
      then windows_at parsers.now window_of
      else windows_or (windows_at parsers.now window_of) (range_or window_of)

module _ {F A : Type 0} where
  -- What the handlers share: the querier must be there, and the range must be one.
  unfoldable pub ask_range :
      Option (Querier F A) → Result TimeRange → (Querier F A → TimeRange → Result A) → Reply A
  ask_range none range ask = unavailable_reply
  ask_range (some q) (err e) ask = record { status = 400; body = problem e }
  ask_range (some q) (ok tr) ask = reply_with (ask q tr)

  module _ (parsers : Parsers F) (analytics : Option (Querier F A)) (params : Params) where
    unfoldable pub analytics_throughput : Reply A
    analytics_throughput =
        ask_range analytics (range_or parsers params (hours 1))
          (λ q tr. q.throughput tr (if params.grain == "" then "minute" else params.grain))

    unfoldable pub analytics_latency : Reply A
    analytics_latency =
        ask_range analytics (range_or parsers params (hours 1)) (λ q tr. q.latency tr)

    unfoldable pub analytics_failures : Reply A
    analytics_failures =
        ask_range analytics (range_or parsers params (hours 1)) (λ q tr. q.failures tr)

    unfoldable pub analytics_workers : Reply A
    analytics_workers =
        ask_range analytics (range_or parsers params (hours 1)) (λ q tr. q.workers tr)

    unfoldable pub analytics_queue : Reply A
    analytics_queue = ask_range analytics (range_or parsers params (hours 1)) (λ q tr. q.queue tr)

    unfoldable pub analytics_scheduler : Reply A
    analytics_scheduler =
        ask_range analytics (range_or parsers params (hours 24)) (λ q tr. q.scheduler tr)

    unfoldable pub analytics_capacity : Reply A
    analytics_capacity =
        ask_range analytics (range_or parsers params (hours 24))
          (λ q tr. q.capacity tr (target_of parsers params))

    unfoldable pub ask_anomalies : Option (Querier F A) → Reply A
    ask_anomalies none = unavailable_reply
    ask_anomalies (some q) = reply_with (
        q.anomalies (anomaly_windows parsers params).current
          (anomaly_windows parsers params).baseline)

    unfoldable pub analytics_anomalies : Reply A
    analytics_anomalies = ask_anomalies analytics

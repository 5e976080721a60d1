-- ===== src/Api/Ranges.antt =====
-- The ranges of time that the handlers of analytics ask for.
use chronos_dev.Common.{
  ℤ, pos, ◌+◌, ◌*◌, pos_part, neg_part, eq_of_parts, -ℤ_parts, ◌*ℤ◌, ◌-ℤ◌, ◌<ℤ◌, String, ◌==◌, some,
  ◌≡◌, refl, arith, Bool-cases, inl, inr, Result, ok, err,
}
use chronos_dev.Domain.Job.{Instant, Duration}
use chronos_dev.Analytics.Range.{TimeRange, parse_range, parse_range-lt}
use chronos_dev.Api.Analytics.{
  Querier, Parsers, Params, Windows, windows_at, windows_of, windows_or, ask_range, range_or,
  window_of, target_of, anomaly_windows, analytics_throughput, analytics_latency,
  analytics_failures, analytics_workers, analytics_queue, analytics_scheduler, analytics_capacity,
}

-- Two queriers that answer alike on the ranges whose end is after their start.
pub record Alike {F A : Type 0} (q r : Querier F A) : Type 0 where
  pub throughput :
      (tr : TimeRange) (g : String) → tr.from <ℤ tr.to → q.throughput tr g ≡ r.throughput tr g
  pub latency : (tr : TimeRange) → tr.from <ℤ tr.to → q.latency tr ≡ r.latency tr
  pub failures : (tr : TimeRange) → tr.from <ℤ tr.to → q.failures tr ≡ r.failures tr
  pub workers : (tr : TimeRange) → tr.from <ℤ tr.to → q.workers tr ≡ r.workers tr
  pub queue : (tr : TimeRange) → tr.from <ℤ tr.to → q.queue tr ≡ r.queue tr
  pub scheduler : (tr : TimeRange) → tr.from <ℤ tr.to → q.scheduler tr ≡ r.scheduler tr
  pub capacity : (tr : TimeRange) (f : F) → tr.from <ℤ tr.to → q.capacity tr f ≡ r.capacity tr f

module _ {F A : Type 0} (q r : Querier F A) where
  ask_alike :
      (range : Result TimeRange) (ask : Querier F A → TimeRange → Result A)
      → ((tr : TimeRange) → range ≡ ok tr → ask q tr ≡ ask r tr)
      → ask_range (some q) range ask ≡ ask_range (some r) range ask
  unfolding ask_range
  ask_alike (err e) ask h = refl
  ask_alike (ok tr) ask h = rw (h tr refl) refl

-- But for anomalies, what a handler of analytics replies does not depend on what the querier would answer to
-- a range whose end is not after its start: no such range is asked for.
pub only_forward_asked :
    {F A : Type 0} (q r : Querier F A) (parsers : Parsers F) (params : Params)
    → Alike q r
    → (analytics_throughput parsers (some q) params ≡ analytics_throughput parsers (some r) params)
      × (analytics_latency parsers (some q) params ≡ analytics_latency parsers (some r) params)
      × (analytics_failures parsers (some q) params ≡ analytics_failures parsers (some r) params)
      × (analytics_workers parsers (some q) params ≡ analytics_workers parsers (some r) params)
      × (analytics_queue parsers (some q) params ≡ analytics_queue parsers (some r) params)
      × (analytics_scheduler parsers (some q) params ≡ analytics_scheduler parsers (some r) params)
      × (analytics_capacity parsers (some q) params ≡ analytics_capacity parsers (some r) params)
unfolding analytics_throughput analytics_latency analytics_failures analytics_workers
    analytics_queue analytics_scheduler analytics_capacity range_or target_of
only_forward_asked q r parsers params alike = (
  ask_alike q r _ _ (λ tr h. alike.throughput tr _ (ends tr _ h)),
  ask_alike q r _ _ (λ tr h. alike.latency tr (ends tr _ h)),
  ask_alike q r _ _ (λ tr h. alike.failures tr (ends tr _ h)),
  ask_alike q r _ _ (λ tr h. alike.workers tr (ends tr _ h)),
  ask_alike q r _ _ (λ tr h. alike.queue tr (ends tr _ h)),
  ask_alike q r _ _ (λ tr h. alike.scheduler tr (ends tr _ h)),
  ask_alike q r _ _ (λ tr h. alike.capacity tr _ (ends tr _ h)),
)
  where
    ends :
        (range : TimeRange) (window : Duration)
        → parse_range parsers.time_of parsers.now params.from params.to window ≡ ok range
        → range.from <ℤ range.to
    ends range window =
        parse_range-lt parsers.time_of parsers.now params.from params.to window range

-- The windows are of one length, one right before the other.
abbrev pub AreNext : Windows → Type 0
AreNext w =
    (w.baseline.to ≡ w.current.from)
    × (w.baseline.to -ℤ w.baseline.from ≡ w.current.to -ℤ w.current.from)

double_parts :
    (w : ℤ) → pos_part (pos 2 *ℤ w) + 2 * neg_part w ≡ neg_part (pos 2 *ℤ w) + 2 * pos_part w
unfolding ◌*ℤ◌
double_parts w = ground arith

windows_at-AreNext : (now : Instant) (window : Duration) → AreNext (windows_at now window)
unfolding windows_at
windows_at-AreNext now window =
    let start = now -ℤ window in
    let before = now -ℤ pos 2 *ℤ window in
    (
      refl,
      eq_of_parts (start -ℤ before) (now -ℤ start) (
          omega (
            arith,
            double_parts window,
            -ℤ_parts now window,
            -ℤ_parts now (pos 2 *ℤ window),
            -ℤ_parts start before,
            -ℤ_parts now start,
          )),
    )

windows_of-AreNext : (tr : TimeRange) → AreNext (windows_of tr)
unfolding windows_of
windows_of-AreNext tr =
    let span = tr.to -ℤ tr.from in
    let before = tr.from -ℤ span in
    (
      refl,
      eq_of_parts (tr.from -ℤ before) span
          (omega (arith, -ℤ_parts tr.to tr.from, -ℤ_parts tr.from span, -ℤ_parts tr.from before)),
    )

windows_or-AreNext :
    (now : Instant) (window : Duration) (range : Result TimeRange)
    → AreNext (windows_or (windows_at now window) range)
windows_or-AreNext now window (ok tr) = windows_of-AreNext tr
windows_or-AreNext now window (err e) = windows_at-AreNext now window

module _ (now : Instant) (window : Duration) (longer : pos 0 <ℤ window) where
  windows_at-lt : (windows_at now window).current.from <ℤ (windows_at now window).current.to
  unfolding windows_at
  windows_at-lt = omega (arith, longer, -ℤ_parts now window)

  windows_or-lt :
      (range : Result TimeRange)
      → ((tr : TimeRange) → range ≡ ok tr → tr.from <ℤ tr.to)
      → let w = windows_or (windows_at now window) range in w.current.from <ℤ w.current.to
  unfolding windows_of
  windows_or-lt (ok tr) h = h tr refl
  windows_or-lt (err e) h = windows_at-lt

-- The windows that are compared for anomalies are of one length, and the baseline ends where the current window
-- begins. The current window ends after it begins if the length that the request names is positive.
pub anomaly_windows-AreNext :
    {F : Type 0} (parsers : Parsers F) (params : Params)
    → let w = anomaly_windows parsers params in
      AreNext w × (pos 0 <ℤ window_of parsers params → w.current.from <ℤ w.current.to)
unfolding anomaly_windows range_or
anomaly_windows-AreNext parsers params =
    let window = window_of parsers params in
    elim (Bool-cases (params.from == "")) [
      | inl e ↦
          rw e (windows_at-AreNext parsers.now window, λ h. windows_at-lt parsers.now window h)
      | inr e ↦ rw e (
        windows_or-AreNext parsers.now window (range_or parsers params window),
        λ h.
            windows_or-lt parsers.now window h _
              (λ tr. parse_range-lt parsers.time_of parsers.now params.from params.to window tr),
      )
    ]

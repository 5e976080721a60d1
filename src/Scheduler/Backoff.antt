-- ===== src/Scheduler/Backoff.antt =====
-- internal/scheduler/scheduler.go: `computeBackoff`.
use chronos_dev.Common.{
  ℤ, pos, ◌-ℤ◌, false, ◌&&◌, ◌==◌, if◌then◌else◌, leb_ℤ, ltb_ℤ, ◌≤ℤ◌, ◌<ℤ◌, ◌≡◌, ◌≢◌, eq_iff, arith,
}
use chronos_dev.Domain.Job.{RetryPolicy, Duration, Float64, second}
use chronos_dev.Scheduler.State.{Floats}

-- The bit patterns of 0.5, 1 and 2.
abbrev half : Float64
half = 0x3FE0000000000000

abbrev one : Float64
one = 0x3FF0000000000000

abbrev two : Float64
two = 0x4000000000000000

-- The delay before it is capped.
unfoldable pub uncapped : Floats → RetryPolicy → ℤ → Duration
unfolding ◌-ℤ◌
uncapped fl p attempt =
    let base = if leb_ℤ p.initial_delay (pos 0) then pos second else p.initial_delay in
    let mult = if fl.less p.multiplier one then two else p.multiplier in
    if p.backoff_strategy == "exponential"
    then fl.to_int (fl.mul (fl.of_int base) (fl.pow mult (fl.of_int (attempt -ℤ pos 1))))
    else base

unfoldable pub compute_backoff : Floats → Float64 → RetryPolicy → ℤ → Duration
compute_backoff fl draw p attempt =
    let delay = uncapped fl p attempt in
    let capped =
      if ltb_ℤ (pos 0) p.max_delay && ltb_ℤ p.max_delay delay then p.max_delay else delay in
    if p.jitter then fl.to_int (fl.mul (fl.of_int capped) (fl.add half draw)) else capped

-- Without jitter a delay is at most the maximum, if one is set, whatever the strategy, the attempt
-- and the arithmetic of floats.
pub compute_backoff-le-max_delay :
    (fl : Floats) (draw : Float64) (p : RetryPolicy) (attempt : ℤ)
    → p.jitter ≡ false
    → pos 0 <ℤ p.max_delay
    → compute_backoff fl draw p attempt ≤ℤ p.max_delay
unfolding compute_backoff
compute_backoff-le-max_delay fl draw p attempt plain bounded = ground arith

-- With the fixed strategy the delay does not depend on the attempt: it is the initial delay (one second
-- if that is not positive), cut down to the maximum if one is set.
pub compute_backoff_fixed :
    (fl : Floats) (draw : Float64) (p : RetryPolicy) (attempt : ℤ)
    → p.jitter ≡ false
    → p.backoff_strategy ≢ "exponential"
    → let base = if leb_ℤ p.initial_delay (pos 0) then pos second else p.initial_delay in
      compute_backoff fl draw p attempt ≡ (
        if ltb_ℤ (pos 0) p.max_delay
        then (if ltb_ℤ p.max_delay base then p.max_delay else base)
        else base)
unfolding compute_backoff uncapped
compute_backoff_fixed fl draw p attempt plain fixed =
    ground (arith, eq_iff p.backoff_strategy "exponential")

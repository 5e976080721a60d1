-- ===== src/Domain/Schedule.antt =====
-- internal/domain/schedule.go. The time zone database and the cron library are parameters.
use chronos_dev.Common.{
  pos, String, Option, none, some, ◌==◌, ◌≡◌, ◌⊎◌, ◌+ℤ◌, ◌<ℤ◌, leb_ℤ, if◌then◌else◌, Result, ok,
  err, Error, failure, wrapped,
}
use chronos_dev.Domain.Job.{
  Instant, Schedule, schedule_immediate, schedule_delayed, schedule_one_time, schedule_recurring,
  zero_time,
}

-- time.LoadLocation by name and cron's Parse by expression, each with its error if it has one, and
-- the fire time that cron's Next gives for an expression, a zone and an instant, in UTC.
pub record Cron : Type 0 where
  pub load_location : String → Option Error
  pub parse : String → Option Error
  pub next : String → String → Instant → Instant

-- What cron documents of Next: a later instant, or the zero time if none can be found.
abbrev pub FiresLater : Cron → Type 0
FiresLater c =
    (expr zone : String) (from : Instant)
    → (from <ℤ c.next expr zone from) ⊎ (c.next expr zone from ≡ zero_time)

abbrev fail_on : {A : Type 0} → String → Option Error → Result A → Result A
fail_on text none rest = rest
fail_on text (some e) rest = err (wrapped text e)

abbrev run_at_of : String → Option Instant → Result Instant
run_at_of text none = err (failure text)
run_at_of text (some t) = ok t

next_recurring : Cron → Schedule → Instant → Result Instant
next_recurring c s from =
    if s.cron_expr == ""
    then err (failure "cron_expr required for recurring")
    else fail_on "timezone" (if s.timezone == "" then none else c.load_location s.timezone) (
        fail_on "cron_expr" (c.parse s.cron_expr)
          (ok (c.next s.cron_expr (if s.timezone == "" then "UTC" else s.timezone) from)))

unfoldable pub next_run_at : Cron → Schedule → Instant → Result Instant
unfolding next_recurring
next_run_at c s from =
    if s.schedule_type == schedule_immediate
    then ok from
    else if s.schedule_type == schedule_delayed
    then ok (from +ℤ (if leb_ℤ s.delay (pos 0) then pos 0 else s.delay))
    else if s.schedule_type == schedule_one_time
    then run_at_of "run_at required" s.run_at
    else if s.schedule_type == schedule_recurring
    then next_recurring c s from
    else err (wrapped "unknown schedule type" (failure s.schedule_type))

abbrev error_of : {A : Type 0} → Result A → Option Error
error_of (ok a) = none
error_of (err e) = some e

-- The error of a schedule that is refused.
unfoldable pub validate_schedule : Cron → Instant → Schedule → Option Error
validate_schedule c now s =
    if s.schedule_type == ""
    then none
    else if s.schedule_type == schedule_immediate
    then none
    else if s.schedule_type == schedule_delayed
    then none
    else if s.schedule_type == schedule_one_time
    then error_of (run_at_of "run_at required for one_time" s.run_at)
    else if s.schedule_type == schedule_recurring
    then (if s.cron_expr == ""
        then some (failure "cron_expr required for recurring")
        else error_of (next_run_at c s now))
    else some (wrapped "unknown schedule type" (failure s.schedule_type))

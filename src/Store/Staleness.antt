-- ===== src/Store/Staleness.antt =====
-- When a worker is marked as suspected or unavailable, in terms of its last heartbeat.
use chronos_dev.Common.{
  ℤ, pos, String, ◌||◌, some, ◌≡◌, ◌⊎◌, ◌<ℤ◌, ◌≤ℤ◌, ◌+ℤ◌, ◌-ℤ◌, +ℤ_parts, -ℤ_parts, if◌then◌else◌,
  lookup, lookup-map_values, Visit, arith, ltb_ℤ,
}
use chronos_dev.Domain.Job.{Instant, Duration}
use chronos_dev.Domain.Worker.{Worker, is_healthy, is_suspected, suspected, unavailable}
use chronos_dev.Store.State.{Store}
use chronos_dev.Store.Fleet.{mark_stale, becomes_unavailable, becomes_suspected, mark_stale_workers}

-- What the sweep owes a worker, by the age of its heartbeat: within the timeout, older by no more than
-- the grace, or older still.
abbrev pub Swept : Instant → Duration → Duration → Worker → Worker → Type 0
Swept now timeout grace w v =
    ((now ≤ℤ (w.last_heartbeat +ℤ timeout)) × (v ≡ w))
    ⊎ ((w.last_heartbeat +ℤ timeout <ℤ now)
        × (now ≤ℤ (w.last_heartbeat +ℤ (timeout +ℤ grace)))
        × (v ≡ (if is_healthy w.status then record w { status = suspected } else w)))
    ⊎ ((w.last_heartbeat +ℤ (timeout +ℤ grace) <ℤ now)
        × (v ≡ (
            if is_healthy w.status || is_suspected w.status
            then record w { status = unavailable }
            else w)))

before_sub : (h now d : ℤ) → ltb_ℤ h (now -ℤ d) ≡ ltb_ℤ (h +ℤ d) now
before_sub h now d = ground (arith, +ℤ_parts h d, -ℤ_parts now d)

mark_stale-Swept :
    (now : Instant) (timeout grace : Duration) (w : Worker)
    → pos 0 ≤ℤ grace
    → Swept now timeout grace w (mark_stale (now -ℤ (timeout +ℤ grace)) (now -ℤ timeout) w)
unfolding mark_stale becomes_unavailable becomes_suspected
mark_stale-Swept now timeout grace w nonneg = ground (
  arith,
  before_sub w.last_heartbeat now (timeout +ℤ grace),
  before_sub w.last_heartbeat now timeout,
  +ℤ_parts w.last_heartbeat timeout,
  +ℤ_parts w.last_heartbeat (timeout +ℤ grace),
  +ℤ_parts timeout grace,
)

-- A sweep leaves a worker whose heartbeat is within the timeout as it was, suspects a healthy one
-- whose heartbeat is older by no more than the grace, and makes a healthy or suspected one
-- unavailable once the grace is over too. The grace must not be negative.
pub mark_stale_workers-Swept :
    (visit : Visit Worker) (now : Instant) (timeout grace : Duration) (s : Store) (id : String)
    (w : Worker)
    → pos 0 ≤ℤ grace
    → lookup id s.workers ≡ some w
    → (v : Worker) × (lookup id (mark_stale_workers visit now timeout grace s).store.workers
        ≡ some v)
      × Swept now timeout grace w v
unfolding mark_stale_workers
mark_stale_workers-Swept visit now timeout grace s id w nonneg h = (
  mark_stale (now -ℤ (timeout +ℤ grace)) (now -ℤ timeout) w,
  rw (lookup-map_values (mark_stale (now -ℤ (timeout +ℤ grace)) (now -ℤ timeout)) id s.workers, h),
  mark_stale-Swept now timeout grace w nonneg,
)

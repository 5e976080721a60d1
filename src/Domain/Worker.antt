-- ===== src/Domain/Worker.antt =====
-- internal/domain/worker.go.
use chronos_dev.Common.{ℤ, pos, String, Bool, true, false, ◌&&◌, Map, ◌-ℤ◌, ltb_ℤ, if◌then◌else◌}
use chronos_dev.Domain.Job.{Instant}

-- `unset` is the empty text that a worker has before it is registered.
pub data WorkerStatus : Type 0 where
  healthy suspected unavailable draining unset : WorkerStatus

abbrev pub is_healthy : WorkerStatus → Bool
is_healthy healthy = true
is_healthy _ = false

abbrev pub is_suspected : WorkerStatus → Bool
is_suspected suspected = true
is_suspected _ = false

pub record WorkerCapabilities : Type 0 where
  pub builtin : Bool
  pub webhook : Bool

pub record Worker : Type 0 where
  pub id : String
  pub address : String
  pub status : WorkerStatus
  pub capacity : ℤ
  pub active_jobs : ℤ
  pub capabilities : WorkerCapabilities
  pub labels : Map String
  pub last_heartbeat : Instant
  pub registered_at : Instant
  pub metadata : Map String

unfoldable pub available_slots : Worker → ℤ
unfolding ◌-ℤ◌
available_slots w =
    let slots = w.capacity -ℤ w.active_jobs in if ltb_ℤ slots (pos 0) then pos 0 else slots

unfoldable pub is_assignable : Worker → Bool
unfolding available_slots
is_assignable w = is_healthy w.status && ltb_ℤ (pos 0) (available_slots w)

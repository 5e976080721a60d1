-- ===== src/Store.antt =====
-- internal/store/memory: the job store that is kept in memory. Each method is one critical section of
-- the store's lock. Jobs are copied in and out (`cloneJob`), so a job that was read is a plain value.
pub mod State
pub mod Jobs
pub mod Listing
pub mod Fleet
pub mod Outbox
pub mod Update
pub mod Idempotency
pub mod Limits
pub mod Staleness
pub mod Publication
mod Examples

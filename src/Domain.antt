-- ===== src/Domain.antt =====
-- internal/domain: the data that the components exchange. Durations are integers of nanoseconds, and
-- an instant is the nanoseconds since Go's zero `time.Time`; int64 overflow is not modelled.
pub mod Job
pub mod Schedule
pub mod Worker
pub mod Event
pub mod Samples

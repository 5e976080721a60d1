-- ===== src/Analytics.antt =====
-- internal/analytics: what is computed outside of ClickHouse. `Ingest` is the consumer of events.
pub mod Ingest
pub mod Range
pub mod Table
pub mod Schema
pub mod Queries
pub mod Samples

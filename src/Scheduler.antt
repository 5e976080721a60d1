-- ===== src/Scheduler.antt =====
-- internal/scheduler: the control plane. Its state is the service of `State`; each method of the
-- source is a function on that state. State, Backoff, Assign, Report, Fleet, Cancel, Recovery, Tick and
-- Grpc hold the methods; the others are about them.
pub mod State
pub mod Backoff
pub mod Assign
pub mod Report
pub mod Fleet
pub mod Cancel
pub mod Recovery
pub mod Tick
pub mod Writes
pub mod Grpc
pub mod Gate
pub mod Ending
pub mod Verdict
pub mod Handout
pub mod Delivery
pub mod Choice
pub mod Requests
pub mod Finality
pub mod Survival
pub mod Permanence
mod Examples
mod TickExamples

-- ===== src/Run.antt =====
-- crates/o7-run: the canonical run-event protocol, the pure reducer and independent replay.
pub mod Ids
pub mod Contract
pub mod Event
pub mod State
pub mod Errors
pub mod Encoding
pub mod Admission
pub mod Verdicts
pub mod Handlers
pub mod Reduce
pub mod Steps
pub mod Streams
pub mod Artifacts
pub mod Candidate
pub mod Replay
mod Examples

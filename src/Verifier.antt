-- ===== src/Verifier.antt =====
-- crates/o7-verifier: bounded verification, what is trusted and what is accepted.
pub mod Command
pub mod Trust
pub mod Evidence
pub mod Verdicts
mod Examples

-- ===== src/Ledger.antt =====
-- crates/o7-ledger: the durable ledger of conversations, runs, attempts, events and commands.
pub mod Models
pub mod Errors
pub mod Transitions
pub mod Tables
pub mod Idempotency
pub mod Events
pub mod Runs
pub mod Attempts
pub mod Recovery
pub mod Messages
pub mod Commands
pub mod Queries
pub mod Machine
pub mod Log
pub mod Steps
pub mod Refinement
pub mod Operations
pub mod Invariants
pub mod Statuses
pub mod Replays
pub mod Revival
pub mod Claims
pub mod Reads
mod Examples

-- ===== src/Ledger/Errors.antt =====
-- crates/o7-ledger/src/lib.rs: `LedgerError`. A message is told by what it is about.
use model_lib.Prelude.{Text}
use model_lib.Ledger.Models.{RunStatus, AttemptStatus}

pub data Entity : Type 0 where
  conversation run attempt event command : Entity

-- `sqlite` is a statement that a constraint of the schema refused.
pub data LedgerError : Type 0 where
  sqlite json : LedgerError
  idempotency_conflict : Text → Text → LedgerError
  forbidden_run : RunStatus → RunStatus → LedgerError
  forbidden_attempt : AttemptStatus → AttemptStatus → LedgerError
  not_found : Entity → Text → LedgerError
  invalid_state : Text → LedgerError
  integrity : Text → LedgerError
  stale_parent command_conflict continuation_not_permitted : Text → LedgerError

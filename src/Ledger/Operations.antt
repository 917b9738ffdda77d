-- ===== src/Ledger/Operations.antt =====
-- crates/o7-ledger/src/sqlite.rs: the operations of `SqliteLedger` that may write, each one
-- transaction, and a history of them.
use model_lib.Prelude.{
  ℕ, Option, none, some, List, [], ◌∷◌, Text, Bytes, codes, Result, ok, err, ◌>>=◌,
}
use model_lib.Run.Ids.{RunId, Sha256, of_bytes}
use model_lib.Ledger.Models.{
  ConversationId, AttemptId, CommandId, Millis, RunStatus, AttemptStatus, EventType, CommandStatus,
  Payload, NewEvent, NewRun, NewCommand, RecoveryState,
}
use model_lib.Ledger.Errors.{LedgerError}
use model_lib.Ledger.Tables.{Db}
use model_lib.Ledger.Idempotency.{
  Request, request_digest, scope_create_run, scope_create_run_with_id,
}
use model_lib.Ledger.Events.{Supply, with_tx, emit_event}
use model_lib.Ledger.Runs.{
  create_conversation_tx, create_run_inner, set_run_status_tx, set_provider_session_tx,
}
use model_lib.Ledger.Attempts.{create_attempt_tx, set_attempt_status_tx}
use model_lib.Ledger.Recovery.{
  mark_interrupted_tx, resume_interrupted_run_tx, repair_interrupted_run_to_terminal_tx,
}
use model_lib.Ledger.Messages.{append_user_message_tx, append_system_note_tx}
use model_lib.Ledger.Commands.{
  create_command_tx, bind_command_child_run_tx, set_command_status_tx, rebind_command_child_run_tx,
  claim_stale_command_for_redrive_tx, reconcile_completed_commands_tx,
}
use model_lib.Ledger.Commands.Outcomes.{
  rebind_command_child_run_if_current_tx, mark_command_completed_if_bound_tx,
  mark_command_completed_if_bound_and_terminal_tx, mark_command_rejected_if_unattached_and_bound_tx,
}

-- A call of an operation. An idempotency key is optional where it is in the source.
pub data Op : Type 0 where
  create_conversation : Supply → Option Text → Op
  create_run : Supply → NewRun → Option Text → Op
  create_run_with_id : Supply → NewRun → RunId → Text → Op
  start_run complete_run fail_run cancel_run interrupt_run block_run error_run : Supply → RunId → Op
  create_attempt : Supply → RunId → Op
  set_attempt_status : Supply → AttemptId → AttemptStatus → Op
  resume_interrupted_run : Supply → RunId → Op
  repair_interrupted_run_to_terminal : Supply → RunId → RunStatus → Op
  create_command : Supply → NewCommand → Text → Op
  bind_command_child_run rebind_command_child_run : Supply → CommandId → RunId → Op
  mark_command_completed mark_command_rejected : Supply → CommandId → Op
  claim_stale_command_for_redrive : Supply → CommandId → Millis → Op
  rebind_command_child_run_if_current : Supply → CommandId → RunId → Millis → RunId → Op
  mark_command_completed_if_bound : Supply → CommandId → RunId → Op
  mark_command_completed_if_bound_and_terminal : Supply → CommandId → RunId → Op
  mark_command_rejected_if_unattached_and_bound : Supply → CommandId → RunId → Op
  reconcile_completed_commands : Supply → Op
  set_run_provider_session : RunId → Text → Op
  append_user_message : Supply → ConversationId → Payload → Option RunId → Option Text → Op
  append_system_note :
      Supply → ConversationId → Option RunId → Option AttemptId → Payload → Text → Op
  append_event : Supply → NewEvent → Op
  mark_interrupted : (ℕ → Supply) → (ℕ → Supply) → RecoveryState → Op

-- An operation without its value.
unfoldable pub forget {ℓ} :
    {A : Type ℓ} → Result LedgerError (A × Db) → Result LedgerError (Unit {0} × Db)
forget (ok r) = ok (tt, r.1)
forget (err e) = err e

module _ (sha : Sha256) (to_vec : Request → Option Bytes) where
  -- The body of an operation, its digest first.
  unfoldable pub transaction : Op → Db → Result LedgerError (Unit {0} × Db)
  unfolding forget request_digest codes
  transaction (Op.create_conversation supply key) db =
      forget (create_conversation_tx supply key (of_bytes sha (codes "create-conversation:v1")) db)
  transaction (Op.create_run supply request key) db = do
    digest ← request_digest sha to_vec (Request.create_run request)
    forget (create_run_inner supply request none scope_create_run key digest db)
  transaction (Op.create_run_with_id supply request id key) db = do
    digest ← request_digest sha to_vec (Request.create_run_with_id request id)
    forget (create_run_inner supply request (some id) scope_create_run_with_id (some key) digest db)
  transaction (Op.start_run supply id) db =
      forget (set_run_status_tx supply id RunStatus.running EventType.run_started db)
  transaction (Op.complete_run supply id) db =
      forget (set_run_status_tx supply id RunStatus.completed EventType.run_completed db)
  transaction (Op.fail_run supply id) db =
      forget (set_run_status_tx supply id RunStatus.failed EventType.run_failed db)
  transaction (Op.cancel_run supply id) db =
      forget (set_run_status_tx supply id RunStatus.cancelled EventType.run_cancelled db)
  transaction (Op.interrupt_run supply id) db =
      forget (set_run_status_tx supply id RunStatus.interrupted EventType.run_interrupted db)
  transaction (Op.block_run supply id) db =
      forget (set_run_status_tx supply id RunStatus.blocked EventType.run_blocked db)
  transaction (Op.error_run supply id) db =
      forget (set_run_status_tx supply id RunStatus.error EventType.run_errored db)
  transaction (Op.create_attempt supply id) db = forget (create_attempt_tx supply id db)
  transaction (Op.set_attempt_status supply id target) db =
      forget (set_attempt_status_tx supply id target db)
  transaction (Op.resume_interrupted_run supply id) db =
      forget (resume_interrupted_run_tx supply id db)
  transaction (Op.repair_interrupted_run_to_terminal supply id target) db =
      forget (repair_interrupted_run_to_terminal_tx supply id target db)
  transaction (Op.create_command supply request key) db = do
    digest ← request_digest sha to_vec (Request.create_command request)
    forget (create_command_tx supply request key digest db)
  transaction (Op.bind_command_child_run supply id run) db =
      forget (bind_command_child_run_tx supply id run db)
  transaction (Op.rebind_command_child_run supply id run) db =
      forget (rebind_command_child_run_tx supply id run db)
  transaction (Op.mark_command_completed supply id) db =
      forget (set_command_status_tx supply id CommandStatus.completed db)
  transaction (Op.mark_command_rejected supply id) db =
      forget (set_command_status_tx supply id CommandStatus.rejected db)
  transaction (Op.claim_stale_command_for_redrive supply id expected) db =
      forget (claim_stale_command_for_redrive_tx supply id expected db)
  transaction (Op.rebind_command_child_run_if_current supply id old expected run) db =
      forget (rebind_command_child_run_if_current_tx supply id old expected run db)
  transaction (Op.mark_command_completed_if_bound supply id run) db =
      forget (mark_command_completed_if_bound_tx supply id run db)
  transaction (Op.mark_command_completed_if_bound_and_terminal supply id run) db =
      forget (mark_command_completed_if_bound_and_terminal_tx supply id run db)
  transaction (Op.mark_command_rejected_if_unattached_and_bound supply id run) db =
      forget (mark_command_rejected_if_unattached_and_bound_tx supply id run db)
  transaction (Op.reconcile_completed_commands supply) db =
      forget (reconcile_completed_commands_tx supply db)
  transaction (Op.set_run_provider_session id session) db =
      forget (set_provider_session_tx id session db)
  transaction (Op.append_user_message supply conversation payload run key) db = do
    digest ← request_digest sha to_vec (Request.user_message conversation run payload)
    forget (append_user_message_tx supply conversation payload run key digest db)
  transaction (Op.append_system_note supply conversation run attempt payload key) db = do
    digest ← request_digest sha to_vec (Request.system_note conversation run attempt payload)
    forget (append_system_note_tx supply conversation run attempt payload key digest db)
  transaction (Op.append_event supply event) db = forget (emit_event db event supply.now)
  transaction (Op.mark_interrupted supply later state) db =
      forget (mark_interrupted_tx supply later state db)

  unfoldable pub perform : Op → Db → Result LedgerError (Unit {0}) × Db
  unfolding transaction with_tx
  perform op db = with_tx (transaction op) db

  -- A history of calls: those that fail leave the ledger to the next.
  unfoldable pub perform_all : List Op → Db → Db
  unfolding perform
  perform_all [] db = db
  perform_all (op ∷ ops) db = perform_all ops (perform op db).1

-- ===== src/Ledger/Messages.antt =====
-- crates/o7-ledger/src/sqlite.rs: messages and notes, events that a caller adds.
use model_lib.Prelude.{Option, none, some, Text, text_eq, Result, ok, ◌>>=◌}
use model_lib.Run.Ids.{RunId}
use model_lib.Ledger.Models.{
  ConversationId, AttemptId, EventType, Payload, NewEvent, PersistedEvent,
}
use model_lib.Ledger.Errors.{Entity, LedgerError}
use model_lib.Ledger.Tables.{Db, load_event}
use model_lib.Ledger.Idempotency.{
  scope_append_user_message, scope_append_system_note, check_optional, record_optional, replay_or,
}
use model_lib.Ledger.Events.{Supply, event_schema_version, emit_event, read_back}

-- `append_user_message` and `append_system_note` from the event on.
unfoldable pub message :
    Supply → ConversationId → Option RunId → Option AttemptId → EventType → Payload → NewEvent
message supply conversation run attempt event_type payload = record {
  event_id = supply.event_id;
  conversation_id = conversation;
  run_id = run;
  attempt_id = attempt;
  event_type = event_type;
  schema_version = event_schema_version;
  payload = payload;
}

unfoldable pub add_message :
    Db → Supply → NewEvent → Text → Option Text → Text → Result LedgerError (PersistedEvent × Db)
unfolding record_optional
add_message db supply event scope key request_digest = do
  (stored, db1) ← emit_event db event supply.now
  db2 ← record_optional db1 scope key request_digest stored.event_id supply.now
  ok (stored, db2)

unfoldable pub append_message_tx :
    Supply → NewEvent → Text → Option Text → Text → Db → Result LedgerError (PersistedEvent × Db)
unfolding add_message check_optional
append_message_tx supply event scope key request_digest db = do
  outcome ← check_optional db scope key request_digest
  replay_or outcome
      (λ reference.
        read_back db (load_event db reference) (LedgerError.not_found Entity.event reference))
      (add_message db supply event scope key request_digest)

unfoldable pub append_user_message_tx :
    Supply
    → ConversationId
    → Payload
    → Option RunId
    → Option Text
    → Text
    → Db
    → Result LedgerError (PersistedEvent × Db)
unfolding append_message_tx message
append_user_message_tx supply conversation payload run key request_digest =
    append_message_tx supply (message supply conversation run none EventType.user_message payload)
      scope_append_user_message key request_digest

-- The key of a note is mandatory.
unfoldable pub append_system_note_tx :
    Supply
    → ConversationId
    → Option RunId
    → Option AttemptId
    → Payload
    → Text
    → Text
    → Db
    → Result LedgerError (PersistedEvent × Db)
unfolding append_message_tx message
append_system_note_tx supply conversation run attempt payload key request_digest =
    append_message_tx supply (message supply conversation run attempt EventType.system_note payload)
      scope_append_system_note (some key) request_digest

-- ===== src/Ledger/Events.antt =====
-- crates/o7-ledger/src/sqlite.rs: a transaction, and `emit_event`, the one way to add an event.
use model_lib.Prelude.{
  ℕ, suc, Option, none, some, Text, text_eq, ◌==◌, leb, Result, ok, err, reject, ◌>>◌, ◌>>=◌,
}
use model_lib.Run.Ids.{RunId}
use model_lib.Ledger.Models.{
  ConversationId, EventId, Millis, EventType, event_as_str, Payload, NewEvent, PersistedEvent,
}
use model_lib.Ledger.Errors.{LedgerError}
use model_lib.Ledger.Tables.{Db, max_where, max_i64, insert_event}

-- What a transaction takes from outside it: `now_millis()`, and the ids that it generates.
pub record Supply : Type 0 where
  pub now : Millis
  pub fresh_id : Text
  pub event_id : EventId

-- `with_tx`: a transaction that failed is rolled back.
unfoldable pub with_tx {ℓ} :
    {A : Type ℓ} → (Db → Result LedgerError (A × Db)) → Db → Result LedgerError A × Db
with_tx work db = elim (work db) [ ok r ↦ (ok r.0, r.1) | err e ↦ (err e, db) ]

-- `.ok_or_else(|| ..)`
unfoldable pub or_else {ℓ} : {A : Type ℓ} → Option A → LedgerError → Result LedgerError A
or_else none e = err e
or_else (some a) e = ok a

abbrev pub event_schema_version : ℕ
event_schema_version = 1

unfoldable pub last_sequence : Db → ConversationId → ℕ
last_sequence db id = max_where (λ e. e.conversation_id == id) (λ e. e.sequence) db.events

unfoldable pub numbered : NewEvent → ℕ → Millis → PersistedEvent
numbered event sequence created_at = record {
  event_id = event.event_id;
  conversation_id = event.conversation_id;
  run_id = event.run_id;
  attempt_id = event.attempt_id;
  sequence = sequence;
  event_type = event_as_str event.event_type;
  schema_version = event.schema_version;
  created_at = created_at;
  payload = event.payload;
}

unfoldable pub emit_event : Db → NewEvent → Millis → Result LedgerError (PersistedEvent × Db)
unfolding last_sequence numbered
emit_event db event created_at =
    let max = last_sequence db event.conversation_id in
    let stored = numbered event (suc max) created_at in
    do
      reject (leb max_i64 max) (LedgerError.integrity event.conversation_id)
      db1 ← insert_event db stored
      ok (stored, db1)

-- An event of a run that the ledger writes itself.
unfoldable pub run_event : EventId → ConversationId → RunId → EventType → Payload → NewEvent
run_event id conversation run event_type payload = record {
  event_id = id;
  conversation_id = conversation;
  run_id = some run;
  attempt_id = none;
  event_type = event_type;
  schema_version = event_schema_version;
  payload = payload;
}

-- The row that an operation ends by reading, with the database as it is.
unfoldable pub read_back {ℓ} :
    {A : Type ℓ} → Db → Option A → LedgerError → Result LedgerError (A × Db)
read_back db none e = err e
read_back db (some a) e = ok (a, db)

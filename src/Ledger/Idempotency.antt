-- ===== src/Ledger/Idempotency.antt =====
-- crates/o7-ledger/src/idempotency.rs: a key of a scope is bound to the digest of its first request.
use model_lib.Prelude.{
  ◌&&◌, Option, none, some, Text, Bytes, codes, text_eq, ◌==◌, find, if◌then◌else◌, Result, ok, err,
}
use model_lib.Run.Ids.{RunId, Sha256, of_bytes}
use model_lib.Ledger.Models.{
  ConversationId, AttemptId, Millis, Payload, NewRun, NewCommand, IdempotencyRecord,
}
use model_lib.Ledger.Errors.{LedgerError}
use model_lib.Ledger.Tables.{Db, insert_idempotency}

unfoldable pub scope_create_conversation : Text
unfolding codes
scope_create_conversation = codes "create-conversation"

unfoldable pub scope_create_run : Text
unfolding codes
scope_create_run = codes "create-run"

unfoldable pub scope_append_user_message : Text
unfolding codes
scope_append_user_message = codes "append-user-message"

unfoldable pub scope_append_system_note : Text
unfolding codes
scope_append_system_note = codes "append-system-note"

unfoldable pub scope_create_run_with_id : Text
unfolding codes
scope_create_run_with_id = codes "create-run-with-id"

unfoldable pub scope_create_command : Text
unfolding codes
scope_create_command = codes "create-command"

-- A request, as the operations give it to `serde_json::to_vec`.
pub data Request : Type 0 where
  create_run : NewRun → Request
  create_run_with_id : NewRun → RunId → Request
  create_command : NewCommand → Request
  user_message : ConversationId → Option RunId → Payload → Request
  system_note : ConversationId → Option RunId → Option AttemptId → Payload → Request

pub data IdemOutcome : Type 0 where
  fresh : IdemOutcome
  replayed : Text → IdemOutcome

unfoldable pub find_record : Db → Text → Text → Option IdempotencyRecord
find_record db scope key = find (λ i. i.scope == scope && i.key == key) db.idempotency

unfoldable pub check : Db → Text → Text → Text → Result LedgerError IdemOutcome
unfolding find_record
check db scope key request_digest = elim (find_record db scope key) [
  | none ↦ ok IdemOutcome.fresh
  | some r ↦
      if r.request_digest == request_digest
      then ok (IdemOutcome.replayed r.result_reference)
      else err (LedgerError.idempotency_conflict scope key)
]

unfoldable pub record_key : Db → Text → Text → Text → Text → Millis → Result LedgerError Db
unfolding insert_idempotency
record_key db scope key request_digest result_reference now = insert_idempotency db (record {
  scope = scope;
  key = key;
  request_digest = request_digest;
  result_reference = result_reference;
  created_at = now;
})

-- `if let Some(idem) = &idempotency { idempotency::check(..)? }`
unfoldable pub check_optional : Db → Text → Option Text → Text → Result LedgerError IdemOutcome
unfolding check
check_optional db scope none request_digest = ok IdemOutcome.fresh
check_optional db scope (some key) request_digest = check db scope key request_digest

unfoldable pub record_optional :
    Db → Text → Option Text → Text → Text → Millis → Result LedgerError Db
unfolding record_key
record_optional db scope none request_digest result_reference now = ok db
record_optional db scope (some key) request_digest result_reference now =
    record_key db scope key request_digest result_reference now

-- The digest of a request. SHA-256 and the JSON of a request are those of other crates.
module _ (sha : Sha256) (to_vec : Request → Option Bytes) where
  unfoldable pub request_digest : Request → Result LedgerError Text
  request_digest request = elim (to_vec request) [
    | none ↦ err LedgerError.json
    | some bytes ↦ ok (of_bytes sha bytes)
  ]

-- `if let IdemOutcome::Replayed(reference) = .. { return .. }` before the rest of an operation.
unfoldable pub replay_or {ℓ} :
    {B : Type ℓ}
    → IdemOutcome
    → (Text → Result LedgerError B)
    → Result LedgerError B
    → Result LedgerError B
replay_or IdemOutcome.fresh replay rest = rest
replay_or (IdemOutcome.replayed reference) replay rest = replay reference

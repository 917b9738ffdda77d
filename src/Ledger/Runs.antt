-- ===== src/Ledger/Runs.antt =====
-- crates/o7-ledger/src/sqlite.rs: the operations on conversations, runs and messages, as the body
-- of their transaction.
use model_lib.Prelude.{
  Bool, ◌&&◌, ◌||◌, Option, none, some, List, Text, text_eq, ◌==◌, if◌then◌else◌, Result, ok, ◌>>◌,
  ◌>>=◌,
}
use model_lib.Run.Ids.{RunId}
use model_lib.Ledger.Models.{
  Millis, ConversationStatus, RunStatus, is_terminal, AttemptStatus, EventType, Conversation,
  RunRow, RunAttempt, Payload, NewEvent, NewRun,
}
use model_lib.Ledger.Errors.{Entity, LedgerError}
use model_lib.Ledger.Transitions.{validate_run_transition}
use model_lib.Ledger.Tables.{
  Db, update_where, is_interrupted, attempt_is_running, load_conversation, load_run,
  insert_conversation, insert_run,
}
use model_lib.Ledger.Idempotency.{
  scope_create_conversation, check_optional, record_optional, replay_or,
}
use model_lib.Ledger.Events.{
  Supply, or_else, event_schema_version, emit_event, run_event, read_back,
}

-- `?` on the lookup of a row.
unfoldable pub require_run : Db → RunId → Result LedgerError RunRow
unfolding load_run or_else
require_run db id = or_else (load_run db id) (LedgerError.not_found Entity.run id)

unfoldable pub new_conversation : Supply → Conversation
new_conversation supply = record {
  conversation_id = supply.fresh_id;
  created_at = supply.now;
  status = ConversationStatus.open_;
}

unfoldable pub conversation_event : Supply → NewEvent
conversation_event supply = record {
  event_id = supply.event_id;
  conversation_id = supply.fresh_id;
  run_id = none;
  attempt_id = none;
  event_type = EventType.conversation_created;
  schema_version = event_schema_version;
  payload = Payload.empty;
}

-- The row, the event and the key of a new conversation.
unfoldable pub add_conversation :
    Db → Supply → Text → Option Text → Result LedgerError (Conversation × Db)
unfolding new_conversation conversation_event record_optional
add_conversation db supply request_digest key = do
  db1 ← insert_conversation db (new_conversation supply)
  (event, db2) ← emit_event db1 (conversation_event supply) supply.now
  db3 ← record_optional db2 scope_create_conversation key request_digest supply.fresh_id supply.now
  ok (new_conversation supply, db3)

unfoldable pub create_conversation_tx :
    Supply → Option Text → Text → Db → Result LedgerError (Conversation × Db)
unfolding add_conversation
create_conversation_tx supply key request_digest db = do
  outcome ← check_optional db scope_create_conversation key request_digest
  replay_or outcome
      (λ reference.
        read_back db (load_conversation db reference)
          (LedgerError.not_found Entity.conversation reference))
      (add_conversation db supply request_digest key)

unfoldable pub new_run : Supply → NewRun → RunId → RunRow
new_run supply request id = record {
  run_id = id;
  conversation_id = request.conversation_id;
  parent_run_id = request.parent_run_id;
  agent = request.agent;
  role = request.role;
  status = RunStatus.queued;
  created_at = supply.now;
  finished_at = none;
  provider_session_id = none;
}

-- The row, the event and the key of a new run.
unfoldable pub add_run :
    Db → Supply → NewRun → RunId → Text → Option Text → Text → Result LedgerError (RunRow × Db)
unfolding new_run record_optional
add_run db supply request run_id scope key request_digest = do
  db1 ← insert_run db (new_run supply request run_id)
  (event, db2) ←
      emit_event db1
        (run_event supply.event_id request.conversation_id run_id EventType.run_created
          (Payload.agent_role request.agent request.role))
        supply.now
  db3 ← record_optional db2 scope key request_digest run_id supply.now
  ok (new_run supply request run_id, db3)

-- `run_id.clone().unwrap_or_else(RunId::generate)`
unfoldable pub chosen_id : Option RunId → Supply → RunId
chosen_id none supply = supply.fresh_id
chosen_id (some id) supply = id

unfoldable pub create_run_inner :
    Supply
    → NewRun
    → Option RunId
    → Text
    → Option Text
    → Text
    → Db
    → Result LedgerError (RunRow × Db)
unfolding add_run chosen_id
create_run_inner supply request run_id scope key request_digest db = do
  outcome ← check_optional db scope key request_digest
  replay_or outcome
      (λ reference.
        read_back db (load_run db reference) (LedgerError.not_found Entity.run reference))
      (add_run db supply request (chosen_id run_id supply) scope key request_digest)

-- `terminal_attempt_status`, what becomes of the running attempt of a run that goes to a status.
unfoldable pub terminal_attempt_status : RunStatus → AttemptStatus
terminal_attempt_status RunStatus.completed = AttemptStatus.completed
terminal_attempt_status RunStatus.failed = AttemptStatus.failed
terminal_attempt_status RunStatus.cancelled = AttemptStatus.cancelled
terminal_attempt_status RunStatus.interrupted = AttemptStatus.interrupted
terminal_attempt_status RunStatus.blocked = AttemptStatus.blocked
terminal_attempt_status RunStatus.error = AttemptStatus.error
terminal_attempt_status RunStatus.queued = AttemptStatus.completed
terminal_attempt_status RunStatus.running = AttemptStatus.completed

-- `UPDATE run SET status = ?1, finished_at = ?2 WHERE run_id = ?3`
unfoldable pub with_status : RunStatus → Option Millis → RunId → List RunRow → List RunRow
with_status target finished id =
    update_where (λ r. r.run_id == id) (λ r. record r { status = target; finished_at = finished })

-- `UPDATE run_attempt SET status = ?1, finished_at = ?2 WHERE run_id = ?3 AND status = 'running'`
unfoldable pub close_attempts : AttemptStatus → Millis → RunId → List RunAttempt → List RunAttempt
close_attempts target now id =
    update_where (λ a. a.run_id == id && attempt_is_running a.status)
      (λ a. record a { status = target; finished_at = some now })

-- A run leaving `running` finishes its running attempt.
unfoldable pub leaves_running : RunStatus → Bool
unfolding is_terminal is_interrupted
leaves_running target = is_terminal target || is_interrupted target

unfoldable pub set_run_status_tx :
    Supply → RunId → RunStatus → EventType → Db → Result LedgerError (RunRow × Db)
unfolding with_status close_attempts leaves_running
set_run_status_tx supply id target event_type db = do
  current ← require_run db id
  validate_run_transition current.status target
  let finished = if is_terminal target then some supply.now else none
  let runs = with_status target finished id db.runs
  let attempts =
      if leaves_running target
      then close_attempts (terminal_attempt_status target) supply.now id db.attempts
      else db.attempts
  (event, db2) ←
      emit_event (record db { runs = runs; attempts = attempts })
        (run_event supply.event_id current.conversation_id id event_type Payload.empty) supply.now
  read_back db2 (load_run db2 id) (LedgerError.not_found Entity.run id)

unfoldable pub set_provider_session_tx : RunId → Text → Db → Result LedgerError (RunRow × Db)
set_provider_session_tx id session db = do
  current ← require_run db id
  let db1 = record db {
    runs =
        update_where (λ r. r.run_id == id) (λ r. record r { provider_session_id = some session })
          db.runs;
  }
  read_back db1 (load_run db1 id) (LedgerError.not_found Entity.run id)

-- ===== src/Ledger/Models.antt =====
-- crates/o7-ledger/src/models.rs and ids.rs: statuses, their texts in the database, and the rows.
-- An id is an opaque text; a time is in milliseconds and, as `now_millis` gives it, not negative.
use model_lib.Prelude.{
  ℕ, Bool, true, false, Option, none, some, List, Text, codes, text_eq, ◌==◌, if◌then◌else◌,
}
use model_lib.Run.Ids.{RunId}

abbrev pub ConversationId : Type 0
ConversationId = Text

abbrev pub AttemptId : Type 0
AttemptId = Text

abbrev pub EventId : Type 0
EventId = Text

abbrev pub CommandId : Type 0
CommandId = Text

abbrev pub Millis : Type 0
Millis = ℕ

pub data ConversationStatus : Type 0 where
  open_ closed : ConversationStatus

unfoldable pub conversation_as_str : ConversationStatus → Text
unfolding codes
conversation_as_str ConversationStatus.open_ = codes "open"
conversation_as_str ConversationStatus.closed = codes "closed"

unfoldable pub conversation_parse : Text → Option ConversationStatus
unfolding codes
conversation_parse s =
    if s == codes "open"
    then some ConversationStatus.open_
    else if s == codes "closed"
    then some ConversationStatus.closed
    else none

pub data RunStatus : Type 0 where
  queued running completed failed cancelled interrupted blocked error : RunStatus

unfoldable pub run_as_str : RunStatus → Text
unfolding codes
run_as_str RunStatus.queued = codes "queued"
run_as_str RunStatus.running = codes "running"
run_as_str RunStatus.completed = codes "completed"
run_as_str RunStatus.failed = codes "failed"
run_as_str RunStatus.cancelled = codes "cancelled"
run_as_str RunStatus.interrupted = codes "interrupted"
run_as_str RunStatus.blocked = codes "blocked"
run_as_str RunStatus.error = codes "error"

unfoldable pub run_parse : Text → Option RunStatus
unfolding codes
run_parse s =
    if s == codes "queued"
    then some RunStatus.queued
    else if s == codes "running"
    then some RunStatus.running
    else if s == codes "completed"
    then some RunStatus.completed
    else if s == codes "failed"
    then some RunStatus.failed
    else if s == codes "cancelled"
    then some RunStatus.cancelled
    else if s == codes "interrupted"
    then some RunStatus.interrupted
    else if s == codes "blocked"
    then some RunStatus.blocked
    else if s == codes "error"
    then some RunStatus.error
    else none

unfoldable pub is_terminal : RunStatus → Bool
is_terminal RunStatus.queued = false
is_terminal RunStatus.running = false
is_terminal RunStatus.completed = true
is_terminal RunStatus.failed = true
is_terminal RunStatus.cancelled = true
is_terminal RunStatus.interrupted = false
is_terminal RunStatus.blocked = true
is_terminal RunStatus.error = true

pub data AttemptStatus : Type 0 where
  running completed failed cancelled interrupted blocked error : AttemptStatus

unfoldable pub attempt_as_str : AttemptStatus → Text
unfolding codes
attempt_as_str AttemptStatus.running = codes "running"
attempt_as_str AttemptStatus.completed = codes "completed"
attempt_as_str AttemptStatus.failed = codes "failed"
attempt_as_str AttemptStatus.cancelled = codes "cancelled"
attempt_as_str AttemptStatus.interrupted = codes "interrupted"
attempt_as_str AttemptStatus.blocked = codes "blocked"
attempt_as_str AttemptStatus.error = codes "error"

unfoldable pub attempt_parse : Text → Option AttemptStatus
unfolding codes
attempt_parse s =
    if s == codes "running"
    then some AttemptStatus.running
    else if s == codes "completed"
    then some AttemptStatus.completed
    else if s == codes "failed"
    then some AttemptStatus.failed
    else if s == codes "cancelled"
    then some AttemptStatus.cancelled
    else if s == codes "interrupted"
    then some AttemptStatus.interrupted
    else if s == codes "blocked"
    then some AttemptStatus.blocked
    else if s == codes "error"
    then some AttemptStatus.error
    else none

pub data EventType : Type 0 where
  conversation_created run_created run_started run_completed run_failed run_cancelled : EventType
  run_interrupted run_blocked run_errored user_message system_note : EventType

unfoldable pub event_as_str : EventType → Text
unfolding codes
event_as_str EventType.conversation_created = codes "conversation.created"
event_as_str EventType.run_created = codes "run.created"
event_as_str EventType.run_started = codes "run.started"
event_as_str EventType.run_completed = codes "run.completed"
event_as_str EventType.run_failed = codes "run.failed"
event_as_str EventType.run_cancelled = codes "run.cancelled"
event_as_str EventType.run_interrupted = codes "run.interrupted"
event_as_str EventType.run_blocked = codes "run.blocked"
event_as_str EventType.run_errored = codes "run.errored"
event_as_str EventType.user_message = codes "user.message"
event_as_str EventType.system_note = codes "system.note"

unfoldable pub event_parse : Text → Option EventType
unfolding codes
event_parse s =
    if s == codes "conversation.created"
    then some EventType.conversation_created
    else if s == codes "run.created"
    then some EventType.run_created
    else if s == codes "run.started"
    then some EventType.run_started
    else if s == codes "run.completed"
    then some EventType.run_completed
    else if s == codes "run.failed"
    then some EventType.run_failed
    else if s == codes "run.cancelled"
    then some EventType.run_cancelled
    else if s == codes "run.interrupted"
    then some EventType.run_interrupted
    else if s == codes "run.blocked"
    then some EventType.run_blocked
    else if s == codes "run.errored"
    then some EventType.run_errored
    else if s == codes "user.message"
    then some EventType.user_message
    else if s == codes "system.note"
    then some EventType.system_note
    else none

pub data CommandStatus : Type 0 where
  accepted started completed rejected : CommandStatus

unfoldable pub command_as_str : CommandStatus → Text
unfolding codes
command_as_str CommandStatus.accepted = codes "accepted"
command_as_str CommandStatus.started = codes "started"
command_as_str CommandStatus.completed = codes "completed"
command_as_str CommandStatus.rejected = codes "rejected"

unfoldable pub command_parse : Text → Option CommandStatus
unfolding codes
command_parse s =
    if s == codes "accepted"
    then some CommandStatus.accepted
    else if s == codes "started"
    then some CommandStatus.started
    else if s == codes "completed"
    then some CommandStatus.completed
    else if s == codes "rejected"
    then some CommandStatus.rejected
    else none

pub record Conversation : Type 0 where
  pub conversation_id : ConversationId
  pub created_at : Millis
  pub status : ConversationStatus

-- The ledger's row of a run.
pub record RunRow : Type 0 where
  pub run_id : RunId
  pub conversation_id : ConversationId
  pub parent_run_id : Option RunId
  pub agent : Text
  pub role : Text
  pub status : RunStatus
  pub created_at : Millis
  pub finished_at : Option Millis
  pub provider_session_id : Option Text

pub record RunAttempt : Type 0 where
  pub attempt_id : AttemptId
  pub run_id : RunId
  pub attempt_number : ℕ
  pub status : AttemptStatus
  pub started_at : Millis
  pub finished_at : Option Millis

pub record Command : Type 0 where
  pub command_id : CommandId
  pub conversation_id : ConversationId
  pub parent_run_id : RunId
  pub command_text : Text
  pub status : CommandStatus
  pub child_run_id : Option RunId
  pub created_at : Millis
  pub updated_at : Millis

-- The JSON values that the ledger itself writes, and a value that a caller gives as its text.
pub data Payload : Type 0 where
  empty resumed repaired recovery : Payload
  agent_role : Text → Text → Payload
  given : Text → Payload

pub record NewEvent : Type 0 where
  pub event_id : EventId
  pub conversation_id : ConversationId
  pub run_id : Option RunId
  pub attempt_id : Option AttemptId
  pub event_type : EventType
  pub schema_version : ℕ
  pub payload : Payload

pub record PersistedEvent : Type 0 where
  pub event_id : EventId
  pub conversation_id : ConversationId
  pub run_id : Option RunId
  pub attempt_id : Option AttemptId
  pub sequence : ℕ
  pub event_type : Text
  pub schema_version : ℕ
  pub created_at : Millis
  pub payload : Payload

pub record NewRun : Type 0 where
  pub conversation_id : ConversationId
  pub parent_run_id : Option RunId
  pub agent : Text
  pub role : Text

pub record NewCommand : Type 0 where
  pub conversation_id : ConversationId
  pub parent_run_id : RunId
  pub command_text : Text

pub record IdempotencyRecord : Type 0 where
  pub scope : Text
  pub key : Text
  pub request_digest : Text
  pub result_reference : Text
  pub created_at : Millis

pub record RecoveryState : Type 0 where
  pub interrupted_runs : List RunId
  pub interrupted_attempts : List AttemptId

pub data RebindOutcome : Type 0 where
  rebound lost_race not_eligible : Command → RebindOutcome
  not_found : RebindOutcome

pub data RejectionOutcome : Type 0 where
  rejected not_eligible : Command → RejectionOutcome
  not_found : RejectionOutcome

pub data CompletionOutcome : Type 0 where
  completed not_bound : Command → CompletionOutcome
  not_found : CompletionOutcome

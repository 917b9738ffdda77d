-- ===== src/Ledger/Statuses.antt =====
-- crates/o7-ledger/src/models.rs: the texts of the statuses in the database are read back.
use model_lib.Prelude.{◌≡◌, refl, some, text_beq, codes}
use model_lib.Ledger.Models.{
  ConversationStatus, RunStatus, AttemptStatus, EventType, CommandStatus, conversation_as_str,
  conversation_parse, run_as_str, run_parse, attempt_as_str, attempt_parse, event_as_str,
  event_parse, command_as_str, command_parse,
}

conversation_parse-as_str :
    (s : ConversationStatus) → conversation_parse (conversation_as_str s) ≡ some s
unfolding conversation_parse conversation_as_str text_beq codes
conversation_parse-as_str ConversationStatus.open_ = refl
conversation_parse-as_str ConversationStatus.closed = refl

pub run_parse-as_str : (s : RunStatus) → run_parse (run_as_str s) ≡ some s
unfolding run_parse run_as_str text_beq codes
run_parse-as_str RunStatus.queued = refl
run_parse-as_str RunStatus.running = refl
run_parse-as_str RunStatus.completed = refl
run_parse-as_str RunStatus.failed = refl
run_parse-as_str RunStatus.cancelled = refl
run_parse-as_str RunStatus.interrupted = refl
run_parse-as_str RunStatus.blocked = refl
run_parse-as_str RunStatus.error = refl

attempt_parse-as_str : (s : AttemptStatus) → attempt_parse (attempt_as_str s) ≡ some s
unfolding attempt_parse attempt_as_str text_beq codes
attempt_parse-as_str AttemptStatus.running = refl
attempt_parse-as_str AttemptStatus.completed = refl
attempt_parse-as_str AttemptStatus.failed = refl
attempt_parse-as_str AttemptStatus.cancelled = refl
attempt_parse-as_str AttemptStatus.interrupted = refl
attempt_parse-as_str AttemptStatus.blocked = refl
attempt_parse-as_str AttemptStatus.error = refl

event_parse-as_str : (s : EventType) → event_parse (event_as_str s) ≡ some s
unfolding event_parse event_as_str text_beq codes
event_parse-as_str EventType.conversation_created = refl
event_parse-as_str EventType.run_created = refl
event_parse-as_str EventType.run_started = refl
event_parse-as_str EventType.run_completed = refl
event_parse-as_str EventType.run_failed = refl
event_parse-as_str EventType.run_cancelled = refl
event_parse-as_str EventType.run_interrupted = refl
event_parse-as_str EventType.run_blocked = refl
event_parse-as_str EventType.run_errored = refl
event_parse-as_str EventType.user_message = refl
event_parse-as_str EventType.system_note = refl

command_parse-as_str : (s : CommandStatus) → command_parse (command_as_str s) ≡ some s
unfolding command_parse command_as_str text_beq codes
command_parse-as_str CommandStatus.accepted = refl
command_parse-as_str CommandStatus.started = refl
command_parse-as_str CommandStatus.completed = refl
command_parse-as_str CommandStatus.rejected = refl

-- Every status and event type that the ledger writes to the database is read back as itself: the
-- five kinds, each over all its values.
pub parse-as_str :
    ((s : ConversationStatus) → conversation_parse (conversation_as_str s) ≡ some s)
    × ((s : RunStatus) → run_parse (run_as_str s) ≡ some s)
    × ((s : AttemptStatus) → attempt_parse (attempt_as_str s) ≡ some s)
    × ((e : EventType) → event_parse (event_as_str e) ≡ some e)
    × ((s : CommandStatus) → command_parse (command_as_str s) ≡ some s)
parse-as_str = (
  conversation_parse-as_str, run_parse-as_str, attempt_parse-as_str, event_parse-as_str,
  command_parse-as_str,
)

-- ===== src/Ledger/Examples.antt =====
-- Concrete ledgers, and what the theorems say of them.
use model_lib.Prelude.{
  ℕ, zero, suc, ◌≤◌, ◌<◌, ◌≡◌, ◌≢◌, refl, inl, true, false, Option, none, some, List, [], ◌∷◌, ◌++◌,
  Text, Bytes, arith, All, length, text_beq, filter, find, any, ok, err, Ensures, ◌^◌,
}
use model_lib.Run.Ids.{Sha256, IsByte}
use model_lib.Ledger.Models.{
  ConversationStatus, RunStatus, is_terminal, AttemptStatus, CommandStatus, EventType, Conversation,
  RunRow, RunAttempt, Command, PersistedEvent, NewEvent, NewRun, Payload, event_as_str,
}
use model_lib.Ledger.Errors.{LedgerError}
use model_lib.Ledger.Tables.{
  Db, load_run, load_command, running_count, attempt_is_running, count_where, max_where,
  is_in_flight, update_where, insert_run, insert_event, insert_idempotency, has_run_id, has_run,
  has_conversation, has_run_or_null, has_attempt_or_null,
}
use model_lib.Ledger.Idempotency.{
  Request, find_record, check, check_optional, record_optional, record_key, replay_or,
}
use model_lib.Ledger.Events.{Supply, with_tx, emit_event, numbered, last_sequence, run_event}
use model_lib.Ledger.Runs.{create_run_inner, add_run, new_run, chosen_id}
use model_lib.Ledger.Commands.{
  in_flight, bind_command_child_run_tx, claim_stale_command_for_redrive_tx, is_stale, later_than,
  update_commands,
}
use model_lib.Ledger.Operations.{Op, perform, perform_all}
use model_lib.Ledger.Machine.{view, IsSound, Steps, sequences}
use model_lib.Ledger.Log.{IsNumbered, from_one}
use model_lib.Ledger.Invariants.{
  perform_all-Steps, perform_all-IsNumbered, perform_all-prefix, perform_all-IsSound,
  perform_all-terminal, perform-in_flight,
}
use model_lib.Ledger.Replays.{create_run_inner-conflict, create_run_inner-replay}
use model_lib.Ledger.Revival.{IsRevived, bind_command_child_run_tx-IsRevived}
use model_lib.Ledger.Reads.{list_runs, list_conversations}
use model_lib.Ledger.Reads.Pages.{IsListing}
use model_lib.Ledger.Reads.Lists.{IsAskedFor, list_runs-IsListing, list_conversations-IsListing}
use model_lib.Ledger.Claims.{claim_stale_command_for_redrive_tx-once, emit_event-bounds}

zeros : ℕ → Bytes
zeros zero = []
zeros (suc n) = 0 ∷ zeros n

length-zeros : (n : ℕ) → length (zeros n) ≡ n
unfolding zeros
length-zeros zero = refl
length-zeros (suc n) = omega (arith, length-zeros n)

zeros-IsByte : (n : ℕ) → All IsByte (zeros n)
unfolding zeros
zeros-IsByte zero = tt
zeros-IsByte (suc n) = (omega arith, zeros-IsByte n)

abbrev hash : Sha256
hash = record {
  finalize = λ m. zeros 32;
  finalize_length = λ m. length-zeros 32;
  finalize_bytes = λ m. zeros-IsByte 32;
}

abbrev to_json : Request → Option Bytes
to_json request = some []

abbrev at_time : ℕ → Supply
at_time n = record { now = n; fresh_id = 120 ∷ n ∷ []; event_id = 101 ∷ n ∷ [] }

abbrev chat : Text
chat = 99 ∷ []

abbrev first_run : Text
first_run = 114 ∷ []

abbrev first_command : Text
first_command = 107 ∷ []

abbrev chat_row : Conversation
chat_row = record { conversation_id = chat; created_at = 0; status = ConversationStatus.open_ }

abbrev run_row : RunStatus → RunRow
run_row status = record {
  run_id = first_run;
  conversation_id = chat;
  parent_run_id = none;
  agent = 97 ∷ [];
  role = 98 ∷ [];
  status = status;
  created_at = 1;
  finished_at = none;
  provider_session_id = some (115 ∷ []);
}

abbrev attempt_row : RunAttempt
attempt_row = record {
  attempt_id = 97 ∷ [];
  run_id = first_run;
  attempt_number = 1;
  status = AttemptStatus.running;
  started_at = 2;
  finished_at = none;
}

abbrev event_row : PersistedEvent
event_row = record {
  event_id = 101 ∷ [];
  conversation_id = chat;
  run_id = none;
  attempt_id = none;
  sequence = 1;
  event_type = [];
  schema_version = 1;
  created_at = 0;
  payload = Payload.empty;
}

abbrev command_row : CommandStatus → Command
command_row status = record {
  command_id = first_command;
  conversation_id = chat;
  parent_run_id = first_run;
  command_text = [];
  status = status;
  child_run_id = none;
  created_at = 3;
  updated_at = 5;
}

-- A conversation with one run, its attempts and its commands.
abbrev ledger : RunStatus → List RunAttempt → List Command → Db
ledger status attempts commands = record {
  conversations = chat_row ∷ [];
  runs = run_row status ∷ [];
  attempts = attempts;
  events = event_row ∷ [];
  idempotency = [];
  commands = commands;
}

abbrev running_ledger : Db
running_ledger = ledger RunStatus.running (attempt_row ∷ []) []

abbrev sealed_ledger : Db
sealed_ledger = ledger RunStatus.completed [] (command_row CommandStatus.rejected ∷ [])

-- The run completes, a start of it fails, and a command continues it.
abbrev history : List Op
history =
    Op.complete_run (at_time 6) first_run
    ∷ Op.start_run (at_time 7) first_run
    ∷ Op.create_command (at_time 8)
        (record { conversation_id = chat; parent_run_id = first_run; command_text = [] }) chat
    ∷ []

perform_all-Steps_example :
    Steps Unit running_ledger (perform_all hash to_json history running_ledger)
perform_all-Steps_example = perform_all-Steps hash to_json history running_ledger

starts-IsNumbered : IsNumbered chat running_ledger.events
unfolding IsNumbered sequences from_one max_where text_beq filter
starts-IsNumbered = refl

perform_all-IsNumbered_example :
    IsNumbered chat (perform_all hash to_json history running_ledger).events
perform_all-IsNumbered_example =
    perform_all-IsNumbered hash to_json history running_ledger chat starts-IsNumbered

perform_all-prefix_example :
    (new : List PersistedEvent) × ((perform_all hash to_json history running_ledger).events
      ≡ running_ledger.events ++ new)
perform_all-prefix_example = perform_all-prefix hash to_json history running_ledger

starts-IsSound : IsSound (view first_run running_ledger)
unfolding view load_run running_count count_where attempt_is_running find text_beq
starts-IsSound = (omega arith, inl refl)

perform_all-IsSound_example :
    IsSound (view first_run (perform_all hash to_json history running_ledger))
perform_all-IsSound_example =
    perform_all-IsSound hash to_json history running_ledger first_run starts-IsSound

starts_sealed : (view first_run sealed_ledger).status ≡ some RunStatus.completed
unfolding view load_run find text_beq
starts_sealed = refl

completed_terminal : is_terminal RunStatus.completed ≡ true
unfolding is_terminal
completed_terminal = refl

perform_all-terminal_example :
    (view first_run (perform_all hash to_json history sealed_ledger)).status
    ≡ some RunStatus.completed
perform_all-terminal_example =
    perform_all-terminal hash to_json history sealed_ledger first_run RunStatus.completed
      completed_terminal starts_sealed

abbrev continue_run : Op
continue_run =
    Op.create_command (at_time 8)
      (record { conversation_id = chat; parent_run_id = first_run; command_text = [] }) chat

none_in_flight : in_flight chat sealed_ledger.commands ≤ 1
unfolding in_flight count_where is_in_flight text_beq
none_in_flight = omega arith

perform-in_flight_example :
    in_flight chat (perform hash to_json continue_run sealed_ledger).1.commands ≤ 1
perform-in_flight_example =
    perform-in_flight hash to_json continue_run sealed_ledger chat tt none_in_flight

abbrev asked : NewRun
asked = record { conversation_id = chat; parent_run_id = none; agent = []; role = [] }

abbrev created : RunRow
created = record {
  run_id = 120 ∷ 4 ∷ [];
  conversation_id = chat;
  parent_run_id = none;
  agent = [];
  role = [];
  status = RunStatus.queued;
  created_at = 4;
  finished_at = none;
  provider_session_id = none;
}

abbrev created_event : PersistedEvent
created_event = record {
  event_id = 101 ∷ 4 ∷ [];
  conversation_id = chat;
  run_id = some (120 ∷ 4 ∷ []);
  attempt_id = none;
  sequence = 2;
  event_type = event_as_str EventType.run_created;
  schema_version = 1;
  created_at = 4;
  payload = Payload.agent_role [] [];
}

abbrev after_creation : Db
after_creation = record running_ledger {
  runs = run_row RunStatus.running ∷ created ∷ [];
  events = event_row ∷ created_event ∷ [];
  idempotency =
      record {
        scope = chat;
        key = chat;
        request_digest = 2 ∷ [];
        result_reference = 120 ∷ 4 ∷ [];
        created_at = 4;
      }
      ∷ [];
}

key_unused : find_record running_ledger chat chat ≡ none
unfolding find_record find
key_unused = refl

creates :
    create_run_inner (at_time 4) asked none chat (some chat) (2 ∷ []) running_ledger
    ≡ ok (created, after_creation)
unfolding create_run_inner check_optional check find_record find replay_or add_run new_run chosen_id
    insert_run emit_event numbered last_sequence run_event insert_event record_optional record_key
    insert_idempotency has_run_id has_run has_conversation has_run_or_null has_attempt_or_null any
    max_where text_beq
creates = refl

create_run_inner-replay_example :
    with_tx (create_run_inner (at_time 9) asked none chat (some chat) (2 ∷ [])) after_creation
    ≡ (ok created, after_creation)
create_run_inner-replay_example =
    create_run_inner-replay running_ledger after_creation (at_time 4) (at_time 9) asked none chat
      chat (2 ∷ []) created key_unused creates

digests_differ : ◌≢◌ {A = Text} (2 ∷ []) (3 ∷ [])
digests_differ h = cc

create_run_inner-conflict_example :
    with_tx (create_run_inner (at_time 9) asked none chat (some chat) (3 ∷ [])) after_creation
    ≡ (err (LedgerError.idempotency_conflict chat chat), after_creation)
create_run_inner-conflict_example =
    create_run_inner-conflict running_ledger after_creation (at_time 4) (at_time 9) asked asked none
      none chat chat (2 ∷ []) (3 ∷ []) created key_unused creates digests_differ

command_found : load_command sealed_ledger first_command ≡ some (command_row CommandStatus.rejected)
unfolding load_command find text_beq
command_found = refl

bind_command_child_run_tx-IsRevived_example :
    (row : Command) × (after : Db) × (bind_command_child_run_tx
        (at_time 6)
        first_command
        first_run
        sealed_ledger
      ≡ ok (row, after))
    × (load_command after first_command ≡ some row)
    × IsRevived (at_time 6) first_run (command_row CommandStatus.rejected) sealed_ledger after
bind_command_child_run_tx-IsRevived_example =
    bind_command_child_run_tx-IsRevived (at_time 6) first_command first_run sealed_ledger
      (command_row CommandStatus.rejected) command_found refl

abbrev waiting_ledger : Db
waiting_ledger = ledger RunStatus.completed [] (command_row CommandStatus.accepted ∷ [])

abbrev claimed_ledger : Db
claimed_ledger =
    ledger RunStatus.completed []
      (record (command_row CommandStatus.accepted) { updated_at = 6 } ∷ [])

claims :
    claim_stale_command_for_redrive_tx (at_time 5) first_command 5 waiting_ledger
    ≡ ok (true, claimed_ledger)
unfolding claim_stale_command_for_redrive_tx is_stale later_than update_commands update_where
    count_where is_in_flight text_beq
claims = refl

claim_stale_command_for_redrive_tx-once_example :
    (last : Db) × (claim_stale_command_for_redrive_tx (at_time 5) first_command 5 claimed_ledger
      ≡ ok (false, last))
claim_stale_command_for_redrive_tx-once_example =
    claim_stale_command_for_redrive_tx-once (at_time 5) (at_time 5) first_command 5 waiting_ledger
      claimed_ledger true (omega arith) claims

abbrev note_event : NewEvent
note_event = record {
  event_id = 102 ∷ [];
  conversation_id = chat;
  run_id = some first_run;
  attempt_id = none;
  event_type = EventType.system_note;
  schema_version = 1;
  payload = Payload.empty;
}

emit_event-bounds_example :
    Ensures
      (λ r. (r.0.sequence ≡ suc (last_sequence running_ledger chat)) × (r.0.sequence < 2 ^ 63))
      (emit_event running_ledger note_event 7)
emit_event-bounds_example = emit_event-bounds running_ledger note_event 7

abbrev two_runs : Db
two_runs = record running_ledger { runs = run_row RunStatus.completed ∷ created ∷ [] }

list_runs-IsListing_example :
    IsListing
      (λ r. r.created_at)
      (IsAskedFor (some chat) (some (RunStatus.queued ∷ [])))
      none
      1
      two_runs.runs
      (list_runs two_runs (some chat) (some (RunStatus.queued ∷ [])) none 1)
list_runs-IsListing_example =
    list_runs-IsListing two_runs (some chat) (some (RunStatus.queued ∷ [])) none 1

list_conversations-IsListing_example :
    IsListing
      (λ c. c.created_at)
      (λ c. Unit)
      none
      1
      two_runs.conversations
      (list_conversations two_runs none 1)
list_conversations-IsListing_example = list_conversations-IsListing two_runs none 1

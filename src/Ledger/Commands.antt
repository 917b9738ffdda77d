-- ===== src/Ledger/Commands.antt =====
-- crates/o7-ledger/src/sqlite.rs: the commands that continue a conversation.
pub mod Outcomes
use model_lib.Prelude.{
  ℕ, suc, ◌+◌, Bool, true, false, not, ◌&&◌, ◌||◌, Option, none, some, List, [], ◌∷◌, Text, text_eq,
  nat_eq, ◌==◌, leb, ltb, is_none, is_some, is_empty, any, filter, if◌then◌else◌, Result, ok, err,
  reject, ◌>>◌, ◌>>=◌,
}
use model_lib.Run.Ids.{RunId}
use model_lib.Ledger.Models.{
  ConversationId, CommandId, Millis, RunStatus, is_terminal, CommandStatus, RunRow, Command,
  NewCommand,
}
use model_lib.Ledger.Errors.{Entity, LedgerError}
use model_lib.Ledger.Tables.{
  Db, update_where, count_where, latest_from, max_i64, is_in_flight, load_conversation, load_run,
  load_command, insert_command,
}
use model_lib.Ledger.Idempotency.{scope_create_command, check, record_key, replay_or, find_record}
use model_lib.Ledger.Events.{Supply, or_else, read_back}
use model_lib.Ledger.Runs.{require_run}

unfoldable pub require_command : Db → CommandId → Result LedgerError Command
unfolding load_command or_else
require_command db id = or_else (load_command db id) (LedgerError.not_found Entity.command id)

-- `UPDATE command SET .. WHERE ..`
unfoldable pub update_commands : (Command → Bool) → (Command → Command) → Db → Db
update_commands p f db = record db { commands = update_where p f db.commands }

-- `SELECT COUNT(*) FROM command WHERE conversation_id = ?1 AND status IN ('accepted','started')`
unfoldable pub in_flight : ConversationId → List Command → ℕ
in_flight id = count_where (λ c. c.conversation_id == id && is_in_flight c.status)

-- `SELECT run_id FROM run WHERE conversation_id = ?1 ORDER BY created_at DESC, rowid DESC LIMIT 1`
unfoldable pub current_tail : ConversationId → List RunRow → Option RunRow
current_tail id = latest_from (λ r. r.conversation_id == id) (λ r. r.created_at) none

-- `char::is_control`, on the UTF-8 of a text: U+0000 to U+001F, and U+007F to U+009F.
unfoldable pub has_control : Text → Bool
has_control [] = false
has_control (b ∷ []) = ltb b 32 || b == 127
has_control (b ∷ c ∷ bs) =
    ltb b 32 || b == 127 || b == 194 && leb 128 c && ltb c 160 || has_control (c ∷ bs)

unfoldable pub is_valid_session : Option Text → Bool
unfolding has_control
is_valid_session none = false
is_valid_session (some session) = not (is_empty session || has_control session)

unfoldable pub new_command : Supply → NewCommand → Command
new_command supply request = record {
  command_id = supply.fresh_id;
  conversation_id = request.conversation_id;
  parent_run_id = request.parent_run_id;
  command_text = request.command_text;
  status = CommandStatus.accepted;
  child_run_id = none;
  created_at = supply.now;
  updated_at = supply.now;
}

-- The guards of `create_command` on a first request, and the rows of the new command.
unfoldable pub add_command :
    Supply → NewCommand → Text → Text → Db → Result LedgerError (Command × Db)
unfolding current_tail in_flight is_valid_session new_command
add_command supply request key request_digest db =
    let conversation = request.conversation_id in
    let parent_id = request.parent_run_id in
    do
      found ←
          or_else (load_conversation db conversation)
            (LedgerError.not_found Entity.conversation conversation)
      parent ← require_run db parent_id
      reject (not (parent.conversation_id == conversation))
          (LedgerError.not_found Entity.run parent_id)
      reject (not (is_terminal parent.status)) (LedgerError.continuation_not_permitted parent_id)
      tail ← or_else (current_tail conversation db.runs) LedgerError.sqlite
      reject (not (tail.run_id == parent_id)) (LedgerError.stale_parent parent_id)
      reject (ltb 0 (in_flight conversation db.commands))
          (LedgerError.command_conflict conversation)
      reject (not (is_valid_session parent.provider_session_id))
          (LedgerError.continuation_not_permitted parent_id)
      db1 ← insert_command db (new_command supply request)
      db2 ← record_key db1 scope_create_command key request_digest supply.fresh_id supply.now
      ok (new_command supply request, db2)

unfoldable pub create_command_tx :
    Supply → NewCommand → Text → Text → Db → Result LedgerError (Command × Db)
unfolding add_command
create_command_tx supply request key request_digest db = do
  outcome ← check db scope_create_command key request_digest
  replay_or outcome
      (λ reference.
        read_back db (load_command db reference) (LedgerError.not_found Entity.command reference))
      (add_command supply request key request_digest db)

unfoldable pub command_idempotency_key_seen : Db → Text → Bool
command_idempotency_key_seen db key = is_some (find_record db scope_create_command key)

-- The last step of most operations: read the command, which is there.
unfoldable pub finish : CommandId → Db → Result LedgerError (Command × Db)
finish id db = read_back db (load_command db id) (LedgerError.not_found Entity.command id)

unfoldable pub bind_command_child_run_tx :
    Supply → CommandId → RunId → Db → Result LedgerError (Command × Db)
unfolding update_commands finish
bind_command_child_run_tx supply id run db = do
  current ← require_command db id
  finish id (
      update_commands (λ c. c.command_id == id && is_none c.child_run_id)
        (λ c. record c {
          child_run_id = some run;
          status = CommandStatus.started;
          updated_at = supply.now;
        })
        db)

unfoldable pub set_command_status_tx :
    Supply → CommandId → CommandStatus → Db → Result LedgerError (Command × Db)
unfolding update_commands finish
set_command_status_tx supply id status db = do
  current ← require_command db id
  finish id (
      update_commands (λ c. c.command_id == id)
        (λ c. record c { status = status; updated_at = supply.now }) db)

unfoldable pub rebind_command_child_run_tx :
    Supply → CommandId → RunId → Db → Result LedgerError (Command × Db)
unfolding update_commands finish
rebind_command_child_run_tx supply id run db = do
  current ← require_command db id
  finish id (
      update_commands (λ c. c.command_id == id)
        (λ c. record c { child_run_id = some run; updated_at = supply.now }) db)

-- `now_millis().max(expected.saturating_add(1))`
unfoldable pub later_than : Millis → Millis → Millis
later_than now expected =
    let next = if ltb expected max_i64 then suc expected else max_i64 in
    if ltb now next then next else now

unfoldable pub is_stale : CommandId → Millis → Command → Bool
is_stale id expected c = c.command_id == id && c.updated_at == expected && is_in_flight c.status

unfoldable pub claim_stale_command_for_redrive_tx :
    Supply → CommandId → Millis → Db → Result LedgerError (Bool × Db)
unfolding update_commands later_than is_stale
claim_stale_command_for_redrive_tx supply id expected db =
    let now = later_than supply.now expected in
    ok (
      count_where (is_stale id expected) db.commands == 1,
      update_commands (is_stale id expected) (λ c. record c { updated_at = now }) db,
    )

-- `JOIN run r ON r.run_id = c.child_run_id .. AND r.status IN (..)`, the five terminal statuses.
unfoldable pub child_is_terminal : Db → Option RunId → Bool
child_is_terminal db none = false
child_is_terminal db (some run) = any (λ r. r.run_id == run && is_terminal r.status) db.runs

-- The loop of `reconcile_completed_commands`, over the commands that its query found.
unfoldable pub complete_all : Millis → List Command → Db → Result LedgerError (List Command × Db)
unfolding update_commands
complete_all now [] db = ok ([], db)
complete_all now (c ∷ cs) db = do
  let db1 =
      update_commands (λ d. d.command_id == c.command_id)
        (λ d. record d { status = CommandStatus.completed; updated_at = now }) db
  repaired ← or_else (load_command db1 c.command_id) (LedgerError.integrity c.command_id)
  (rest, db2) ← complete_all now cs db1
  ok (repaired ∷ rest, db2)

unfoldable pub reconcile_completed_commands_tx :
    Supply → Db → Result LedgerError (List Command × Db)
unfolding complete_all child_is_terminal
reconcile_completed_commands_tx supply db =
    complete_all supply.now
      (filter (λ c. is_in_flight c.status && child_is_terminal db c.child_run_id) db.commands) db

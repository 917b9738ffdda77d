-- ===== src/Ledger/Commands/Outcomes.antt =====
-- crates/o7-ledger/src/sqlite.rs: the operations on a command that compare before they write, and
-- tell the caller what they found.
use model_lib.Prelude.{
  Bool, false, not, ◌&&◌, ◌||◌, Option, none, some, text_eq, nat_eq, ◌==◌, if◌then◌else◌, Result,
  ok, ◌>>=◌,
}
use model_lib.Run.Ids.{RunId}
use model_lib.Ledger.Models.{
  CommandId, Millis, is_terminal, CommandStatus, RunRow, Command, RebindOutcome, RejectionOutcome,
  CompletionOutcome,
}
use model_lib.Ledger.Errors.{LedgerError}
use model_lib.Ledger.Tables.{Db, count_where, is_in_flight, load_run, load_command, has_run_id}
use model_lib.Ledger.Events.{Supply, or_else}
use model_lib.Ledger.Commands.{update_commands, later_than}

unfoldable pub is_child : Option RunId → RunId → Bool
is_child none run = false
is_child (some child) run = child == run

-- `status IN ('accepted','started') AND child_run_id = ?`
unfoldable pub is_bound : RunId → Command → Bool
unfolding is_child
is_bound run c = is_in_flight c.status && is_child c.child_run_id run

-- `load_command(..)?.ok_or_else(|| Integrity(.. "vanished"))` after an UPDATE.
unfoldable pub vanished : Db → CommandId → Result LedgerError Command
vanished db id = or_else (load_command db id) (LedgerError.integrity id)

-- An UPDATE of the one command, and the outcome by whether it changed a row.
unfoldable pub update_one {ℓ} :
    {O : Type ℓ}
    → (Command → Bool)
    → (Command → Command)
    → (Command → O)
    → (Command → O)
    → CommandId
    → Db
    → Result LedgerError (O × Db)
unfolding update_commands vanished
update_one p f changed unchanged id db =
    let outcome = if count_where p db.commands == 1 then changed else unchanged in
    do c ← vanished (update_commands p f db) id; ok (outcome c, update_commands p f db)

-- The UPDATE that gives a command another child.
unfoldable pub rebind_bound :
    Supply → CommandId → RunId → Millis → RunId → Db → Result LedgerError (RebindOutcome × Db)
unfolding is_bound update_one later_than
rebind_bound supply id old expected run db =
    update_one (λ c. c.command_id == id && is_bound old c && c.updated_at == expected)
      (λ c. record c { child_run_id = some run; updated_at = later_than supply.now expected })
      RebindOutcome.rebound RebindOutcome.lost_race id db

unfoldable pub rebind_current :
    Supply
    → CommandId
    → RunId
    → Millis
    → RunId
    → Option Command
    → Db
    → Result LedgerError (RebindOutcome × Db)
unfolding is_child rebind_bound
rebind_current supply id old expected run none db = ok (RebindOutcome.not_found, db)
rebind_current supply id old expected run (some current) db =
    if not (is_in_flight current.status)
    then ok (RebindOutcome.not_eligible current, db)
    else if not (is_child current.child_run_id old) || not (current.updated_at == expected)
    then ok (RebindOutcome.lost_race current, db)
    else rebind_bound supply id old expected run db

unfoldable pub rebind_command_child_run_if_current_tx :
    Supply → CommandId → RunId → Millis → RunId → Db → Result LedgerError (RebindOutcome × Db)
unfolding rebind_current
rebind_command_child_run_if_current_tx supply id old expected run db =
    rebind_current supply id old expected run (load_command db id) db

-- The UPDATE that completes a command still bound to a run.
unfoldable pub complete_bound :
    Supply → CommandId → RunId → Db → Result LedgerError (CompletionOutcome × Db)
unfolding is_bound update_one
complete_bound supply id run db =
    update_one (λ c. c.command_id == id && is_bound run c)
      (λ c. record c { status = CommandStatus.completed; updated_at = supply.now })
      CompletionOutcome.completed CompletionOutcome.not_bound id db

unfoldable pub complete_current :
    Supply → CommandId → RunId → Option Command → Db → Result LedgerError (CompletionOutcome × Db)
unfolding complete_bound
complete_current supply id run none db = ok (CompletionOutcome.not_found, db)
complete_current supply id run (some current) db =
    if not (is_bound run current)
    then ok (CompletionOutcome.not_bound current, db)
    else complete_bound supply id run db

unfoldable pub mark_command_completed_if_bound_tx :
    Supply → CommandId → RunId → Db → Result LedgerError (CompletionOutcome × Db)
unfolding complete_current
mark_command_completed_if_bound_tx supply id run db =
    complete_current supply id run (load_command db id) db

-- The child that a command may be completed for: sealed, in its conversation, and its parent's.
unfoldable pub child_ok : Command → Option RunRow → Bool
unfolding is_child
child_ok current none = false
child_ok current (some child) =
    is_terminal child.status
    && child.conversation_id == current.conversation_id
    && is_child child.parent_run_id current.parent_run_id

unfoldable pub complete_sealed :
    Supply → CommandId → RunId → Option Command → Db → Result LedgerError (CompletionOutcome × Db)
unfolding complete_bound child_ok
complete_sealed supply id run none db = ok (CompletionOutcome.not_found, db)
complete_sealed supply id run (some current) db =
    if not (is_bound run current) || not (child_ok current (load_run db run))
    then ok (CompletionOutcome.not_bound current, db)
    else complete_bound supply id run db

unfoldable pub mark_command_completed_if_bound_and_terminal_tx :
    Supply → CommandId → RunId → Db → Result LedgerError (CompletionOutcome × Db)
unfolding complete_sealed
mark_command_completed_if_bound_and_terminal_tx supply id run db =
    complete_sealed supply id run (load_command db id) db

-- The UPDATE that rejects a command whose run does not exist.
unfoldable pub reject_bound :
    Supply → CommandId → RunId → Db → Result LedgerError (RejectionOutcome × Db)
unfolding is_bound update_one
reject_bound supply id run db =
    update_one (λ c. c.command_id == id && is_bound run c && not (has_run_id db run))
      (λ c. record c { status = CommandStatus.rejected; updated_at = supply.now })
      RejectionOutcome.rejected RejectionOutcome.not_eligible id db

unfoldable pub reject_current :
    Supply → CommandId → RunId → Option Command → Db → Result LedgerError (RejectionOutcome × Db)
unfolding reject_bound
reject_current supply id run none db = ok (RejectionOutcome.not_found, db)
reject_current supply id run (some current) db =
    if not (is_bound run current)
    then ok (RejectionOutcome.not_eligible current, db)
    else reject_bound supply id run db

unfoldable pub mark_command_rejected_if_unattached_and_bound_tx :
    Supply → CommandId → RunId → Db → Result LedgerError (RejectionOutcome × Db)
unfolding reject_current
mark_command_rejected_if_unattached_and_bound_tx supply id run db =
    reject_current supply id run (load_command db id) db

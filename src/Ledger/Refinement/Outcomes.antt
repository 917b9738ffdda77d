-- ===== src/Ledger/Refinement/Outcomes.antt =====
-- The operations on a command that compare before they write make steps of the specification.
use model_lib.Prelude.{
  ◌≡◌, refl, Bool, true, not, ◌&&◌, Option, none, some, text_eq, ◌==◌, ok, Ensures->>=, nat_eq,
}
use model_lib.Run.Ids.{RunId}
use model_lib.Ledger.Models.{
  CommandId, Millis, CommandStatus, Command, RebindOutcome, RejectionOutcome, CompletionOutcome,
}
use model_lib.Ledger.Tables.{Db, is_in_flight, load_command, has_run_id}
use model_lib.Ledger.Events.{Supply}
use model_lib.Ledger.Commands.{update_commands, later_than}
use model_lib.Ledger.Commands.Outcomes.{
  is_bound, vanished, update_one, rebind_bound, reject_bound, rebind_current,
  rebind_command_child_run_if_current_tx, complete_bound, complete_current,
  mark_command_completed_if_bound_tx, complete_sealed,
  mark_command_completed_if_bound_and_terminal_tx, reject_current,
  mark_command_rejected_if_unattached_and_bound_tx,
}
use model_lib.Ledger.Steps.Commands.{update_commands-Steps}
use model_lib.Ledger.Refinement.{Advances, Advances-update, Advances-done, Advances-if}

module _ (P : Type 0) where
  update_one-Advances {ℓ} :
      {O : Type ℓ} (p : Command → Bool) (f : Command → Command) (g h : Command → O) (id : CommandId)
      (db : Db)
      → ((c : Command) → (f c).conversation_id ≡ c.conversation_id)
      → ((c : Command)
          → p c ≡ true
          → is_in_flight (f c).status ≡ true
          → is_in_flight c.status ≡ true)
      → Advances P db (update_one p f g h id db)
  unfolding update_one
  update_one-Advances p f g h id db same keeps =
      Advances-update (update_commands-Steps db p f same keeps) (
        Ensures->>= (λ (c : Command) (found : vanished (update_commands p f db) id ≡ ok c).
          Advances-done _ _))

  rebind_bound-Advances :
      (supply : Supply) (id : CommandId) (old : RunId) (expected : Millis) (run : RunId) (db : Db)
      → Advances P db (rebind_bound supply id old expected run db)
  unfolding rebind_bound
  rebind_bound-Advances supply id old expected run db =
      update_one-Advances (λ c. c.command_id == id && is_bound old c && c.updated_at == expected)
        (λ c. record c { child_run_id = some run; updated_at = later_than supply.now expected })
        RebindOutcome.rebound RebindOutcome.lost_race id db (λ c. refl) (λ c q t. t)

  rebind_current-Advances :
      (supply : Supply) (id : CommandId) (old : RunId) (expected : Millis) (run : RunId)
      (o : Option Command) (db : Db)
      → Advances P db (rebind_current supply id old expected run o db)
  unfolding rebind_current
  rebind_current-Advances supply id old expected run none db = search (Advances-done)
  rebind_current-Advances supply id old expected run (some current) db =
      search (Advances-if, Advances-done, rebind_bound-Advances)

  pub rebind_command_child_run_if_current_tx-Advances :
      (supply : Supply) (id : CommandId) (old : RunId) (expected : Millis) (run : RunId) (db : Db)
      → Advances P db (rebind_command_child_run_if_current_tx supply id old expected run db)
  unfolding rebind_command_child_run_if_current_tx
  rebind_command_child_run_if_current_tx-Advances supply id old expected run db =
      rebind_current-Advances supply id old expected run (load_command db id) db

  complete_bound-Advances :
      (supply : Supply) (id : CommandId) (run : RunId) (db : Db)
      → Advances P db (complete_bound supply id run db)
  unfolding complete_bound is_in_flight
  complete_bound-Advances supply id run db =
      update_one-Advances (λ c. c.command_id == id && is_bound run c)
        (λ c. record c { status = CommandStatus.completed; updated_at = supply.now })
        CompletionOutcome.completed CompletionOutcome.not_bound id db (λ c. refl) (λ c q t. cc)

  complete_current-Advances :
      (supply : Supply) (id : CommandId) (run : RunId) (o : Option Command) (db : Db)
      → Advances P db (complete_current supply id run o db)
  unfolding complete_current
  complete_current-Advances supply id run none db = search (Advances-done)
  complete_current-Advances supply id run (some current) db =
      search (Advances-if, Advances-done, complete_bound-Advances)

  pub mark_command_completed_if_bound_tx-Advances :
      (supply : Supply) (id : CommandId) (run : RunId) (db : Db)
      → Advances P db (mark_command_completed_if_bound_tx supply id run db)
  unfolding mark_command_completed_if_bound_tx
  mark_command_completed_if_bound_tx-Advances supply id run db =
      complete_current-Advances supply id run (load_command db id) db

  complete_sealed-Advances :
      (supply : Supply) (id : CommandId) (run : RunId) (o : Option Command) (db : Db)
      → Advances P db (complete_sealed supply id run o db)
  unfolding complete_sealed
  complete_sealed-Advances supply id run none db = search (Advances-done)
  complete_sealed-Advances supply id run (some current) db =
      search (Advances-if, Advances-done, complete_bound-Advances)

  pub mark_command_completed_if_bound_and_terminal_tx-Advances :
      (supply : Supply) (id : CommandId) (run : RunId) (db : Db)
      → Advances P db (mark_command_completed_if_bound_and_terminal_tx supply id run db)
  unfolding mark_command_completed_if_bound_and_terminal_tx
  mark_command_completed_if_bound_and_terminal_tx-Advances supply id run db =
      complete_sealed-Advances supply id run (load_command db id) db

  reject_bound-Advances :
      (supply : Supply) (id : CommandId) (run : RunId) (db : Db)
      → Advances P db (reject_bound supply id run db)
  unfolding reject_bound is_in_flight
  reject_bound-Advances supply id run db =
      update_one-Advances (λ c. c.command_id == id && is_bound run c && not (has_run_id db run))
        (λ c. record c { status = CommandStatus.rejected; updated_at = supply.now })
        RejectionOutcome.rejected RejectionOutcome.not_eligible id db (λ c. refl) (λ c q t. cc)

  reject_current-Advances :
      (supply : Supply) (id : CommandId) (run : RunId) (o : Option Command) (db : Db)
      → Advances P db (reject_current supply id run o db)
  unfolding reject_current
  reject_current-Advances supply id run none db = search (Advances-done)
  reject_current-Advances supply id run (some current) db =
      search (Advances-if, Advances-done, reject_bound-Advances)

  pub mark_command_rejected_if_unattached_and_bound_tx-Advances :
      (supply : Supply) (id : CommandId) (run : RunId) (db : Db)
      → Advances P db (mark_command_rejected_if_unattached_and_bound_tx supply id run db)
  unfolding mark_command_rejected_if_unattached_and_bound_tx
  mark_command_rejected_if_unattached_and_bound_tx-Advances supply id run db =
      reject_current-Advances supply id run (load_command db id) db

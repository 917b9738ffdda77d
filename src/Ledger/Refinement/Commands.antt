-- ===== src/Ledger/Refinement/Commands.antt =====
-- The operations on commands make steps of the specification.
use model_lib.Prelude.{
  ℕ, ◌≡◌, refl, ◌⊎◌, true, false, not, ◌&&◌, some, List, [], ◌∷◌, Text, text_eq, ◌==◌, is_none, ltb,
  arith, All, ok, reject, Ensures->>=, Ensures->>, nat_eq,
}
use model_lib.Run.Ids.{RunId}
use model_lib.Ledger.Models.{
  CommandId, Millis, is_terminal, CommandStatus, Conversation, RunRow, Command, NewCommand,
}
use model_lib.Ledger.Errors.{LedgerError, Entity}
use model_lib.Ledger.Tables.{Db, is_in_flight, load_conversation, load_command}
use model_lib.Ledger.Idempotency.{scope_create_command}
use model_lib.Ledger.Events.{Supply, or_else}
use model_lib.Ledger.Runs.{require_run}
use model_lib.Ledger.Commands.{
  require_command, update_commands, in_flight, current_tail, is_valid_session, new_command,
  add_command, create_command_tx, finish, bind_command_child_run_tx, set_command_status_tx,
  rebind_command_child_run_tx, later_than, is_stale, claim_stale_command_for_redrive_tx,
  complete_all, reconcile_completed_commands_tx,
}
use model_lib.Ledger.Steps.Commands.{update_commands-Steps, update_commands-Steps-All}
use model_lib.Ledger.Refinement.{
  Advances, Advances-insert, Advances-emit, Advances-update, Advances-done, read_back-Advances,
  replay_or-Advances, record_key-Ensures, insert_command-Ensures,
}

-- No command without a child is bound to one unless it is in flight.
abbrev pub IsGuarded : CommandId → Db → Type 0
IsGuarded id db =
    All (λ c. (c.command_id == id && is_none c.child_run_id) ≡ true → is_in_flight c.status ≡ true)
      db.commands

none_in_flight : (n : ℕ) (e : LedgerError) → reject (ltb 0 n) e ≡ ok tt → n ≡ 0
none_in_flight n e h = ground arith

module _ (P : Type 0) where
  add_command-Advances :
      (supply : Supply) (request : NewCommand) (key digest : Text) (db : Db)
      → Advances P db (add_command supply request key digest db)
  unfolding add_command new_command
  add_command-Advances supply request key digest db =
      let conversation = request.conversation_id in
      let parent_id = request.parent_run_id in
      Ensures->>=
        (λ (found : Conversation)
            (_ : or_else (load_conversation db conversation)
                (LedgerError.not_found Entity.conversation conversation)
              ≡ ok found).
          Ensures->>= (λ (parent : RunRow) (_ : require_run db parent_id ≡ ok parent).
            Ensures->>
              (λ (_ : reject (not (parent.conversation_id == conversation))
                    (LedgerError.not_found Entity.run parent_id)
                  ≡ ok tt).
                Ensures->>
                  (λ (_ : reject (not (is_terminal parent.status))
                        (LedgerError.continuation_not_permitted parent_id)
                      ≡ ok tt).
                    Ensures->>=
                      (λ (tail : RunRow)
                          (_ : or_else (current_tail conversation db.runs) LedgerError.sqlite
                            ≡ ok tail).
                        Ensures->>
                          (λ (_ : reject (not (tail.run_id == parent_id))
                                (LedgerError.stale_parent parent_id)
                              ≡ ok tt).
                            Ensures->>
                              (λ (alone : reject (ltb 0 (in_flight conversation db.commands))
                                    (LedgerError.command_conflict conversation)
                                  ≡ ok tt).
                                Ensures->>
                                  (λ (_ : reject (not (is_valid_session parent.provider_session_id))
                                        (LedgerError.continuation_not_permitted parent_id)
                                      ≡ ok tt).
                                    Advances-insert
                                      (insert_command-Ensures db (new_command supply request) (
                                        none_in_flight _ (LedgerError.command_conflict conversation)
                                          alone))
                                      (λ db1.
                                        Advances-insert
                                          (record_key-Ensures db1 scope_create_command key digest
                                            supply.fresh_id supply.now)
                                          (λ db2. Advances-done db2 _))))))))))

  pub create_command_tx-Advances :
      (supply : Supply) (request : NewCommand) (key digest : Text) (db : Db)
      → Advances P db (create_command_tx supply request key digest db)
  unfolding create_command_tx
  create_command_tx-Advances supply request key digest db =
      search (Ensures->>=, replay_or-Advances, read_back-Advances, add_command-Advances)

  pub bind_command_child_run_tx-Advances :
      (supply : Supply) (id : CommandId) (run : RunId) (db : Db)
      → P ⊎ IsGuarded id db
      → Advances P db (bind_command_child_run_tx supply id run db)
  unfolding bind_command_child_run_tx finish
  bind_command_child_run_tx-Advances supply id run db guarded =
      Ensures->>= (λ (current : Command) (found : require_command db id ≡ ok current).
        Advances-update
          (update_commands-Steps-All db (λ c. c.command_id == id && is_none c.child_run_id) _
            (λ c. refl) guarded)
          (read_back-Advances _ _ _))

  pub set_command_status_tx-Advances :
      (supply : Supply) (id : CommandId) (status : CommandStatus) (db : Db)
      → is_in_flight status ≡ false
      → Advances P db (set_command_status_tx supply id status db)
  unfolding set_command_status_tx finish
  set_command_status_tx-Advances supply id status db settled =
      Ensures->>= (λ (current : Command) (found : require_command db id ≡ ok current).
        Advances-update
          (update_commands-Steps db (λ c. c.command_id == id)
            (λ c. record c { status = status; updated_at = supply.now }) (λ c. refl)
            (λ c q t. ground arith))
          (read_back-Advances _ _ _))

  pub rebind_command_child_run_tx-Advances :
      (supply : Supply) (id : CommandId) (run : RunId) (db : Db)
      → Advances P db (rebind_command_child_run_tx supply id run db)
  unfolding rebind_command_child_run_tx finish
  rebind_command_child_run_tx-Advances supply id run db =
      Ensures->>= (λ (current : Command) (found : require_command db id ≡ ok current).
        Advances-update
          (update_commands-Steps db (λ c. c.command_id == id)
            (λ c. record c { child_run_id = some run; updated_at = supply.now }) (λ c. refl)
            (λ c q t. t))
          (read_back-Advances _ _ _))

  pub claim_stale_command_for_redrive_tx-Advances :
      (supply : Supply) (id : CommandId) (expected : Millis) (db : Db)
      → Advances P db (claim_stale_command_for_redrive_tx supply id expected db)
  unfolding claim_stale_command_for_redrive_tx
  claim_stale_command_for_redrive_tx-Advances supply id expected db =
      Advances-update
        (update_commands-Steps db (is_stale id expected)
          (λ c. record c { updated_at = later_than supply.now expected }) (λ c. refl) (λ c q t. t))
        (Advances-done _ _)

  complete_all-Advances :
      (now : Millis) (cs : List Command) (db : Db) → Advances P db (complete_all now cs db)
  unfolding complete_all is_in_flight
  complete_all-Advances now [] db = Advances-done db []
  complete_all-Advances now (c ∷ cs) db =
      Advances-update
        (update_commands-Steps db (λ d. d.command_id == c.command_id)
          (λ d. record d { status = CommandStatus.completed; updated_at = now }) (λ d. refl)
          (λ d q t. cc))
        (Ensures->>=
          (λ (repaired : Command)
              (found : or_else
                  (load_command
                    (update_commands (λ d. d.command_id == c.command_id)
                      (λ d. record d { status = CommandStatus.completed; updated_at = now }) db)
                    c.command_id)
                  (LedgerError.integrity c.command_id)
                ≡ ok repaired).
            Advances-emit (complete_all-Advances now cs _) (λ (rest, db2) _. Advances-done db2 _)))

  pub reconcile_completed_commands_tx-Advances :
      (supply : Supply) (db : Db) → Advances P db (reconcile_completed_commands_tx supply db)
  unfolding reconcile_completed_commands_tx
  reconcile_completed_commands_tx-Advances supply db = complete_all-Advances supply.now _ db

-- ===== src/Ledger/Revival.antt =====
-- The first binding of a child run to a command, crates/o7-ledger/src/sqlite.rs.
use model_lib.Prelude.{
  ◌≡◌, ◌⊎◌, inl, inr, ◌+◌, ◌≤◌, Option, false, Bool-cases, text_beq_iff, sym, subst, refl, ap, ◌∙◌,
  true, ◌&&◌, none, some, text_eq, ◌==◌, is_none, arith, find, find-holds, if◌then◌else◌, ok,
}
use model_lib.Run.Ids.{RunId}
use model_lib.Ledger.Models.{CommandId, CommandStatus, Command}
use model_lib.Ledger.Tables.{Db, is_in_flight, load_command, update_where}
use model_lib.Ledger.Queries.{map_option, find-update_where, count_where-update_where_rises}
use model_lib.Ledger.Events.{Supply, or_else, read_back}
use model_lib.Ledger.Commands.{
  in_flight, require_command, update_commands, finish, bind_command_child_run_tx,
}

abbrev bound_to : Supply → RunId → Command → Command
bound_to supply run c = record c {
  child_run_id = some run;
  status = CommandStatus.started;
  updated_at = supply.now;
}

updated :
    (supply : Supply) (id : CommandId) (run : RunId) (db : Db) (c : Command)
    → load_command db id ≡ some c
    → c.child_run_id ≡ none
    → find
        (λ c. c.command_id == id)
        (update_where
          (λ c. c.command_id == id && is_none c.child_run_id)
          (bound_to supply run)
          db.commands)
      ≡ some (bound_to supply run c)
unfolding load_command
updated supply id run db c found free =
    let e =
      find-update_where (λ c. c.command_id == id)
        (λ c. c.command_id == id && is_none c.child_run_id) (bound_to supply run) db.commands
        (λ c. refl) in
    let h = find-holds (λ c. c.command_id == id) db.commands found in
    let selected : (c.command_id == id && is_none c.child_run_id) ≡ true = ground arith in
    (e
      ∙ ap
          (map_option (λ x.
            if x.command_id == id && is_none x.child_run_id then bound_to supply run x else x))
          found)
    ∙ ap (λ b. some (if b then bound_to supply run c else c)) selected

-- Another command stays as it is.
untouched :
    (supply : Supply) (id : CommandId) (run : RunId) (db : Db) (j : CommandId)
    → (j ≡ id)
      ⊎ (find
            (λ c. c.command_id == j)
            (update_where
              (λ c. c.command_id == id && is_none c.child_run_id)
              (bound_to supply run)
              db.commands)
          ≡ find (λ c. c.command_id == j) db.commands)
untouched supply id run db j = elim (Bool-cases (j == id)) [
  | inl same ↦ inl ((text_beq_iff j id).0 same)
  | inr other ↦ inr (
      find-update_where (λ c. c.command_id == j) (λ c. c.command_id == id && is_none c.child_run_id)
        (bound_to supply run) db.commands (λ c. refl)
      ∙ kept other (find (λ c. c.command_id == j) db.commands)
          (λ c e. find-holds (λ c. c.command_id == j) db.commands e))
]
  where
    kept :
        j == id ≡ false
        → (o : Option Command) → ((c : Command) → o ≡ some c → c.command_id == j ≡ true)
        → map_option
            (λ x. if x.command_id == id && is_none x.child_run_id then bound_to supply run x else x)
            o
          ≡ o
    kept other none holds = refl
    kept other (some c) holds =
        let is_j = (text_beq_iff c.command_id j).0 (holds c refl) in
        let differ = ap (λ x. x == id) is_j ∙ other in ground arith

-- The ledger after a first binding of a child run to a command: the command is found with that
-- child and started, whatever its status was; every other command and every other table are as
-- they were; and where the command was rejected or completed, its conversation has one more
-- command in flight.
pub record IsRevived (supply : Supply) (run : RunId) (c : Command) (db after : Db) : Type 0 where
  pub bound :
      load_command after c.command_id
      ≡ some (record c {
        child_run_id = some run;
        status = CommandStatus.started;
        updated_at = supply.now;
      })
  pub others : (j : CommandId) → (j ≡ c.command_id) ⊎ (load_command after j ≡ load_command db j)
  pub tables : after ≡ record db { commands = after.commands }
  pub in_flight :
      in_flight c.conversation_id db.commands + (if is_in_flight c.status then 0 else 1)
      ≤ in_flight c.conversation_id after.commands

-- The first binding of a child run succeeds on a command that has none, and answers with the command
-- as it then stands. In the ledger after, the command is found with that child and started,
-- whatever its status was, and every other command and every other table are as they were. So a
-- command that was rejected or completed before it had a child comes back to life: its conversation
-- has at least one more command in flight.
pub bind_command_child_run_tx-IsRevived :
    (supply : Supply) (id : CommandId) (run : RunId) (db : Db) (c : Command)
    → load_command db id ≡ some c
    → c.child_run_id ≡ none
    → (row : Command) × (after : Db) × (bind_command_child_run_tx supply id run db
        ≡ ok (row, after))
      × (load_command after id ≡ some row)
      × IsRevived supply run c db after
unfolding bind_command_child_run_tx require_command finish or_else read_back update_commands
    load_command in_flight is_in_flight
bind_command_child_run_tx-IsRevived supply id run db c found free =
    let u = updated supply id run db c found free in
    let after =
      update_commands (λ c. c.command_id == id && is_none c.child_run_id) (bound_to supply run)
        db in
    let matches = find-holds (λ c. c.command_id == id) db.commands found in
    let is_id = (text_beq_iff c.command_id id).0 matches in
    let own = (text_beq_iff c.conversation_id c.conversation_id).1 refl in
    (
      bound_to supply run c,
      after,
      ground arith,
      u,
      record {
        bound = subst (λ x. load_command after x ≡ some (bound_to supply run c)) (sym is_id) u;
        others = λ j. elim (untouched supply id run db j) [
          | inl same ↦ inl (same ∙ sym is_id)
          | inr e ↦ inr e
        ];
        tables = refl;
        in_flight = rw own at (
            count_where-update_where_rises
              (λ r. r.conversation_id == c.conversation_id && is_in_flight r.status)
              (λ r. r.command_id == id && is_none r.child_run_id) (λ r. r.command_id == id)
              (bound_to supply run) db.commands (λ x s k. ground arith) found (ground arith)
              (ground arith));
      },
    )

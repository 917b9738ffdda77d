-- ===== src/Ledger/Refinement/Runs.antt =====
-- The operations on conversations, runs, attempts and messages make steps of the specification.
use model_lib.Prelude.{
  ◌≡◌, refl, false, Option, some, Text, ok, Ensures->>=, Ensures->>, if◌then◌else◌, none, arith,
  ◌==◌, text_eq,
}
use model_lib.Run.Ids.{RunId}
use model_lib.Ledger.Models.{
  ConversationId, AttemptId, Payload, RunStatus, is_terminal, AttemptStatus, EventType, RunRow,
  RunAttempt, NewRun, NewEvent,
}
use model_lib.Ledger.Tables.{Db, load_attempt, attempt_is_running}
use model_lib.Ledger.Events.{Supply, or_else}
use model_lib.Ledger.Errors.{LedgerError, Entity}
use model_lib.Ledger.Runs.{
  new_conversation, add_conversation, create_conversation_tx, add_run, create_run_inner, new_run,
  with_status, require_run, set_run_status_tx, set_provider_session_tx,
}
use model_lib.Ledger.Attempts.{new_attempt, add_attempt, create_attempt_tx, set_attempt_status_tx}
use model_lib.Ledger.Messages.{
  add_message, append_message_tx, message, append_user_message_tx, append_system_note_tx,
}
use model_lib.Ledger.Idempotency.{scope_append_user_message, scope_append_system_note}
use model_lib.Ledger.Machine.{view, Steps}
use model_lib.Ledger.Transitions.{
  validate_run_transition, validate_attempt_transition, attempt_transition_allowed,
}
use model_lib.Ledger.Steps.Rows.{with_rows, change_attempts}
use model_lib.Ledger.Steps.Status.{attempts_after, transition-Steps, keep-Steps, update_where-fewer}
use model_lib.Ledger.Refinement.{
  Advances, Advances-insert, Advances-emit, Advances-done, read_back-Advances, replay_or-Advances,
  emit_event-Advances, insert_conversation-Ensures, record_optional-Ensures, insert_run-Ensures,
  insert_attempt-Ensures, running_view, require_run-status, Advances-update,
}

-- The rules for the links of an operation.
ruleset links = (
  Ensures->>=, Ensures->>, Advances-insert, Advances-emit, Advances-done, read_back-Advances,
  replay_or-Advances, emit_event-Advances, insert_conversation-Ensures, record_optional-Ensures,
)

validated_stops :
    (from target : AttemptStatus)
    → validate_attempt_transition from target ≡ ok tt
    → attempt_is_running target ≡ false
unfolding validate_attempt_transition attempt_transition_allowed attempt_is_running
validated_stops from target h = ground arith

module _ (P : Type 0) where
  add_conversation-Advances :
      (db : Db) (supply : Supply) (digest : Text) (key : Option Text)
      → Advances P db (add_conversation db supply digest key)
  unfolding add_conversation
  add_conversation-Advances db supply digest key =
      Advances-insert (insert_conversation-Ensures db (new_conversation supply)) (λ db1.
        Advances-emit (emit_event-Advances db1 _ supply.now) (λ (e, db2) _.
          Advances-insert (record_optional-Ensures db2 _ key digest supply.fresh_id supply.now)
            (λ db3. Advances-done db3 _)))

  pub create_conversation_tx-Advances :
      (supply : Supply) (key : Option Text) (digest : Text) (db : Db)
      → Advances P db (create_conversation_tx supply key digest db)
  unfolding create_conversation_tx
  create_conversation_tx-Advances supply key digest db = search (links, add_conversation-Advances)

  pub add_attempt-Advances :
      (supply : Supply) (id : RunId) (db : Db)
      → (view id db).status ≡ some RunStatus.running
      → Advances P db (add_attempt supply id db)
  unfolding add_attempt new_attempt
  add_attempt-Advances supply id db status =
      search (Ensures->>, Advances-insert, insert_attempt-Ensures, Advances-done, status)

  pub create_attempt_tx-Advances :
      (supply : Supply) (id : RunId) (db : Db) → Advances P db (create_attempt_tx supply id db)
  unfolding create_attempt_tx
  create_attempt_tx-Advances supply id db =
      search (Ensures->>=, Ensures->>, add_attempt-Advances, running_view)

  add_run-Advances :
      (db : Db) (supply : Supply) (request : NewRun) (id : RunId) (scope : Text) (key : Option Text)
      (digest : Text)
      → Advances P db (add_run db supply request id scope key digest)
  unfolding add_run new_run
  add_run-Advances db supply request id scope key digest =
      Advances-insert (insert_run-Ensures db (new_run supply request id) refl) (λ db1.
        Advances-emit (emit_event-Advances db1 _ supply.now) (λ (e, db2) _.
          Advances-insert (record_optional-Ensures db2 scope key digest id supply.now)
            (λ db3. Advances-done db3 _)))

  pub create_run_inner-Advances :
      (supply : Supply) (request : NewRun) (id : Option RunId) (scope : Text) (key : Option Text)
      (digest : Text) (db : Db)
      → Advances P db (create_run_inner supply request id scope key digest db)
  unfolding create_run_inner
  create_run_inner-Advances supply request id scope key digest db = search (links, add_run-Advances)

  add_message-Advances :
      (db : Db) (supply : Supply) (event : NewEvent) (scope : Text) (key : Option Text)
      (digest : Text)
      → Advances P db (add_message db supply event scope key digest)
  unfolding add_message
  add_message-Advances db supply event scope key digest =
      Advances-emit (emit_event-Advances db event supply.now) (λ (e, db1) _.
        Advances-insert (record_optional-Ensures db1 scope key digest e.event_id supply.now)
          (λ db2. Advances-done db2 _))

  pub append_message_tx-Advances :
      (supply : Supply) (event : NewEvent) (scope : Text) (key : Option Text) (digest : Text)
      (db : Db)
      → Advances P db (append_message_tx supply event scope key digest db)
  unfolding append_message_tx
  append_message_tx-Advances supply event scope key digest db = search (links, add_message-Advances)

  pub append_user_message_tx-Advances :
      (supply : Supply) (conversation : ConversationId) (payload : Payload) (run : Option RunId)
      (key : Option Text) (digest : Text) (db : Db)
      → Advances P db (append_user_message_tx supply conversation payload run key digest db)
  unfolding append_user_message_tx
  append_user_message_tx-Advances supply conversation payload run key digest =
      append_message_tx-Advances supply
        (message supply conversation run none EventType.user_message payload)
        scope_append_user_message key digest

  pub append_system_note_tx-Advances :
      (supply : Supply) (conversation : ConversationId) (run : Option RunId)
      (attempt : Option AttemptId) (payload : Payload) (key digest : Text) (db : Db)
      → Advances P db (append_system_note_tx supply conversation run attempt payload key digest db)
  unfolding append_system_note_tx
  append_system_note_tx-Advances supply conversation run attempt payload key digest =
      append_message_tx-Advances supply
        (message supply conversation run attempt EventType.system_note payload)
        scope_append_system_note (some key) digest

  set_run_status-rest :
      (supply : Supply) (id : RunId) (target : RunStatus) (event_type : EventType) (db : Db)
      (current : RunRow)
      → require_run db id ≡ ok current
      → validate_run_transition current.status target ≡ ok tt
      → Steps P db (
          with_rows db
            (with_status target (if is_terminal target then some supply.now else none) id db.runs)
            (attempts_after target supply.now id db.attempts))
  unfolding validate_run_transition
  set_run_status-rest supply id target event_type db current found valid =
      transition-Steps db id current.status target _ supply.now
        (require_run-status db id current found) (ground arith)

  pub set_run_status_tx-Advances :
      (supply : Supply) (id : RunId) (target : RunStatus) (event_type : EventType) (db : Db)
      → Advances P db (set_run_status_tx supply id target event_type db)
  unfolding set_run_status_tx
  set_run_status_tx-Advances supply id target event_type db = Ensures->>= (λ current found.
      Ensures->> (λ valid.
        Advances-update (set_run_status-rest supply id target event_type db current found valid) (
          Advances-emit (emit_event-Advances _ _ supply.now)
            (λ (e, db2) _. read_back-Advances db2 _ _))))

  pub set_provider_session_tx-Advances :
      (id : RunId) (session : Text) (db : Db)
      → Advances P db (set_provider_session_tx id session db)
  unfolding set_provider_session_tx
  set_provider_session_tx-Advances id session db =
      Ensures->>= (λ (current : RunRow) (found : require_run db id ≡ ok current).
        Advances-update
          (keep-Steps db id (λ r. record r { provider_session_id = some session }) (λ r. refl)
            (λ r. refl))
          (read_back-Advances _ _ _))

  pub set_attempt_status_tx-Advances :
      (supply : Supply) (id : AttemptId) (target : AttemptStatus) (db : Db)
      → Advances P db (set_attempt_status_tx supply id target db)
  unfolding set_attempt_status_tx
  set_attempt_status_tx-Advances supply id target db =
      Ensures->>=
        (λ (current : RunAttempt)
            (found : or_else (load_attempt db id) (LedgerError.not_found Entity.attempt id)
              ≡ ok current).
          Ensures->> (λ (valid : validate_attempt_transition current.status target ≡ ok tt).
            Advances-update
              (change_attempts db _ (
                update_where-fewer (λ a. a.attempt_id == id) target _ db.attempts
                  (validated_stops current.status target valid)))
              (read_back-Advances _ _ _)))

-- ===== src/Ledger/Refinement/Recovery.antt =====
-- The operations on interrupted runs make steps of the specification.
use model_lib.Prelude.{
  ℕ, suc, ◌≤◌, ◌≡◌, refl, sym, ap, ◌∙◌, Bool, true, false, not, ◌&&◌, Option, none, some, List, [],
  ◌∷◌, text_eq, ◌==◌, arith, if◌then◌else◌, ok, reject, Ensures->>=, Ensures->>,
}
use model_lib.Run.Ids.{RunId}
use model_lib.Ledger.Models.{
  AttemptId, RunStatus, is_terminal, AttemptStatus, EventType, RunRow, RunAttempt, RecoveryState,
}
use model_lib.Ledger.Errors.{LedgerError, Entity}
use model_lib.Ledger.Transitions.{validate_run_transition}
use model_lib.Ledger.Tables.{
  Db, load_attempt, attempt_is_running, is_interrupted, running_count, update_where,
}
use model_lib.Ledger.Events.{Supply, or_else}
use model_lib.Ledger.Runs.{
  require_run, with_status, close_attempts, terminal_attempt_status, leaves_running,
}
use model_lib.Ledger.Recovery.{
  interrupt_runs, interrupt_attempts, mark_interrupted_tx, resume_interrupted_run_tx, repair_event,
  last_interrupted, settle_attempt, repair_interrupted_run_to_terminal_tx,
}
use model_lib.Ledger.Machine.{view, Steps}
use model_lib.Ledger.Steps.{Steps-refl}
use model_lib.Ledger.Steps.Rows.{with_rows, update_run, change_attempts}
use model_lib.Ledger.Steps.Status.{
  leave-Steps, resume-Steps, repair-Steps, update_where-fewer, update_run-view,
}
use model_lib.Ledger.Refinement.{
  Advances, Advances-emit, Advances-update, Advances-done, read_back-Advances, emit_event-Advances,
  emit_event-view, require_run-status,
}
use model_lib.Ledger.Refinement.Runs.{add_attempt-Advances}

is_interrupted-status : (s : RunStatus) → is_interrupted s ≡ true → s ≡ RunStatus.interrupted
unfolding is_interrupted
is_interrupted-status s h = ground arith

interrupted_view :
    (db : Db) (id : RunId) (run : RunRow) (e : LedgerError)
    → require_run db id ≡ ok run
    → reject (not (is_interrupted run.status)) e ≡ ok tt
    → (view id db).status ≡ some RunStatus.interrupted
interrupted_view db id run e p g =
    require_run-status db id run p ∙ ap some (is_interrupted-status run.status (ground arith))

settle_attempt-fewer :
    (target : AttemptStatus) (now : ℕ) (last : Option RunAttempt) (attempts : List RunAttempt)
    → attempt_is_running target ≡ false
    → (j : RunId)
    → running_count j (settle_attempt target now last attempts) ≤ running_count j attempts
unfolding settle_attempt
settle_attempt-fewer target now none attempts h j = omega arith
settle_attempt-fewer target now (some last) attempts h j =
    update_where-fewer (λ a. a.attempt_id == last.attempt_id) target (some now) attempts h j

repair_target :
    (target : RunStatus) (e : EventType)
    → repair_event target ≡ ok e
    → (is_terminal target ≡ true) × (attempt_is_running (terminal_attempt_status target) ≡ false)
unfolding repair_event is_terminal attempt_is_running terminal_attempt_status
repair_target target e h = ground arith

interrupt_run-Steps :
    {P : Type 0} (db : Db) (id : RunId) (now : ℕ) (current : RunRow)
    → require_run db id ≡ ok current
    → validate_run_transition current.status RunStatus.interrupted ≡ ok tt
    → Steps P db (
        with_rows db
          (update_run id (λ r. record r { status = RunStatus.interrupted }) db.runs)
          (close_attempts AttemptStatus.interrupted now id db.attempts))
unfolding validate_run_transition terminal_attempt_status leaves_running is_terminal is_interrupted
interrupt_run-Steps db id now current found valid =
    leave-Steps db id (λ r. record r { status = RunStatus.interrupted }) current.status
      RunStatus.interrupted now (λ r. refl) (λ r. refl) (require_run-status db id current found)
      (ground arith) refl

module _ (P : Type 0) where
  interrupt_runs-Advances :
      (supply : ℕ → Supply) (ids : List RunId) (db : Db)
      → Advances P db (interrupt_runs supply ids db)
  unfolding interrupt_runs
  interrupt_runs-Advances supply [] db = Advances-done db tt
  interrupt_runs-Advances supply (id ∷ ids) db =
      Ensures->>= (λ (current : RunRow) (found : require_run db id ≡ ok current).
        Ensures->>
          (λ (valid : validate_run_transition current.status RunStatus.interrupted ≡ ok tt).
            Advances-update (interrupt_run-Steps db id (supply 0).now current found valid) (
              Advances-emit (emit_event-Advances _ _ (supply 0).now)
                (λ (e, db2) _. interrupt_runs-Advances (λ n. supply (suc n)) ids db2))))

  interrupt_attempt-Steps :
      (b : Bool) (db : Db) (id : AttemptId) (now : ℕ)
      → Steps P db (
          if b
          then record db {
            attempts =
                update_where
                  (λ a. a.attempt_id == id && attempt_is_running a.status)
                  (λ a. record a { status = AttemptStatus.interrupted; finished_at = some now })
                  db.attempts;
          }
          else db)
  unfolding attempt_is_running
  interrupt_attempt-Steps true db id now = change_attempts db _ (
      update_where-fewer (λ a. a.attempt_id == id && attempt_is_running a.status)
        AttemptStatus.interrupted (some now) db.attempts refl)
  interrupt_attempt-Steps false db id now = Steps-refl db

  interrupt_attempts-Advances :
      (supply : ℕ → Supply) (ids : List AttemptId) (db : Db)
      → Advances P db (interrupt_attempts supply ids db)
  unfolding interrupt_attempts
  interrupt_attempts-Advances supply [] db = Advances-done db tt
  interrupt_attempts-Advances supply (id ∷ ids) db =
      Ensures->>=
        (λ (current : RunAttempt)
            (found : or_else (load_attempt db id) (LedgerError.not_found Entity.attempt id)
              ≡ ok current).
          Advances-update
            (interrupt_attempt-Steps (attempt_is_running current.status) db id (supply 0).now)
            (interrupt_attempts-Advances (λ n. supply (suc n)) ids _))

  pub mark_interrupted_tx-Advances :
      (supply later : ℕ → Supply) (state : RecoveryState) (db : Db)
      → Advances P db (mark_interrupted_tx supply later state db)
  unfolding mark_interrupted_tx
  mark_interrupted_tx-Advances supply later state db =
      Advances-emit (interrupt_runs-Advances supply state.interrupted_runs db)
        (λ (_, db1) _. interrupt_attempts-Advances later state.interrupted_attempts db1)

  pub resume_interrupted_run_tx-Advances :
      (supply : Supply) (id : RunId) (db : Db)
      → Advances P db (resume_interrupted_run_tx supply id db)
  unfolding resume_interrupted_run_tx with_status
  resume_interrupted_run_tx-Advances supply id db =
      Ensures->>= (λ (current : RunRow) (found : require_run db id ≡ ok current).
        Ensures->>
          (λ (allowed : reject (not (is_interrupted current.status)) (LedgerError.invalid_state id)
              ≡ ok tt).
            let status =
              interrupted_view db id current (LedgerError.invalid_state id) found allowed in
            Advances-update (resume-Steps db id supply.now status) (
              Advances-emit (emit_event-Advances _ _ supply.now) (λ (e, db1) emitted.
                add_attempt-Advances P supply id db1 (
                  sym (ap (λ v. v.status) (emit_event-view _ _ supply.now (e, db1) id emitted))
                  ∙ update_run-view db id
                      (λ r. record r { status = RunStatus.running; finished_at = none }) _
                      RunStatus.interrupted RunStatus.running (λ r. refl) (λ r. refl) status)))))

  pub repair_interrupted_run_to_terminal_tx-Advances :
      (supply : Supply) (id : RunId) (target : RunStatus) (db : Db)
      → Advances P db (repair_interrupted_run_to_terminal_tx supply id target db)
  unfolding repair_interrupted_run_to_terminal_tx
  repair_interrupted_run_to_terminal_tx-Advances supply id target db =
      Ensures->>= (λ (event_type : EventType) (eligible : repair_event target ≡ ok event_type).
        Ensures->>= (λ (current : RunRow) (found : require_run db id ≡ ok current).
          Ensures->>
            (λ (allowed : reject (not (is_interrupted current.status))
                  (LedgerError.invalid_state id)
                ≡ ok tt).
              let (terminal, stops) = repair_target target event_type eligible in
              Advances-update
                (repair-Steps db id target (some supply.now) _
                  (settle_attempt-fewer (terminal_attempt_status target) supply.now
                    (last_interrupted id db.attempts) db.attempts stops)
                  (interrupted_view db id current (LedgerError.invalid_state id) found allowed)
                  terminal)
                (Advances-emit (emit_event-Advances _ _ supply.now)
                  (λ (e, db2) _. read_back-Advances db2 _ _)))))

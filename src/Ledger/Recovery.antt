-- ===== src/Ledger/Recovery.antt =====
-- crates/o7-ledger/src/recovery.rs and sqlite.rs: what a process does about the runs that a stopped
-- one left running: the scan, `mark_interrupted`, and the two ways out of `interrupted`.
use model_lib.Prelude.{
  ℕ, suc, not, ◌&&◌, Option, none, some, List, [], ◌∷◌, text_eq, ◌==◌, if◌then◌else◌, Result, ok,
  err, reject, ◌>>◌, ◌>>=◌, filter, map,
}
use model_lib.Run.Ids.{RunId}
use model_lib.Ledger.Models.{
  AttemptId, Millis, RunStatus, AttemptStatus, EventType, RunRow, RunAttempt, Payload,
  RecoveryState, run_as_str,
}
use model_lib.Ledger.Errors.{Entity, LedgerError}
use model_lib.Ledger.Transitions.{validate_run_transition}
use model_lib.Ledger.Tables.{
  Db, update_where, is_running, is_interrupted, attempt_is_running, load_run, load_attempt,
  latest_from, attempt_is_interrupted,
}
use model_lib.Ledger.Events.{Supply, or_else, emit_event, run_event, read_back}
use model_lib.Ledger.Runs.{require_run, with_status, close_attempts, terminal_attempt_status}
use model_lib.Ledger.Attempts.{add_attempt}

-- The run loop of `mark_interrupted`; the supply is that of each turn. `finished_at` stays.
unfoldable pub interrupt_runs : (ℕ → Supply) → List RunId → Db → Result LedgerError (Unit {0} × Db)
unfolding close_attempts
interrupt_runs supply [] db = ok (tt, db)
interrupt_runs supply (id ∷ ids) db = do
  current ← require_run db id
  validate_run_transition current.status RunStatus.interrupted
  let runs =
      update_where (λ r. r.run_id == id) (λ r. record r { status = RunStatus.interrupted }) db.runs
  let attempts = close_attempts AttemptStatus.interrupted (supply 0).now id db.attempts
  (event, db2) ←
      emit_event (record db { runs = runs; attempts = attempts })
        (run_event (supply 0).event_id current.conversation_id id EventType.run_interrupted
          Payload.recovery)
        (supply 0).now
  interrupt_runs (λ n. supply (suc n)) ids db2

-- The attempt loop of `mark_interrupted`.
unfoldable pub interrupt_attempts :
    (ℕ → Supply) → List AttemptId → Db → Result LedgerError (Unit {0} × Db)
interrupt_attempts supply [] db = ok (tt, db)
interrupt_attempts supply (id ∷ ids) db = do
  current ← or_else (load_attempt db id) (LedgerError.not_found Entity.attempt id)
  let closed =
      update_where (λ a. a.attempt_id == id && attempt_is_running a.status)
        (λ a. record a { status = AttemptStatus.interrupted; finished_at = some (supply 0).now })
        db.attempts
  interrupt_attempts (λ n. supply (suc n)) ids
      (if attempt_is_running current.status then record db { attempts = closed } else db)

unfoldable pub mark_interrupted_tx :
    (ℕ → Supply) → (ℕ → Supply) → RecoveryState → Db → Result LedgerError (Unit {0} × Db)
unfolding interrupt_runs interrupt_attempts
mark_interrupted_tx supply later state db = do
  (_, db1) ← interrupt_runs supply state.interrupted_runs db
  interrupt_attempts later state.interrupted_attempts db1

-- recovery.rs: `scan`
unfoldable pub scan : Db → RecoveryState
unfolding is_running attempt_is_running
scan db = record {
  interrupted_runs = map (λ r. r.run_id) (filter (λ r. is_running r.status) db.runs);
  interrupted_attempts =
      map (λ a. a.attempt_id) (filter (λ a. attempt_is_running a.status) db.attempts);
}

-- The only way from `interrupted` back to `running`.
unfoldable pub resume_interrupted_run_tx :
    Supply → RunId → Db → Result LedgerError (RunAttempt × Db)
unfolding close_attempts with_status is_interrupted
resume_interrupted_run_tx supply id db = do
  current ← require_run db id
  reject (not (is_interrupted current.status)) (LedgerError.invalid_state id)
  (event, db1) ←
      emit_event
        (record db {
          attempts = close_attempts AttemptStatus.interrupted supply.now id db.attempts;
          runs = with_status RunStatus.running none id db.runs;
        })
        (run_event supply.event_id current.conversation_id id EventType.run_started Payload.resumed)
        supply.now
  add_attempt supply id db1

-- The event of a repair, for the targets that a repair may have.
unfoldable pub repair_event : RunStatus → Result LedgerError EventType
repair_event RunStatus.completed = ok EventType.run_completed
repair_event RunStatus.failed = ok EventType.run_failed
repair_event RunStatus.blocked = ok EventType.run_blocked
repair_event RunStatus.error = ok EventType.run_errored
repair_event target = err (LedgerError.invalid_state (run_as_str target))

-- `SELECT .. WHERE run_id = ?3 AND status = 'interrupted' ORDER BY attempt_number DESC LIMIT 1`
unfoldable pub last_interrupted : RunId → List RunAttempt → Option RunAttempt
unfolding latest_from attempt_is_interrupted
last_interrupted id attempts =
    latest_from (λ a. a.run_id == id && attempt_is_interrupted a.status) (λ a. a.attempt_number)
      none attempts

-- `UPDATE run_attempt SET .. WHERE attempt_id = (..)`: a NULL selects no row.
unfoldable pub settle_attempt :
    AttemptStatus → Millis → Option RunAttempt → List RunAttempt → List RunAttempt
settle_attempt target now none attempts = attempts
settle_attempt target now (some last) attempts =
    update_where (λ a. a.attempt_id == last.attempt_id)
      (λ a. record a { status = target; finished_at = some now }) attempts

unfoldable pub repair_interrupted_run_to_terminal_tx :
    Supply → RunId → RunStatus → Db → Result LedgerError (RunRow × Db)
unfolding repair_event with_status last_interrupted settle_attempt
repair_interrupted_run_to_terminal_tx supply id target db = do
  event_type ← repair_event target
  current ← require_run db id
  reject (not (is_interrupted current.status)) (LedgerError.invalid_state id)
  let attempts =
      settle_attempt (terminal_attempt_status target) supply.now (last_interrupted id db.attempts)
        db.attempts
  (event, db2) ←
      emit_event
        (record db { runs = with_status target (some supply.now) id db.runs; attempts = attempts })
        (run_event supply.event_id current.conversation_id id event_type Payload.repaired)
        supply.now
  read_back db2 (load_run db2 id) (LedgerError.not_found Entity.run id)

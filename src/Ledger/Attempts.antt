-- ===== src/Ledger/Attempts.antt =====
-- crates/o7-ledger/src/sqlite.rs: the attempts of a run.
use model_lib.Prelude.{
  ℕ, suc, not, none, some, List, text_eq, ◌==◌, if◌then◌else◌, Result, ok, reject, ◌>>◌, ltb, leb,
  ◌^◌, ◌>>=◌,
}
use model_lib.Run.Ids.{RunId}
use model_lib.Ledger.Models.{AttemptId, AttemptStatus, RunAttempt}
use model_lib.Ledger.Errors.{Entity, LedgerError}
use model_lib.Ledger.Transitions.{validate_attempt_transition}
use model_lib.Ledger.Tables.{
  Db, update_where, is_running, attempt_is_running, load_attempt, insert_attempt, running_count,
  max_where,
}
use model_lib.Ledger.Events.{Supply, or_else, read_back}
use model_lib.Ledger.Runs.{require_run}

-- `SELECT COALESCE(MAX(attempt_number), 0) + 1 FROM run_attempt WHERE run_id = ?1`
unfoldable pub next_number : RunId → List RunAttempt → ℕ
next_number id attempts = suc (max_where (λ a. a.run_id == id) (λ a. a.attempt_number) attempts)

unfoldable pub new_attempt : Supply → RunId → ℕ → RunAttempt
new_attempt supply id number = record {
  attempt_id = supply.fresh_id;
  run_id = id;
  attempt_number = number;
  status = AttemptStatus.running;
  started_at = supply.now;
  finished_at = none;
}

-- The end of `create_attempt` and of `resume_interrupted_run`; an `attempt_number` is a `u32`.
unfoldable pub add_attempt : Supply → RunId → Db → Result LedgerError (RunAttempt × Db)
unfolding next_number new_attempt
add_attempt supply id db = do
  reject (leb (2 ^ 32) (next_number id db.attempts)) (LedgerError.integrity id)
  db1 ← insert_attempt db (new_attempt supply id (next_number id db.attempts))
  ok (new_attempt supply id (next_number id db.attempts), db1)

unfoldable pub create_attempt_tx : Supply → RunId → Db → Result LedgerError (RunAttempt × Db)
unfolding add_attempt is_running
create_attempt_tx supply id db = do
  run ← require_run db id
  reject (not (is_running run.status)) (LedgerError.invalid_state id)
  reject (ltb 0 (running_count id db.attempts)) (LedgerError.invalid_state id)
  add_attempt supply id db

unfoldable pub set_attempt_status_tx :
    Supply → AttemptId → AttemptStatus → Db → Result LedgerError (RunAttempt × Db)
unfolding attempt_is_running
set_attempt_status_tx supply id target db = do
  current ← or_else (load_attempt db id) (LedgerError.not_found Entity.attempt id)
  validate_attempt_transition current.status target
  let finished = if attempt_is_running target then none else some supply.now
  let db1 = record db {
    attempts =
        update_where (λ a. a.attempt_id == id)
          (λ a. record a { status = target; finished_at = finished }) db.attempts;
  }
  read_back db1 (load_attempt db1 id) (LedgerError.not_found Entity.attempt id)

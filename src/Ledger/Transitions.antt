-- ===== src/Ledger/Transitions.antt =====
-- crates/o7-ledger/src/transitions.rs: which change of a status the ordinary operations may make.
use model_lib.Prelude.{Bool, true, false, not, Result, reject}
use model_lib.Ledger.Models.{RunStatus, AttemptStatus}
use model_lib.Ledger.Errors.{LedgerError}

unfoldable pub run_transition_allowed : RunStatus → RunStatus → Bool
run_transition_allowed RunStatus.queued RunStatus.running = true
run_transition_allowed RunStatus.running RunStatus.completed = true
run_transition_allowed RunStatus.running RunStatus.failed = true
run_transition_allowed RunStatus.running RunStatus.cancelled = true
run_transition_allowed RunStatus.running RunStatus.interrupted = true
run_transition_allowed RunStatus.running RunStatus.blocked = true
run_transition_allowed RunStatus.running RunStatus.error = true
run_transition_allowed _ _ = false

unfoldable pub validate_run_transition : RunStatus → RunStatus → Result LedgerError (Unit {0})
validate_run_transition from to =
    reject (not (run_transition_allowed from to)) (LedgerError.forbidden_run from to)

unfoldable pub attempt_transition_allowed : AttemptStatus → AttemptStatus → Bool
attempt_transition_allowed AttemptStatus.running AttemptStatus.completed = true
attempt_transition_allowed AttemptStatus.running AttemptStatus.failed = true
attempt_transition_allowed AttemptStatus.running AttemptStatus.cancelled = true
attempt_transition_allowed AttemptStatus.running AttemptStatus.interrupted = true
attempt_transition_allowed AttemptStatus.running AttemptStatus.blocked = true
attempt_transition_allowed AttemptStatus.running AttemptStatus.error = true
attempt_transition_allowed _ _ = false

unfoldable pub validate_attempt_transition :
    AttemptStatus → AttemptStatus → Result LedgerError (Unit {0})
validate_attempt_transition from to =
    reject (not (attempt_transition_allowed from to)) (LedgerError.forbidden_attempt from to)

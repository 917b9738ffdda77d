-- ===== src/Run/Reduce.antt =====
-- crates/o7-run/src/reduce.rs: the fold of one event, and of a stream.
use model_lib.Prelude.{
  ℕ, ◌+◌, ◌%◌, ◌^◌, Bool, true, false, not, ◌&&◌, Option, none, some, List, [], ◌∷◌, text_eq,
  nat_eq, ◌==◌, contains, Result, ok, err, reject, ◌>>=◌, ◌>>◌, text_ord, set_insert,
}
use model_lib.Run.Ids.{RunId, Sha256}
use model_lib.Run.Contract.{ArtifactKind, RunContract, ArtifactRef}
use model_lib.Run.Event.{RunEventKind, RunEvent, name, run_event_schema_version}
use model_lib.Run.Encoding.{digest_is_consistent}
use model_lib.Run.State.{RunPhase, RunState, is_sealed, initial}
use model_lib.Run.Errors.{ReduceError}
use model_lib.Run.Admission.{validate_artifact, validate_contract}
use model_lib.Run.Handlers.{apply_with_contract}

unfoldable pub is_not_started : RunPhase → Bool
is_not_started RunPhase.not_started = true
is_not_started RunPhase.running = false
is_not_started RunPhase.sealed = false

unfoldable pub is_run_started : RunEventKind → Bool
is_run_started (RunEventKind.run_started contract task) = true
is_run_started _ = false

-- The contract is bound at the start; `apply_kind` takes it out and puts it back.
unfoldable pub start_run :
    RunState → RunId → ℕ → RunContract → ArtifactRef → Result ReduceError RunState
unfolding is_not_started
start_run state run seq contract task = do
  reject (not (is_not_started state.phase)) (ReduceError.duplicate_start seq)
  validate_contract contract seq
  validate_artifact task ArtifactKind.task seq
  ok (record state {
    run_id = some run;
    contract = some contract;
    task = some task;
    phase = RunPhase.running;
  })

unfoldable pub apply_bound :
    RunState → Option RunContract → ℕ → RunEventKind → Result ReduceError RunState
apply_bound state none seq kind = err (ReduceError.missing_run_started (name kind) seq)
apply_bound state (some contract) seq kind = apply_with_contract state contract seq kind

unfoldable pub apply_kind : RunState → RunId → ℕ → RunEventKind → Result ReduceError RunState
apply_kind state run seq (RunEventKind.run_started contract task) =
    start_run state run seq contract task
apply_kind state run seq kind = apply_bound state state.contract seq kind

-- `last + 1` on u64 wraps in a release build.
unfoldable pub check_sequence : Option ℕ → ℕ → Result ReduceError (Unit {0})
check_sequence none seq = reject (not (seq == 0)) (ReduceError.out_of_order 0 seq)
check_sequence (some last) seq = do
  reject (seq == last) (ReduceError.duplicate_sequence seq)
  reject (not (seq == (last + 1) % 2 ^ 64)) (ReduceError.out_of_order ((last + 1) % 2 ^ 64) seq)

unfoldable pub check_run_id : Option RunId → RunId → ℕ → Result ReduceError (Unit {0})
check_run_id none run seq = ok tt
check_run_id (some expected) run seq =
    reject (not (run == expected)) (ReduceError.run_id_mismatch seq expected run)

-- The bookkeeping after an event was applied.
unfoldable pub advance : RunState → RunEvent → RunState
advance state e = record state {
  seen_event_ids = set_insert e.event_id state.seen_event_ids;
  last_sequence = some e.sequence;
  last_event_digest = e.event_digest;
}

module _ (sha : Sha256) where
  -- Steps 1 to 3: what is checked of the envelope before the payload is looked at.
  unfoldable pub check_envelope : RunState → RunEvent → Result ReduceError (Unit {0})
  check_envelope state e = do
    reject (is_sealed state) (ReduceError.event_after_seal e.sequence)
    reject (not (e.schema_version == run_event_schema_version))
        (ReduceError.unsupported_schema e.sequence e.schema_version run_event_schema_version)
    reject (not (digest_is_consistent sha e)) (ReduceError.inconsistent_digest e.sequence)
    check_sequence state.last_sequence e.sequence
    reject (not (e.previous_event_digest == state.last_event_digest))
        (ReduceError.broken_chain e.sequence)
    check_run_id state.run_id e.run_id e.sequence
    reject (contains state.seen_event_ids e.event_id)
        (ReduceError.duplicate_event_id e.sequence e.event_id)
    reject (is_not_started state.phase && not (is_run_started e.kind))
        (ReduceError.missing_run_started (name e.kind) e.sequence)

  unfoldable pub reduce : RunState → RunEvent → Result ReduceError RunState
  reduce state e = do
    check_envelope state e
    applied ← apply_kind state e.run_id e.sequence e.kind
    ok (advance applied e)

  unfoldable pub reduce_from : RunState → List RunEvent → Result ReduceError RunState
  reduce_from state [] = ok state
  reduce_from state (e ∷ es) = do next ← reduce state e; reduce_from next es

  unfoldable pub reduce_all : List RunEvent → Result ReduceError RunState
  reduce_all events = reduce_from initial events

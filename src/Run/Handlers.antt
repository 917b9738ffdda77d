-- ===== src/Run/Handlers.antt =====
-- crates/o7-run/src/reduce.rs: `apply_with_contract`, a function for each arm of its match.
-- The source mutates the state behind `&mut` and gives it up when an arm fails; here an arm
-- returns the new state or the error.
use Prim.Native.Nat.{Ordering}
use model_lib.Prelude.{
  ℕ, zero, suc, Bool, true, false, not, ◌&&◌, Option, none, some, List, [], ◌∷◌, ◌++◌, Text,
  text_eq, ◌==◌, is_some, is_none, any, Result, ok, err, reject, ◌>>◌, text_ord, map_get,
  map_insert,
}
use model_lib.Run.Ids.{RunId, GateId, Digest256}
use model_lib.Run.Contract.{
  ArtifactKind, ArtifactRef, GateOutcome, PolicyOutcome, ExecutionSubject, SandboxEvidenceOutcome,
  PolicyProtectedSubject, RunContract, execution_subject_eq,
}
use model_lib.Run.Event.{AgentOutcome, RunEventKind}
use model_lib.Run.State.{
  RunPhase, GateProgress, AgentLifecycle, SandboxEvidenceKey, SandboxEvidenceEntry, RunState,
}
use model_lib.Run.Errors.{ReduceError}
use model_lib.Run.Admission.{
  gate_obligation, is_agent_required, validate_artifact, check_protected_start,
}
use model_lib.Run.Verdicts.{compute_verdict}

unfoldable pub is_not_observed : AgentLifecycle → Bool
is_not_observed AgentLifecycle.not_observed = true
is_not_observed AgentLifecycle.started = false
is_not_observed (AgentLifecycle.exited outcome) = false

unfoldable pub has_exited : AgentLifecycle → Bool
has_exited AgentLifecycle.not_observed = false
has_exited AgentLifecycle.started = false
has_exited (AgentLifecycle.exited outcome) = true

unfoldable pub is_failed_to_start : AgentOutcome → Bool
is_failed_to_start (AgentOutcome.failed_to_start reason) = true
is_failed_to_start _ = false

module _ (state : RunState) (contract : RunContract) (seq : ℕ) where
  unfoldable pub on_worktree_created : ArtifactRef → Result ReduceError RunState
  on_worktree_created worktree = do
    validate_artifact worktree ArtifactKind.worktree seq
    reject (is_some state.worktree) (ReduceError.duplicate_worktree seq)
    ok (record state { worktree = some worktree })

  unfoldable pub on_patch_captured : ArtifactRef → Result ReduceError RunState
  on_patch_captured patch = do
    validate_artifact patch ArtifactKind.diff seq
    reject (is_some state.patch) (ReduceError.duplicate_patch seq)
    ok (record state { patch = some patch })

  unfoldable pub on_agent_started : Result ReduceError RunState
  on_agent_started = do
    reject (not (is_agent_required contract.agent)) (ReduceError.disallowed_agent_event seq)
    reject (not (is_not_observed state.agent)) (ReduceError.duplicate_agent_start seq)
    reject
        (is_some contract.candidate_state
          && is_some state.command_binding
          && is_none state.candidate_materialized)
        (ReduceError.agent_started_without_candidate_materialization seq)
    check_protected_start state contract PolicyProtectedSubject.agent seq
    ok (record state { agent = AgentLifecycle.started })

  unfoldable pub check_agent_exit : AgentLifecycle → AgentOutcome → Result ReduceError (Unit {0})
  check_agent_exit AgentLifecycle.not_observed outcome =
      reject (not (is_failed_to_start outcome)) (ReduceError.agent_exit_before_start seq)
  check_agent_exit AgentLifecycle.started outcome = ok tt
  check_agent_exit (AgentLifecycle.exited earlier) outcome =
      err (ReduceError.duplicate_agent_exit seq)

  unfoldable pub on_agent_exited : AgentOutcome → Result ReduceError RunState
  on_agent_exited outcome = do
    reject (not (is_agent_required contract.agent)) (ReduceError.disallowed_agent_event seq)
    check_agent_exit state.agent outcome
    ok (record state { agent = AgentLifecycle.exited outcome })

  unfoldable pub on_policy_checked : ArtifactRef → PolicyOutcome → Result ReduceError RunState
  on_policy_checked policy outcome = do
    validate_artifact policy ArtifactKind.policy seq
    reject (not (any (λ o. o.policy.digest == policy.digest) contract.policy_obligations))
        (ReduceError.unknown_policy seq policy.digest)
    reject (any (λ r. r.policy.digest == policy.digest) state.policy_results)
        (ReduceError.duplicate_policy_check seq policy.digest)
    ok (record state {
      policy_results = state.policy_results ++ record { policy = policy; outcome = outcome } ∷ [];
    })

  unfoldable pub on_gate_started : GateId → Result ReduceError RunState
  on_gate_started gate = do
    reject (is_none (gate_obligation contract gate)) (ReduceError.unknown_gate seq gate)
    reject (is_some (map_get gate state.gates)) (ReduceError.duplicate_gate_started seq gate)
    check_protected_start state contract (PolicyProtectedSubject.gate gate) seq
    ok (record state { gates = map_insert gate GateProgress.started state.gates })

  unfoldable pub validate_log : Option ArtifactRef → Result ReduceError (Unit {0})
  validate_log none = ok tt
  validate_log (some log) = validate_artifact log ArtifactKind.gate_log seq

  unfoldable pub check_gate_progress : GateId → Option GateProgress → Result ReduceError (Unit {0})
  check_gate_progress gate none = err (ReduceError.gate_finished_without_start seq gate)
  check_gate_progress gate (some (GateProgress.finished outcome)) =
      err (ReduceError.duplicate_gate_finished seq gate)
  check_gate_progress gate (some GateProgress.started) = ok tt

  unfoldable pub on_gate_finished :
      GateId → GateOutcome → Option ArtifactRef → Result ReduceError RunState
  on_gate_finished gate outcome log = do
    reject (is_none (gate_obligation contract gate)) (ReduceError.unknown_gate seq gate)
    validate_log log
    check_gate_progress gate (map_get gate state.gates)
    ok (record state { gates = map_insert gate (GateProgress.finished outcome) state.gates })

-- The derived `PartialEq` and `Ord` of `SandboxEvidenceKey`: the subject, then the digest.
unfoldable pub key_beq : SandboxEvidenceKey → SandboxEvidenceKey → Bool
key_beq a b = a.subject == b.subject && a.policy_digest == b.policy_digest

unfoldable pub subject_cmp : ExecutionSubject → ExecutionSubject → Ordering
subject_cmp ExecutionSubject.agent ExecutionSubject.agent = Ordering.eq
subject_cmp ExecutionSubject.agent _ = Ordering.lt
subject_cmp (ExecutionSubject.gate g) ExecutionSubject.agent = Ordering.gt
subject_cmp (ExecutionSubject.gate g) (ExecutionSubject.gate h) = text_ord.cmp g h
subject_cmp (ExecutionSubject.gate g) ExecutionSubject.verifier = Ordering.lt
subject_cmp ExecutionSubject.verifier ExecutionSubject.verifier = Ordering.eq
subject_cmp ExecutionSubject.verifier _ = Ordering.gt

unfoldable pub key_cmp : SandboxEvidenceKey → SandboxEvidenceKey → Ordering
unfolding subject_cmp
key_cmp a b = elim (subject_cmp a.subject b.subject) [
  | Ordering.lt ↦ Ordering.lt
  | Ordering.eq ↦ text_ord.cmp a.policy_digest b.policy_digest
  | Ordering.gt ↦ Ordering.gt
]

-- `binary_search_by` on a slice in key order that does not hold the key: where it would stand.
unfoldable pub search_position : SandboxEvidenceKey → List SandboxEvidenceEntry → ℕ
search_position key [] = 0
search_position key (e ∷ es) = elim (key_cmp e.key key) [
  | Ordering.lt ↦ suc (search_position key es)
  | _ ↦ 0
]

-- `Vec::insert`.
unfoldable pub insert_at {ℓ} : {A : Type ℓ} → ℕ → A → List A → List A
insert_at zero a xs = a ∷ xs
insert_at (suc n) a [] = a ∷ []
insert_at (suc n) a (x ∷ xs) = x ∷ insert_at n a xs

module _ (state : RunState) (contract : RunContract) (seq : ℕ) where
  unfoldable pub on_sandbox_evidence :
      ExecutionSubject
      → Digest256
      → ArtifactRef
      → SandboxEvidenceOutcome
      → Result ReduceError RunState
  on_sandbox_evidence subject policy_digest report outcome = do
    validate_artifact report ArtifactKind.sandbox_report seq
    reject
        (not (
          any (λ r. r.subject == subject && r.policy_digest == policy_digest)
            contract.sandbox_requirements))
        (ReduceError.unrequired_sandbox_evidence seq)
    let key : SandboxEvidenceKey = record { subject = subject; policy_digest = policy_digest }
    reject (any (λ e. key_beq e.key key) state.sandbox_evidence)
        (ReduceError.duplicate_sandbox_evidence seq)
    ok (record state {
      sandbox_evidence =
          insert_at (search_position key state.sandbox_evidence)
            (record { key = key; outcome = outcome }) state.sandbox_evidence;
    })

  unfoldable pub on_provider_session : ArtifactRef → Result ReduceError RunState
  on_provider_session receipt = do
    validate_artifact receipt ArtifactKind.provider_session seq
    reject (is_some state.provider_session_receipt)
        (ReduceError.duplicate_provider_session_receipt seq)
    ok (record state { provider_session_receipt = some receipt })

  unfoldable pub on_command_binding : ArtifactRef → Result ReduceError RunState
  on_command_binding binding = do
    validate_artifact binding ArtifactKind.command_binding seq
    reject (is_some state.command_binding) (ReduceError.duplicate_command_binding seq)
    ok (record state { command_binding = some binding })

  unfoldable pub on_candidate_captured : ArtifactRef → Result ReduceError RunState
  on_candidate_captured receipt = do
    validate_artifact receipt ArtifactKind.candidate_state seq
    reject (is_some state.candidate_state) (ReduceError.duplicate_candidate_state seq)
    reject (is_none state.patch) (ReduceError.candidate_capture_before_patch seq)
    reject (is_agent_required contract.agent && not (has_exited state.agent))
        (ReduceError.candidate_capture_before_agent_terminal seq)
    ok (record state { candidate_state = some receipt })

  unfoldable pub on_candidate_materialized :
      RunId → ArtifactRef → ArtifactRef → Text → Result ReduceError RunState
  on_candidate_materialized source_run source_receipt source_patch tree_oid = do
    validate_artifact source_receipt ArtifactKind.candidate_state seq
    validate_artifact source_patch ArtifactKind.candidate_patch seq
    reject (is_some state.candidate_materialized) (ReduceError.duplicate_candidate_materialized seq)
    reject (is_none state.command_binding)
        (ReduceError.candidate_materialization_without_command_binding seq)
    reject (not (is_not_observed state.agent))
        (ReduceError.candidate_materialization_after_agent_started seq)
    ok (record state {
      candidate_materialized = some (record {
        source_run_id = source_run;
        source_receipt = source_receipt;
        source_patch = source_patch;
        materialized_tree_oid = tree_oid;
      });
    })

  unfoldable pub on_run_sealed : Result ReduceError RunState
  on_run_sealed =
      ok (record state { verdict = some (compute_verdict state contract); phase = RunPhase.sealed })

  unfoldable pub apply_with_contract : RunEventKind → Result ReduceError RunState
  apply_with_contract (RunEventKind.run_started _ _) = err (ReduceError.duplicate_start seq)
  apply_with_contract (RunEventKind.worktree_created worktree) =
      on_worktree_created state contract seq worktree
  apply_with_contract (RunEventKind.patch_captured patch) =
      on_patch_captured state contract seq patch
  apply_with_contract RunEventKind.agent_started = on_agent_started state contract seq
  apply_with_contract (RunEventKind.agent_exited outcome) =
      on_agent_exited state contract seq outcome
  apply_with_contract (RunEventKind.policy_checked policy outcome) =
      on_policy_checked state contract seq policy outcome
  apply_with_contract (RunEventKind.gate_started gate) = on_gate_started state contract seq gate
  apply_with_contract (RunEventKind.gate_finished gate outcome log) =
      on_gate_finished state contract seq gate outcome log
  apply_with_contract (RunEventKind.sandbox_evidence_captured subject digest report outcome) =
      on_sandbox_evidence subject digest report outcome
  apply_with_contract (RunEventKind.provider_session_captured receipt) = on_provider_session receipt
  apply_with_contract (RunEventKind.command_binding_captured binding) = on_command_binding binding
  apply_with_contract (RunEventKind.candidate_state_captured receipt) =
      on_candidate_captured receipt
  apply_with_contract (RunEventKind.candidate_state_materialized run receipt patch oid) =
      on_candidate_materialized run receipt patch oid
  apply_with_contract RunEventKind.run_sealed = on_run_sealed

-- ===== src/Run/Errors.antt =====
-- crates/o7-run/src/reduce.rs: the structural violations of an event stream.
use Prim.Native.String.{String}
use model_lib.Prelude.{ℕ, Text}
use model_lib.Run.Ids.{RunId, RunEventId, GateId, Digest256}
use model_lib.Run.Contract.{ArtifactKind, ExecutionSubject, PolicyProtectedSubject}

-- The fields of each variant stand in the order of the source; most begin with the sequence.
pub data ReduceError : Type 0 where
  missing_run_started : String → ℕ → ReduceError
  duplicate_start : ℕ → ReduceError
  out_of_order : ℕ → ℕ → ReduceError
  duplicate_sequence broken_chain inconsistent_digest : ℕ → ReduceError
  run_id_mismatch : ℕ → RunId → RunId → ReduceError
  duplicate_event_id : ℕ → RunEventId → ReduceError
  unsupported_schema : ℕ → ℕ → ℕ → ReduceError
  duplicate_gate_in_contract : GateId → ReduceError
  unsupported_candidate_contract_schema : ℕ → ℕ → ReduceError
  unknown_gate duplicate_gate_started gate_finished_without_start duplicate_gate_finished :
      ℕ → GateId → ReduceError
  agent_exit_before_start duplicate_agent_start duplicate_agent_exit : ℕ → ReduceError
  wrong_artifact_kind : ℕ → ArtifactKind → ArtifactKind → ReduceError
  empty_artifact_locator : ℕ → ReduceError
  waiver_environment_mismatch : GateId → Text → Text → ReduceError
  empty_waiver_reason : GateId → ReduceError
  sandbox_agent_subject_without_agent : ReduceError
  sandbox_subject_gate_ineligible : GateId → ReduceError
  policy_protects_unknown_gate : GateId → ReduceError
  policy_protects_agent_without_agent : ReduceError
  duplicate_protected_subject : PolicyProtectedSubject → ReduceError
  optional_policy_with_protects : Digest256 → ReduceError
  duplicate_worktree duplicate_patch disallowed_agent_event : ℕ → ReduceError
  duplicate_policy_in_contract : Digest256 → ReduceError
  unknown_policy duplicate_policy_check : ℕ → Digest256 → ReduceError
  protected_start_before_policy_allowed : ℕ → ExecutionSubject → ReduceError
  duplicate_sandbox_requirement : ExecutionSubject → Digest256 → ReduceError
  sandbox_subject_unknown_gate : GateId → ReduceError
  duplicate_sandbox_evidence unrequired_sandbox_evidence : ℕ → ReduceError
  impossible_transition : ℕ → Text → ReduceError
  event_after_seal duplicate_provider_session_receipt duplicate_command_binding : ℕ → ReduceError
  duplicate_candidate_state duplicate_candidate_materialized : ℕ → ReduceError
  candidate_capture_before_patch candidate_capture_before_agent_terminal : ℕ → ReduceError
  candidate_materialization_without_command_binding : ℕ → ReduceError
  candidate_materialization_after_agent_started : ℕ → ReduceError
  agent_started_without_candidate_materialization : ℕ → ReduceError

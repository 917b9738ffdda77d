-- ===== src/Run/Event.antt =====
-- crates/o7-run/src/event.rs: the agent's terminal outcome, the event payloads and the envelope.
use Prim.Native.String.{String}
use model_lib.Prelude.{ℕ, Option, Text}
use model_lib.Run.Ids.{RunId, RunEventId, GateId, Digest256}
use model_lib.Run.Contract.{
  ArtifactRef, GateOutcome, PolicyOutcome, ExecutionSubject, SandboxEvidenceOutcome, RunContract,
}

-- Exit codes and signals are i32, here as their 32-bit patterns.
pub data AgentOutcome : Type 0 where
  exited_normally exited_by_signal : ℕ → AgentOutcome
  cancelled_gracefully cancelled_forcefully : AgentOutcome
  failed_to_start boundary_failure observation_failure : Text → AgentOutcome
  output_failure cleanup_failure : Text → AgentOutcome

-- The fields of each variant stand in the order of the source.
pub data RunEventKind : Type 0 where
  run_started : RunContract → ArtifactRef → RunEventKind
  worktree_created : ArtifactRef → RunEventKind
  agent_started : RunEventKind
  agent_exited : AgentOutcome → RunEventKind
  patch_captured : ArtifactRef → RunEventKind
  policy_checked : ArtifactRef → PolicyOutcome → RunEventKind
  gate_started : GateId → RunEventKind
  gate_finished : GateId → GateOutcome → Option ArtifactRef → RunEventKind
  sandbox_evidence_captured :
      ExecutionSubject → Digest256 → ArtifactRef → SandboxEvidenceOutcome → RunEventKind
  provider_session_captured : ArtifactRef → RunEventKind
  command_binding_captured : ArtifactRef → RunEventKind
  candidate_state_captured : ArtifactRef → RunEventKind
  candidate_state_materialized : RunId → ArtifactRef → ArtifactRef → Text → RunEventKind
  run_sealed : RunEventKind

-- The tag byte of the digest framing.
unfoldable pub tag : RunEventKind → ℕ
tag (RunEventKind.run_started contract task) = 1
tag (RunEventKind.worktree_created worktree) = 2
tag RunEventKind.agent_started = 3
tag (RunEventKind.agent_exited outcome) = 4
tag (RunEventKind.patch_captured patch) = 5
tag (RunEventKind.policy_checked policy outcome) = 6
tag (RunEventKind.gate_started gate) = 7
tag (RunEventKind.gate_finished gate outcome log) = 8
tag (RunEventKind.sandbox_evidence_captured subject digest report outcome) = 9
tag RunEventKind.run_sealed = 10
tag (RunEventKind.provider_session_captured receipt) = 11
tag (RunEventKind.command_binding_captured binding) = 12
tag (RunEventKind.candidate_state_captured receipt) = 13
tag (RunEventKind.candidate_state_materialized run receipt patch oid) = 14

unfoldable pub name : RunEventKind → String
name (RunEventKind.run_started contract task) = "run_started"
name (RunEventKind.worktree_created worktree) = "worktree_created"
name RunEventKind.agent_started = "agent_started"
name (RunEventKind.agent_exited outcome) = "agent_exited"
name (RunEventKind.patch_captured patch) = "patch_captured"
name (RunEventKind.policy_checked policy outcome) = "policy_checked"
name (RunEventKind.gate_started gate) = "gate_started"
name (RunEventKind.gate_finished gate outcome log) = "gate_finished"
name (RunEventKind.sandbox_evidence_captured subject digest report outcome) =
    "sandbox_evidence_captured"
name (RunEventKind.provider_session_captured receipt) = "provider_session_captured"
name (RunEventKind.command_binding_captured binding) = "command_binding_captured"
name (RunEventKind.candidate_state_captured receipt) = "candidate_state_captured"
name (RunEventKind.candidate_state_materialized run receipt patch oid) =
    "candidate_state_materialized"
name RunEventKind.run_sealed = "run_sealed"

abbrev pub run_event_schema_version : ℕ
run_event_schema_version = 1

-- `schema_version` is u32, `sequence` u64; `timestamp_millis` is i64, here as its 64-bit pattern.
pub record RunEvent : Type 0 where
  pub event_id : RunEventId
  pub schema_version : ℕ
  pub run_id : RunId
  pub sequence : ℕ
  pub previous_event_digest : Digest256
  pub event_digest : Digest256
  pub timestamp_millis : ℕ
  pub kind : RunEventKind

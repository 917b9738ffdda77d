-- ===== src/Run/Encoding.antt =====
-- crates/o7-run/src/event.rs: the digest of an event, by explicit framing of its fields.
-- A hasher that was only ever updated is the bytes that it was given, so `fold_x(h, x)` is here
-- the bytes that it appends, and `finalize` is the hash of them all.
pub mod Framing
pub mod Payloads
pub mod Tells
use model_lib.Prelude.{
  ℕ, zero, suc, ◌/◌, ◌%◌, Bool, Option, none, some, List, [], ◌∷◌, ◌++◌, Bytes, ◌==◌, text_eq,
  length,
}
use model_lib.Run.Ids.{Digest256, Sha256, of_bytes}
use model_lib.Run.Contract.{
  ArtifactRef, GateOutcome, PolicyOutcome, ExecutionSubject, SandboxEvidenceOutcome,
  SandboxRequirement, GateRequirement, GateApplicability, GateObligation, PolicyRequirement,
  PolicyProtectedSubject, PolicyObligation, AgentObligation, CandidatePatchKind,
  CandidateStateContractV1, RunContract, artifact_kind_tag,
}
use model_lib.Run.Event.{AgentOutcome, RunEventKind, RunEvent, tag}

-- `to_le_bytes` of an integer of `w` bytes.
unfoldable pub le_bytes : ℕ → ℕ → Bytes
le_bytes zero n = []
le_bytes (suc w) n = (n % 256) ∷ le_bytes w (n / 256)

unfoldable pub frame : Bytes → Bytes
frame bytes = le_bytes 8 (length bytes) ++ bytes

unfoldable pub gate_outcome_tag : GateOutcome → ℕ
gate_outcome_tag GateOutcome.pass = 1
gate_outcome_tag GateOutcome.fail = 2
gate_outcome_tag GateOutcome.warn = 3
gate_outcome_tag GateOutcome.blocked = 4
gate_outcome_tag GateOutcome.not_applicable = 5
gate_outcome_tag GateOutcome.error = 6

unfoldable pub policy_outcome_tag : PolicyOutcome → ℕ
policy_outcome_tag PolicyOutcome.allowed = 1
policy_outcome_tag PolicyOutcome.denied = 2
policy_outcome_tag PolicyOutcome.error = 3

unfoldable pub sandbox_outcome_tag : SandboxEvidenceOutcome → ℕ
sandbox_outcome_tag SandboxEvidenceOutcome.satisfied = 1
sandbox_outcome_tag SandboxEvidenceOutcome.violated = 2
sandbox_outcome_tag SandboxEvidenceOutcome.error = 3

unfoldable pub gate_requirement_tag : GateRequirement → ℕ
gate_requirement_tag GateRequirement.required = 1
gate_requirement_tag GateRequirement.optional = 2

unfoldable pub policy_requirement_tag : PolicyRequirement → ℕ
policy_requirement_tag PolicyRequirement.required = 1
policy_requirement_tag PolicyRequirement.optional = 2

unfoldable pub candidate_patch_kind_tag : CandidatePatchKind → ℕ
candidate_patch_kind_tag CandidatePatchKind.git_binary_cumulative_patch_v1 = 1

unfoldable pub fold_artifact : ArtifactRef → Bytes
fold_artifact a = artifact_kind_tag a.kind ∷ (frame a.locator ++ frame a.digest)

unfoldable pub fold_optional_artifact : Option ArtifactRef → Bytes
fold_optional_artifact (some a) = 1 ∷ fold_artifact a
fold_optional_artifact none = 0 ∷ []

unfoldable pub fold_applicability : GateApplicability → Bytes
fold_applicability GateApplicability.applicable = 1 ∷ []
fold_applicability (GateApplicability.waived environment reason) =
    2 ∷ (frame environment ++ frame reason)

unfoldable pub fold_subject : ExecutionSubject → Bytes
fold_subject ExecutionSubject.agent = 1 ∷ []
fold_subject (ExecutionSubject.gate gate) = 2 ∷ frame gate
fold_subject ExecutionSubject.verifier = 3 ∷ []

unfoldable pub fold_protected_subject : PolicyProtectedSubject → Bytes
fold_protected_subject PolicyProtectedSubject.agent = 1 ∷ []
fold_protected_subject (PolicyProtectedSubject.gate gate) = 2 ∷ frame gate

unfoldable pub fold_agent_obligation : AgentObligation → Bytes
fold_agent_obligation AgentObligation.required = 1 ∷ []
fold_agent_obligation (AgentObligation.not_used reason) = 2 ∷ frame reason

unfoldable pub fold_candidate_state_contract : CandidateStateContractV1 → Bytes
fold_candidate_state_contract c =
    frame (le_bytes 4 c.schema)
    ++ (frame c.conversation_id
        ++ (frame c.repository_id.git_common_dir
            ++ (frame (le_bytes 8 c.repository_id.dev)
                ++ (frame (le_bytes 8 c.repository_id.ino)
                    ++ (frame c.base_commit ++ (candidate_patch_kind_tag c.patch_kind ∷ []))))))

unfoldable pub fold_optional_candidate_state_contract : Option CandidateStateContractV1 → Bytes
fold_optional_candidate_state_contract (some c) = 1 ∷ fold_candidate_state_contract c
fold_optional_candidate_state_contract none = 0 ∷ []

-- The body of a loop over a slice.
unfoldable pub fold_each {ℓ} : {A : Type ℓ} → (A → Bytes) → List A → Bytes
fold_each f [] = []
fold_each f (x ∷ xs) = f x ++ fold_each f xs

-- A length as a framed u64, then the elements.
unfoldable pub fold_list {ℓ} : {A : Type ℓ} → (A → Bytes) → List A → Bytes
fold_list f xs = frame (le_bytes 8 (length xs)) ++ fold_each f xs

unfoldable pub fold_gate_obligation : GateObligation → Bytes
fold_gate_obligation o =
    frame o.gate ++ (gate_requirement_tag o.requirement ∷ fold_applicability o.applicability)

unfoldable pub fold_policy_obligation : PolicyObligation → Bytes
fold_policy_obligation p =
    fold_artifact p.policy
    ++ (policy_requirement_tag p.requirement ∷ fold_list fold_protected_subject p.protects)

unfoldable pub fold_sandbox_requirement : SandboxRequirement → Bytes
fold_sandbox_requirement r = fold_subject r.subject ++ frame r.policy_digest

unfoldable pub fold_contract : RunContract → Bytes
fold_contract c =
    fold_list fold_gate_obligation c.gate_obligations
    ++ (fold_list fold_policy_obligation c.policy_obligations
        ++ (fold_list fold_sandbox_requirement c.sandbox_requirements
            ++ (fold_agent_obligation c.agent
                ++ (frame c.runner_environment
                    ++ fold_optional_candidate_state_contract c.candidate_state))))

unfoldable pub fold_agent_outcome : AgentOutcome → Bytes
fold_agent_outcome (AgentOutcome.exited_normally code) = 1 ∷ frame (le_bytes 4 code)
fold_agent_outcome (AgentOutcome.exited_by_signal signal) = 2 ∷ frame (le_bytes 4 signal)
fold_agent_outcome AgentOutcome.cancelled_gracefully = 3 ∷ []
fold_agent_outcome AgentOutcome.cancelled_forcefully = 4 ∷ []
fold_agent_outcome (AgentOutcome.failed_to_start reason) = 5 ∷ frame reason
fold_agent_outcome (AgentOutcome.boundary_failure reason) = 6 ∷ frame reason
fold_agent_outcome (AgentOutcome.observation_failure reason) = 7 ∷ frame reason
fold_agent_outcome (AgentOutcome.output_failure reason) = 8 ∷ frame reason
fold_agent_outcome (AgentOutcome.cleanup_failure reason) = 9 ∷ frame reason

unfoldable pub fold_kind : RunEventKind → Bytes
fold_kind (RunEventKind.run_started contract task) = fold_contract contract ++ fold_artifact task
fold_kind (RunEventKind.worktree_created worktree) = fold_artifact worktree
fold_kind RunEventKind.agent_started = []
fold_kind (RunEventKind.agent_exited outcome) = fold_agent_outcome outcome
fold_kind (RunEventKind.patch_captured patch) = fold_artifact patch
fold_kind (RunEventKind.policy_checked policy outcome) =
    fold_artifact policy ++ (policy_outcome_tag outcome ∷ [])
fold_kind (RunEventKind.gate_started gate) = frame gate
fold_kind (RunEventKind.gate_finished gate outcome log) =
    frame gate ++ (gate_outcome_tag outcome ∷ fold_optional_artifact log)
fold_kind (RunEventKind.sandbox_evidence_captured subject digest report outcome) =
    fold_subject subject
    ++ (frame digest ++ (fold_artifact report ++ (sandbox_outcome_tag outcome ∷ [])))
fold_kind (RunEventKind.provider_session_captured receipt) = fold_artifact receipt
fold_kind (RunEventKind.command_binding_captured binding) = fold_artifact binding
fold_kind (RunEventKind.candidate_state_captured receipt) = fold_artifact receipt
fold_kind (RunEventKind.candidate_state_materialized run receipt patch oid) =
    frame run ++ (fold_artifact receipt ++ (fold_artifact patch ++ frame oid))
fold_kind RunEventKind.run_sealed = []

-- `b"o7-run-event\0v1\0"`
abbrev pub domain : Bytes
domain =
    b'o' ∷ b'7' ∷ b'-' ∷ b'r' ∷ b'u' ∷ b'n' ∷ b'-' ∷ b'e' ∷ b'v' ∷ b'e' ∷ b'n' ∷ b't' ∷ 0 ∷ b'v'
    ∷ b'1' ∷ 0 ∷ []

-- What the hasher of `compute_digest` has been given when it is finalized.
unfoldable pub preimage : RunEvent → Bytes
preimage e =
    domain
    ++ (frame (le_bytes 4 e.schema_version)
        ++ (frame e.run_id
            ++ (frame (le_bytes 8 e.sequence)
                ++ (frame e.previous_event_digest
                    ++ (frame (le_bytes 8 e.timestamp_millis)
                        ++ (frame e.event_id ++ (tag e.kind ∷ fold_kind e.kind)))))))

module _ (sha : Sha256) where
  unfoldable pub compute_digest : RunEvent → Digest256
  compute_digest e = of_bytes sha (preimage e)

  unfoldable pub digest_is_consistent : RunEvent → Bool
  digest_is_consistent e = e.event_digest == compute_digest e

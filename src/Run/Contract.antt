-- ===== src/Run/Contract.antt =====
-- crates/o7-run/src/event.rs: artifacts, outcomes and the pre-execution obligation contract.
use model_lib.Prelude.{
  ℕ, ◌≡◌, ap, ◌↔◌, Bool, true, false, Option, List, Text, text_beq, text_beq_iff, nat_beq, Eq,
  arith,
}
use model_lib.Run.Ids.{GateId, Digest256}

pub data ArtifactKind : Type 0 where
  task diff gate_log sandbox_report worktree policy provider_session : ArtifactKind
  command_binding candidate_state candidate_patch : ArtifactKind

pub record ArtifactRef : Type 0 where
  pub kind : ArtifactKind
  pub locator : Text
  pub digest : Digest256

pub data GateOutcome : Type 0 where
  pass fail warn blocked not_applicable error : GateOutcome

pub data PolicyOutcome : Type 0 where
  allowed denied error : PolicyOutcome

pub data ExecutionSubject : Type 0 where
  agent : ExecutionSubject
  gate : GateId → ExecutionSubject
  verifier : ExecutionSubject

pub data SandboxEvidenceOutcome : Type 0 where
  satisfied violated error : SandboxEvidenceOutcome

pub record SandboxRequirement : Type 0 where
  pub subject : ExecutionSubject
  pub policy_digest : Digest256

pub data GateRequirement : Type 0 where
  required optional : GateRequirement

-- A waiver names its environment, then its reason.
pub data GateApplicability : Type 0 where
  applicable : GateApplicability
  waived : Text → Text → GateApplicability

pub record GateObligation : Type 0 where
  pub gate : GateId
  pub requirement : GateRequirement
  pub applicability : GateApplicability

pub data PolicyRequirement : Type 0 where
  required optional : PolicyRequirement

pub data PolicyProtectedSubject : Type 0 where
  agent : PolicyProtectedSubject
  gate : GateId → PolicyProtectedSubject

pub record PolicyObligation : Type 0 where
  pub policy : ArtifactRef
  pub requirement : PolicyRequirement
  pub protects : List PolicyProtectedSubject

-- `not_used` carries its auditable reason.
pub data AgentObligation : Type 0 where
  required : AgentObligation
  not_used : Text → AgentObligation

-- `dev` and `ino` are u64.
pub record RepositoryIdentity : Type 0 where
  pub git_common_dir : Text
  pub dev : ℕ
  pub ino : ℕ

pub data CandidatePatchKind : Type 0 where
  git_binary_cumulative_patch_v1 : CandidatePatchKind

abbrev pub candidate_state_contract_schema_v1 : ℕ
candidate_state_contract_schema_v1 = 1

-- `schema` is u32.
pub record CandidateStateContractV1 : Type 0 where
  pub schema : ℕ
  pub conversation_id : Text
  pub repository_id : RepositoryIdentity
  pub base_commit : Text
  pub patch_kind : CandidatePatchKind

pub record RunContract : Type 0 where
  pub gate_obligations : List GateObligation
  pub policy_obligations : List PolicyObligation
  pub sandbox_requirements : List SandboxRequirement
  pub agent : AgentObligation
  pub runner_environment : Text
  pub candidate_state : Option CandidateStateContractV1

unfoldable pub artifact_kind_tag : ArtifactKind → ℕ
artifact_kind_tag ArtifactKind.task = 1
artifact_kind_tag ArtifactKind.diff = 2
artifact_kind_tag ArtifactKind.gate_log = 3
artifact_kind_tag ArtifactKind.sandbox_report = 4
artifact_kind_tag ArtifactKind.worktree = 5
artifact_kind_tag ArtifactKind.policy = 6
artifact_kind_tag ArtifactKind.provider_session = 7
artifact_kind_tag ArtifactKind.command_binding = 8
artifact_kind_tag ArtifactKind.candidate_state = 9
artifact_kind_tag ArtifactKind.candidate_patch = 10

-- Fieldless enums are equal when their discriminants are.
unfoldable pub artifact_kind_beq : ArtifactKind → ArtifactKind → Bool
artifact_kind_beq a b = nat_beq (artifact_kind_tag a) (artifact_kind_tag b)

-- The derived `PartialEq` of the two subject types.
unfoldable pub execution_subject_beq : ExecutionSubject → ExecutionSubject → Bool
execution_subject_beq ExecutionSubject.agent ExecutionSubject.agent = true
execution_subject_beq (ExecutionSubject.gate g) (ExecutionSubject.gate h) = text_beq g h
execution_subject_beq ExecutionSubject.verifier ExecutionSubject.verifier = true
execution_subject_beq _ _ = false

unfoldable pub protected_subject_beq : PolicyProtectedSubject → PolicyProtectedSubject → Bool
protected_subject_beq PolicyProtectedSubject.agent PolicyProtectedSubject.agent = true
protected_subject_beq (PolicyProtectedSubject.gate g) (PolicyProtectedSubject.gate h) = text_beq g h
protected_subject_beq _ _ = false

pub artifact_kind_beq_iff : (a b : ArtifactKind) → (artifact_kind_beq a b ≡ true) ↔ (a ≡ b)
unfolding artifact_kind_beq artifact_kind_tag
artifact_kind_beq_iff a b = ground arith

pub execution_subject_beq_iff :
    (a b : ExecutionSubject) → (execution_subject_beq a b ≡ true) ↔ (a ≡ b)
unfolding execution_subject_beq
execution_subject_beq_iff (ExecutionSubject.gate g) (ExecutionSubject.gate h) =
    (λ e. ap ExecutionSubject.gate ((text_beq_iff g h).0 e), λ e. (text_beq_iff g h).1 (cc))
execution_subject_beq_iff ExecutionSubject.agent b = ground arith
execution_subject_beq_iff _ b = ground arith

pub protected_subject_beq_iff :
    (a b : PolicyProtectedSubject) → (protected_subject_beq a b ≡ true) ↔ (a ≡ b)
unfolding protected_subject_beq
protected_subject_beq_iff (PolicyProtectedSubject.gate g) (PolicyProtectedSubject.gate h) =
    (λ e. ap PolicyProtectedSubject.gate ((text_beq_iff g h).0 e), λ e. (text_beq_iff g h).1 (cc))
protected_subject_beq_iff PolicyProtectedSubject.agent b = ground arith
protected_subject_beq_iff _ b = ground arith

instance abbrev pub artifact_kind_eq : Eq ArtifactKind
artifact_kind_eq = record { beq = artifact_kind_beq; beq_iff = artifact_kind_beq_iff }

instance abbrev pub execution_subject_eq : Eq ExecutionSubject
execution_subject_eq = record { beq = execution_subject_beq; beq_iff = execution_subject_beq_iff }

instance abbrev pub protected_subject_eq : Eq PolicyProtectedSubject
protected_subject_eq = record { beq = protected_subject_beq; beq_iff = protected_subject_beq_iff }

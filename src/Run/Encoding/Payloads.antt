-- ===== src/Run/Encoding/Payloads.antt =====
-- The framing of an event's payload can be read back (crates/o7-run/src/event.rs, the `fold_*`
-- functions of `compute_digest`).
pub mod Contracts
pub mod Kinds
pub mod Outcomes
use model_lib.Prelude.{
  ℕ, suc, ◌^◌, ◌<◌, Option, none, some, List, [], ◌∷◌, ◌++◌, All, Bytes, Text, length, ◌≡◌, refl,
  sym, ap, ◌∙◌, arith,
}
use model_lib.Run.Contract.{
  ArtifactRef, ArtifactKind, GateOutcome, PolicyOutcome, ExecutionSubject, SandboxEvidenceOutcome,
  SandboxRequirement, GateRequirement, GateApplicability, GateObligation, PolicyRequirement,
  PolicyProtectedSubject, PolicyObligation, AgentObligation, CandidatePatchKind, RepositoryIdentity,
  CandidateStateContractV1, RunContract, artifact_kind_tag,
}
use model_lib.Run.Event.{AgentOutcome, RunEventKind, RunEvent, tag}
use model_lib.Run.Encoding.{
  le_bytes, frame, gate_outcome_tag, policy_outcome_tag, sandbox_outcome_tag, gate_requirement_tag,
  policy_requirement_tag, candidate_patch_kind_tag, fold_artifact, fold_optional_artifact,
  fold_applicability, fold_subject, fold_protected_subject, fold_agent_obligation,
  fold_candidate_state_contract, fold_optional_candidate_state_contract, fold_each, fold_list,
  fold_gate_obligation, fold_policy_obligation, fold_sandbox_requirement, fold_contract,
  fold_agent_outcome, fold_kind,
}
use model_lib.Run.Encoding.Tells.{
  Tells, implies, then, byte_then, apart, nothing, byte, IsShort, text, word, long, list,
}

artifact_kind : (a b : ArtifactKind) → artifact_kind_tag a ≡ artifact_kind_tag b → a ≡ b
unfolding artifact_kind_tag
artifact_kind a b h = ground arith

abbrev pub IsShortArtifact : ArtifactRef → Type 0
IsShortArtifact a = IsShort a.locator × IsShort a.digest

artifact_eq :
    (a b : ArtifactRef) → a.kind ≡ b.kind → a.locator ≡ b.locator → a.digest ≡ b.digest → a ≡ b
artifact_eq a b k l d = cc

pub artifact :
    (a b : ArtifactRef)
    → IsShortArtifact a
    → IsShortArtifact b
    → Tells (fold_artifact a) (fold_artifact b) (a ≡ b)
unfolding fold_artifact
artifact a b p q =
    implies (λ (k, (l, d)). artifact_eq a b (artifact_kind _ _ k) l d)
      (byte_then (then (text p.0 q.0) (text p.1 q.1)))

abbrev pub IsShortOptionalArtifact : Option ArtifactRef → Type 0
IsShortOptionalArtifact none = Unit
IsShortOptionalArtifact (some a) = IsShortArtifact a

pub optional_artifact :
    (a b : Option ArtifactRef)
    → IsShortOptionalArtifact a
    → IsShortOptionalArtifact b
    → Tells (fold_optional_artifact a) (fold_optional_artifact b) (a ≡ b)
unfolding fold_optional_artifact
optional_artifact none none p q = implies (λ e. refl) byte
optional_artifact none (some b) p q = apart (λ e. cc)
optional_artifact (some a) none p q = apart (λ e. cc)
optional_artifact (some a) (some b) p q =
    implies (λ (e, x). ap some x) (byte_then (artifact a b p q))

abbrev pub IsShortApplicability : GateApplicability → Type 0
IsShortApplicability GateApplicability.applicable = Unit
IsShortApplicability (GateApplicability.waived environment reason) =
    IsShort environment × IsShort reason

pub applicability :
    (a b : GateApplicability)
    → IsShortApplicability a
    → IsShortApplicability b
    → Tells (fold_applicability a) (fold_applicability b) (a ≡ b)
unfolding fold_applicability
applicability GateApplicability.applicable GateApplicability.applicable p q =
    implies (λ e. refl) byte
applicability GateApplicability.applicable (GateApplicability.waived x y) p q = apart (λ e. cc)
applicability (GateApplicability.waived x y) GateApplicability.applicable p q = apart (λ e. cc)
applicability (GateApplicability.waived x y) (GateApplicability.waived z w) p q =
    implies (λ (e, (f, g)). same f g) (byte_then (then (text p.0 q.0) (text p.1 q.1)))
  where
    same : x ≡ z → y ≡ w → GateApplicability.waived x y ≡ GateApplicability.waived z w
    same f g = cc

abbrev pub IsShortSubject : ExecutionSubject → Type 0
IsShortSubject (ExecutionSubject.gate gate) = IsShort gate
IsShortSubject _ = Unit

pub subject :
    (a b : ExecutionSubject)
    → IsShortSubject a
    → IsShortSubject b
    → Tells (fold_subject a) (fold_subject b) (a ≡ b)
unfolding fold_subject
subject ExecutionSubject.agent ExecutionSubject.agent p q = implies (λ e. refl) byte
subject ExecutionSubject.agent (ExecutionSubject.gate y) p q = apart (λ e. cc)
subject ExecutionSubject.agent ExecutionSubject.verifier p q = apart (λ e. cc)
subject (ExecutionSubject.gate x) ExecutionSubject.agent p q = apart (λ e. cc)
subject (ExecutionSubject.gate x) (ExecutionSubject.gate y) p q =
    implies (λ (e, f). ap ExecutionSubject.gate f) (byte_then (text p q))
subject (ExecutionSubject.gate x) ExecutionSubject.verifier p q = apart (λ e. cc)
subject ExecutionSubject.verifier ExecutionSubject.agent p q = apart (λ e. cc)
subject ExecutionSubject.verifier (ExecutionSubject.gate y) p q = apart (λ e. cc)
subject ExecutionSubject.verifier ExecutionSubject.verifier p q = implies (λ e. refl) byte

abbrev pub IsShortProtected : PolicyProtectedSubject → Type 0
IsShortProtected PolicyProtectedSubject.agent = Unit
IsShortProtected (PolicyProtectedSubject.gate gate) = IsShort gate

pub protected_subject :
    (a b : PolicyProtectedSubject)
    → IsShortProtected a
    → IsShortProtected b
    → Tells (fold_protected_subject a) (fold_protected_subject b) (a ≡ b)
unfolding fold_protected_subject
protected_subject PolicyProtectedSubject.agent PolicyProtectedSubject.agent p q =
    implies (λ e. refl) byte
protected_subject PolicyProtectedSubject.agent (PolicyProtectedSubject.gate y) p q = apart (λ e. cc)
protected_subject (PolicyProtectedSubject.gate x) PolicyProtectedSubject.agent p q = apart (λ e. cc)
protected_subject (PolicyProtectedSubject.gate x) (PolicyProtectedSubject.gate y) p q =
    implies (λ (e, f). ap PolicyProtectedSubject.gate f) (byte_then (text p q))

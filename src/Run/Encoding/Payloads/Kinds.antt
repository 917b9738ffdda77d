-- ===== src/Run/Encoding/Payloads/Kinds.antt =====
-- The framing of an event's payload can be read back, given its tag (crates/o7-run/src/event.rs,
-- `fold_kind`).
use model_lib.Prelude.{Option, [], ◌++◌, Text, ◌≡◌, refl, ap, arith}
use model_lib.Run.Ids.{RunId, GateId, Digest256}
use model_lib.Run.Contract.{
  ArtifactRef, GateOutcome, PolicyOutcome, ExecutionSubject, SandboxEvidenceOutcome, RunContract,
}
use model_lib.Run.Event.{RunEventKind, tag}
use model_lib.Run.Encoding.{gate_outcome_tag, policy_outcome_tag, sandbox_outcome_tag, fold_kind}
use model_lib.Run.Encoding.Tells.{Tells, implies, then, byte_then, nothing, byte, IsShort, text}
use model_lib.Run.Encoding.Payloads.{
  IsShortArtifact, artifact, IsShortOptionalArtifact, optional_artifact, IsShortSubject, subject,
}
use model_lib.Run.Encoding.Payloads.Contracts.{IsContractInRange, contract}
use model_lib.Run.Encoding.Payloads.Outcomes.{IsOutcomeInRange, agent_outcome}

-- The lengths and the integers of a payload are in the ranges of their types.
abbrev pub IsKindInRange : RunEventKind → Type 0
IsKindInRange (RunEventKind.run_started contract task) =
    IsContractInRange contract × IsShortArtifact task
IsKindInRange (RunEventKind.worktree_created worktree) = IsShortArtifact worktree
IsKindInRange RunEventKind.agent_started = Unit
IsKindInRange (RunEventKind.agent_exited outcome) = IsOutcomeInRange outcome
IsKindInRange (RunEventKind.patch_captured patch) = IsShortArtifact patch
IsKindInRange (RunEventKind.policy_checked policy outcome) = IsShortArtifact policy
IsKindInRange (RunEventKind.gate_started gate) = IsShort gate
IsKindInRange (RunEventKind.gate_finished gate outcome log) =
    IsShort gate × IsShortOptionalArtifact log
IsKindInRange (RunEventKind.sandbox_evidence_captured subject digest report outcome) =
    IsShortSubject subject × (IsShort digest × IsShortArtifact report)
IsKindInRange (RunEventKind.provider_session_captured receipt) = IsShortArtifact receipt
IsKindInRange (RunEventKind.command_binding_captured binding) = IsShortArtifact binding
IsKindInRange (RunEventKind.candidate_state_captured receipt) = IsShortArtifact receipt
IsKindInRange (RunEventKind.candidate_state_materialized run receipt patch oid) =
    IsShort run × (IsShortArtifact receipt × (IsShortArtifact patch × IsShort oid))
IsKindInRange RunEventKind.run_sealed = Unit

gate_outcome : (a b : GateOutcome) → gate_outcome_tag a ≡ gate_outcome_tag b → a ≡ b
unfolding gate_outcome_tag
gate_outcome a b h = ground arith

policy_outcome : (a b : PolicyOutcome) → policy_outcome_tag a ≡ policy_outcome_tag b → a ≡ b
unfolding policy_outcome_tag
policy_outcome a b h = ground arith

sandbox_outcome :
    (a b : SandboxEvidenceOutcome) → sandbox_outcome_tag a ≡ sandbox_outcome_tag b → a ≡ b
unfolding sandbox_outcome_tag
sandbox_outcome a b h = ground arith

started_eq :
    {c d : RunContract} {t u : ArtifactRef}
    → c ≡ d
    → t ≡ u
    → RunEventKind.run_started c t ≡ RunEventKind.run_started d u
started_eq c t = cc

checked_eq :
    {a b : ArtifactRef} {o p : PolicyOutcome}
    → a ≡ b
    → o ≡ p
    → RunEventKind.policy_checked a o ≡ RunEventKind.policy_checked b p
checked_eq a o = cc

finished_eq :
    {g h : GateId} {o p : GateOutcome} {l m : Option ArtifactRef}
    → g ≡ h
    → o ≡ p
    → l ≡ m
    → RunEventKind.gate_finished g o l ≡ RunEventKind.gate_finished h p m
finished_eq g o l = cc

evidence_eq :
    {x y : ExecutionSubject} {d e : Digest256} {a b : ArtifactRef} {o p : SandboxEvidenceOutcome}
    → x ≡ y
    → d ≡ e
    → a ≡ b
    → o ≡ p
    → RunEventKind.sandbox_evidence_captured x d a o
      ≡ RunEventKind.sandbox_evidence_captured y e b p
evidence_eq x d a o = cc

materialized_eq :
    {r s : RunId} {a b c d : ArtifactRef} {o p : Text}
    → r ≡ s
    → a ≡ b
    → c ≡ d
    → o ≡ p
    → RunEventKind.candidate_state_materialized r a c o
      ≡ RunEventKind.candidate_state_materialized s b d p
materialized_eq r a c o = cc

-- Payloads of one variant with the same encoded fields are the same.
pub kind :
    (a b : RunEventKind)
    → IsKindInRange a
    → IsKindInRange b
    → tag a ≡ tag b
    → Tells (fold_kind a) (fold_kind b) (a ≡ b)
unfolding fold_kind tag
kind (RunEventKind.run_started c t) (RunEventKind.run_started d u) p q e =
    implies (λ (x, y). started_eq x y) (then (contract c d p.0 q.0) (artifact t u p.1 q.1))
kind (RunEventKind.worktree_created x) (RunEventKind.worktree_created y) p q e =
    implies (ap RunEventKind.worktree_created) (artifact x y p q)
kind RunEventKind.agent_started RunEventKind.agent_started p q e = implies (λ h. refl) nothing
kind (RunEventKind.agent_exited x) (RunEventKind.agent_exited y) p q e =
    implies (ap RunEventKind.agent_exited) (agent_outcome x y p q)
kind (RunEventKind.patch_captured x) (RunEventKind.patch_captured y) p q e =
    implies (ap RunEventKind.patch_captured) (artifact x y p q)
kind (RunEventKind.policy_checked x o) (RunEventKind.policy_checked y u) p q e =
    implies (λ (a, b). checked_eq a (policy_outcome o u b)) (then (artifact x y p q) byte)
kind (RunEventKind.gate_started x) (RunEventKind.gate_started y) p q e =
    implies (ap RunEventKind.gate_started) (text p q)
kind (RunEventKind.gate_finished g o l) (RunEventKind.gate_finished h u m) p q e =
    implies (λ (a, (b, c)). finished_eq a (gate_outcome o u b) c)
      (then (text p.0 q.0) (byte_then (optional_artifact l m p.1 q.1)))
kind (RunEventKind.sandbox_evidence_captured x d r o)
      (RunEventKind.sandbox_evidence_captured y f s u) p q e =
    implies (λ (a, (b, (c, z))). evidence_eq a b c (sandbox_outcome o u z))
      (then (subject x y p.0 q.0) (then (text p.1.0 q.1.0) (then (artifact r s p.1.1 q.1.1) byte)))
kind (RunEventKind.provider_session_captured x) (RunEventKind.provider_session_captured y) p q e =
    implies (ap RunEventKind.provider_session_captured) (artifact x y p q)
kind (RunEventKind.command_binding_captured x) (RunEventKind.command_binding_captured y) p q e =
    implies (ap RunEventKind.command_binding_captured) (artifact x y p q)
kind (RunEventKind.candidate_state_captured x) (RunEventKind.candidate_state_captured y) p q e =
    implies (ap RunEventKind.candidate_state_captured) (artifact x y p q)
kind (RunEventKind.candidate_state_materialized r a c o)
      (RunEventKind.candidate_state_materialized s b d u) p q e =
    implies (λ (x, (y, (z, w))). materialized_eq x y z w)
      (then (text p.0 q.0) (
        then (artifact a b p.1.0 q.1.0)
          (then (artifact c d p.1.1.0 q.1.1.0) (text p.1.1.1 q.1.1.1))))
kind RunEventKind.run_sealed RunEventKind.run_sealed p q e = implies (λ h. refl) nothing
kind _ _ p q e = absurd (omega arith)

-- Two payloads with the same tag and the same encoded fields are the same.
pub fold_kind-injective :
    (a b : RunEventKind)
    → IsKindInRange a
    → IsKindInRange b
    → tag a ≡ tag b
    → fold_kind a ≡ fold_kind b
    → a ≡ b
fold_kind-injective a b p q t h = ((kind a b p q t).read [] [] (ap (λ x. x ++ []) h)).0

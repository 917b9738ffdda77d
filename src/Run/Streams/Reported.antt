-- ===== src/Run/Streams/Reported.antt =====
-- What the payload of an event reports (the variants of RunEventKind, crates/o7-run/src/event.rs).
use model_lib.Prelude.{Option, List, Any, text_eq, ◌≡◌, text_ord}
use model_lib.Run.Ids.{GateId, Digest256}
use model_lib.Run.Contract.{
  ArtifactRef, GateOutcome, PolicyOutcome, SandboxRequirement, RunContract, execution_subject_eq,
}
use model_lib.Run.Event.{AgentOutcome, RunEventKind, RunEvent}
use model_lib.Run.State.{SandboxEvidenceEntry}

-- What the payload of an event reports.
abbrev pub Starts : RunContract → RunEventKind → Type 0
Starts c k = (task : ArtifactRef) × (k ≡ RunEventKind.run_started c task)

abbrev pub Exits : AgentOutcome → RunEventKind → Type 0
Exits o k = k ≡ RunEventKind.agent_exited o

abbrev pub Finishes : GateId → GateOutcome → RunEventKind → Type 0
Finishes g o k = (log : Option ArtifactRef) × (k ≡ RunEventKind.gate_finished g o log)

abbrev pub Checks : Digest256 → PolicyOutcome → RunEventKind → Type 0
Checks d o k = (p : ArtifactRef) × (p.digest ≡ d) × (k ≡ RunEventKind.policy_checked p o)

abbrev pub Evidences : SandboxRequirement → SandboxEvidenceEntry → RunEventKind → Type 0
Evidences r x k =
    (report : ArtifactRef) × (k
      ≡ RunEventKind.sandbox_evidence_captured r.subject r.policy_digest report x.outcome)

abbrev pub CapturesReceipt : ArtifactRef → RunEventKind → Type 0
CapturesReceipt a k = k ≡ RunEventKind.candidate_state_captured a

abbrev pub Captures : RunEventKind → Type 0
Captures k = (receipt : ArtifactRef) × (k ≡ RunEventKind.candidate_state_captured receipt)

-- Some event of the stream has such a payload.
abbrev pub Reported : (RunEventKind → Type 0) → List RunEvent → Type 0
Reported P = Any (λ e. P e.kind)

-- ===== src/Run/Steps.antt =====
-- The transition relation of a run: what each event requires of the state and of the contract, and
-- the state that it leads to. It is the specification that crates/o7-run/src/reduce.rs implements.
pub mod Guards
pub mod Sound
pub mod Complete
use model_lib.Prelude.{
  ℕ, Bool, true, false, Option, none, some, List, [], ◌∷◌, ◌++◌, Text, is_some, ◌≡◌, ◌⊎◌, ◌≢◌,
  text_ord, map_get, map_insert,
}
use model_lib.Run.Ids.{RunId, GateId, Digest256}
use model_lib.Run.Contract.{
  ArtifactKind, ArtifactRef, GateOutcome, PolicyOutcome, ExecutionSubject, SandboxEvidenceOutcome,
  PolicyProtectedSubject, AgentObligation, RunContract,
}
use model_lib.Run.Event.{AgentOutcome, RunEventKind}
use model_lib.Run.State.{RunPhase, GateProgress, AgentLifecycle, SandboxEvidenceKey, RunState}
use model_lib.Run.Verdicts.{compute_verdict}
use model_lib.Run.Handlers.{search_position, insert_at}
use Guards.{
  IsArtifact, IsDeclaredGate, IsDeclaredPolicy, IsRequiredEvidence, IsChecked, HasEvidence,
  IsUnprotected,
}

-- How an agent may end: after it started, or without a start if it failed to start.
pub data MayExit : AgentLifecycle → AgentOutcome → Type 0 where
  from_started : {o : AgentOutcome} → MayExit AgentLifecycle.started o
  unstarted :
      {reason : Text} → MayExit AgentLifecycle.not_observed (AgentOutcome.failed_to_start reason)

pub data IsLog : Option ArtifactRef → Type 0 where
  no_log : IsLog none
  a_log : {a : ArtifactRef} → IsArtifact ArtifactKind.gate_log a → IsLog (some a)

pub data Step (s : RunState) (c : RunContract) : RunEventKind → RunState → Type 0 where
  worktree :
      {a : ArtifactRef}
      → IsArtifact ArtifactKind.worktree a
      → s.worktree ≡ none
      → Step s c (RunEventKind.worktree_created a) (record s { worktree = some a })
  patch :
      {a : ArtifactRef}
      → IsArtifact ArtifactKind.diff a
      → s.patch ≡ none
      → Step s c (RunEventKind.patch_captured a) (record s { patch = some a })
  agent_start :
      c.agent ≡ AgentObligation.required
      → s.agent ≡ AgentLifecycle.not_observed
      → (is_some c.candidate_state ≡ true
          → is_some s.command_binding ≡ true
          → is_some s.candidate_materialized ≡ true)
      → IsUnprotected s.policy_results PolicyProtectedSubject.agent c.policy_obligations
      → Step s c RunEventKind.agent_started (record s { agent = AgentLifecycle.started })
  agent_exit :
      {o : AgentOutcome}
      → c.agent ≡ AgentObligation.required
      → MayExit s.agent o
      → Step s c (RunEventKind.agent_exited o) (record s { agent = AgentLifecycle.exited o })
  policy :
      {a : ArtifactRef} {o : PolicyOutcome}
      → IsArtifact ArtifactKind.policy a
      → IsDeclaredPolicy c a.digest
      → ¬ IsChecked s.policy_results a.digest
      → Step s c (RunEventKind.policy_checked a o) (record s {
        policy_results = s.policy_results ++ record { policy = a; outcome = o } ∷ [];
      })
  gate_start :
      {g : GateId}
      → IsDeclaredGate c g
      → map_get g s.gates ≡ none
      → IsUnprotected s.policy_results (PolicyProtectedSubject.gate g) c.policy_obligations
      → Step s c
          (RunEventKind.gate_started g)
          (record s { gates = map_insert g GateProgress.started s.gates })
  gate_finish :
      {g : GateId} {o : GateOutcome} {log : Option ArtifactRef}
      → IsDeclaredGate c g
      → IsLog log
      → map_get g s.gates ≡ some GateProgress.started
      → Step s c
          (RunEventKind.gate_finished g o log)
          (record s { gates = map_insert g (GateProgress.finished o) s.gates })
  evidence :
      {x : ExecutionSubject} {d : Digest256} {a : ArtifactRef} {o : SandboxEvidenceOutcome}
      → IsArtifact ArtifactKind.sandbox_report a
      → IsRequiredEvidence c x d
      → ¬ HasEvidence s.sandbox_evidence (record { subject = x; policy_digest = d })
      → Step s c (RunEventKind.sandbox_evidence_captured x d a o) (record s {
        sandbox_evidence =
            insert_at
              (search_position (record { subject = x; policy_digest = d }) s.sandbox_evidence)
              (record { key = record { subject = x; policy_digest = d }; outcome = o })
              s.sandbox_evidence;
      })
  session :
      {a : ArtifactRef}
      → IsArtifact ArtifactKind.provider_session a
      → s.provider_session_receipt ≡ none
      → Step s c
          (RunEventKind.provider_session_captured a)
          (record s { provider_session_receipt = some a })
  binding :
      {a : ArtifactRef}
      → IsArtifact ArtifactKind.command_binding a
      → s.command_binding ≡ none
      → Step s c (RunEventKind.command_binding_captured a) (record s { command_binding = some a })
  capture :
      {a : ArtifactRef}
      → IsArtifact ArtifactKind.candidate_state a
      → s.candidate_state ≡ none
      → is_some s.patch ≡ true
      → (c.agent ≡ AgentObligation.required
          → (o : AgentOutcome) × (s.agent ≡ AgentLifecycle.exited o))
      → Step s c (RunEventKind.candidate_state_captured a) (record s { candidate_state = some a })
  materialize :
      {run : RunId} {r p : ArtifactRef} {oid : Text}
      → IsArtifact ArtifactKind.candidate_state r
      → IsArtifact ArtifactKind.candidate_patch p
      → s.candidate_materialized ≡ none
      → is_some s.command_binding ≡ true
      → s.agent ≡ AgentLifecycle.not_observed
      → Step s c (RunEventKind.candidate_state_materialized run r p oid) (record s {
        candidate_materialized = some (record {
          source_run_id = run;
          source_receipt = r;
          source_patch = p;
          materialized_tree_oid = oid;
        });
      })
  seal :
      Step s c RunEventKind.run_sealed
        (record s { verdict = some (compute_verdict s c); phase = RunPhase.sealed })

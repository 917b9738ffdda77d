-- ===== src/Run/State.antt =====
-- crates/o7-run/src/state.rs: the verdict and the reduced state.
use model_lib.Prelude.{ℕ, Bool, true, false, Option, none, List, [], Text}
use model_lib.Run.Ids.{RunId, RunEventId, GateId, Digest256, genesis}
use model_lib.Run.Contract.{
  ArtifactRef, GateOutcome, PolicyOutcome, ExecutionSubject, SandboxEvidenceOutcome, RunContract,
}
use model_lib.Run.Event.{AgentOutcome}

pub data Verdict : Type 0 where
  pass fail blocked error : Verdict

pub data RunPhase : Type 0 where
  not_started running sealed : RunPhase

pub data GateProgress : Type 0 where
  started : GateProgress
  finished : GateOutcome → GateProgress

pub data AgentLifecycle : Type 0 where
  not_observed started : AgentLifecycle
  exited : AgentOutcome → AgentLifecycle

pub record PolicyResult : Type 0 where
  pub policy : ArtifactRef
  pub outcome : PolicyOutcome

pub record SandboxEvidenceKey : Type 0 where
  pub subject : ExecutionSubject
  pub policy_digest : Digest256

pub record SandboxEvidenceEntry : Type 0 where
  pub key : SandboxEvidenceKey
  pub outcome : SandboxEvidenceOutcome

pub record CandidateMaterialization : Type 0 where
  pub source_run_id : RunId
  pub source_receipt : ArtifactRef
  pub source_patch : ArtifactRef
  pub materialized_tree_oid : Text

abbrev pub run_state_schema_version : ℕ
run_state_schema_version = 1

-- `seen_event_ids` and `gates` are ordered containers, kept as lists in key order.
pub record RunState : Type 0 where
  pub schema_version : ℕ
  pub phase : RunPhase
  pub run_id : Option RunId
  pub contract : Option RunContract
  pub task : Option ArtifactRef
  pub worktree : Option ArtifactRef
  pub patch : Option ArtifactRef
  pub agent : AgentLifecycle
  pub last_sequence : Option ℕ
  pub last_event_digest : Digest256
  pub seen_event_ids : List RunEventId
  pub gates : List (GateId × GateProgress)
  pub policy_results : List PolicyResult
  pub sandbox_evidence : List SandboxEvidenceEntry
  pub verdict : Option Verdict
  pub provider_session_receipt : Option ArtifactRef
  pub command_binding : Option ArtifactRef
  pub candidate_state : Option ArtifactRef
  pub candidate_materialized : Option CandidateMaterialization

unfoldable pub initial : RunState
initial = record {
  schema_version = run_state_schema_version;
  phase = RunPhase.not_started;
  run_id = none;
  contract = none;
  task = none;
  worktree = none;
  patch = none;
  agent = AgentLifecycle.not_observed;
  last_sequence = none;
  last_event_digest = genesis;
  seen_event_ids = [];
  gates = [];
  policy_results = [];
  sandbox_evidence = [];
  verdict = none;
  provider_session_receipt = none;
  command_binding = none;
  candidate_state = none;
  candidate_materialized = none;
}

unfoldable pub is_sealed : RunState → Bool
is_sealed s = elim s.phase [ RunPhase.sealed ↦ true | _ ↦ false ]

-- ===== src/Run/Steps/Complete.antt =====
-- The handlers of crates/o7-run/src/reduce.rs refuse no step of the transition relation.
use model_lib.Prelude.{
  ℕ, Bool, true, false, not, ◌&&◌, Option, none, some, is_some, is_none, Result, ok, ◌>>◌,
  reject->>-ok, >>-ok, text_ord, text_eq, ◌≡◌, refl, arith,
}
use model_lib.Run.Ids.{GateId}
use model_lib.Run.Contract.{ArtifactKind, ArtifactRef, AgentObligation, RunContract}
use model_lib.Run.Event.{AgentOutcome, RunEventKind}
use model_lib.Run.State.{GateProgress, AgentLifecycle, RunState}
use model_lib.Run.Errors.{ReduceError}
use model_lib.Run.Admission.{is_agent_required, validate_artifact, check_protected_start}
use model_lib.Run.Handlers.{
  is_not_observed, has_exited, is_failed_to_start, on_worktree_created, on_patch_captured,
  on_agent_started, check_agent_exit, on_agent_exited, on_policy_checked, on_gate_started,
  validate_log, check_gate_progress, on_gate_finished, on_sandbox_evidence, on_provider_session,
  on_command_binding, on_candidate_captured, on_candidate_materialized, on_run_sealed,
  apply_with_contract,
}
use model_lib.Run.Steps.Guards.{
  IsArtifact, validate_artifact_iff, gate_obligation_iff, any-digest_iff, any-IsChecked_iff,
  any-requirement_iff, any-key_iff, check_protectors_iff, false_iff,
}
use model_lib.Run.Steps.{Step, MayExit, IsLog}

is_some_of : {A : Type 0} (o : Option A) → o ≡ none → is_some o ≡ false
is_some_of none h = refl
is_some_of (some a) h = cc

is_none_of : {A : Type 0} (o : Option A) → is_some o ≡ true → is_none o ≡ false
is_none_of none h = cc
is_none_of (some a) h = refl

not_of : (b : Bool) → b ≡ true → not b ≡ false
not_of true h = refl
not_of false h = cc

required_of :
    (a : AgentObligation) → a ≡ AgentObligation.required → not (is_agent_required a) ≡ false
unfolding is_agent_required
required_of a h = ground arith

observed_of :
    (a : AgentLifecycle) → a ≡ AgentLifecycle.not_observed → not (is_not_observed a) ≡ false
unfolding is_not_observed
observed_of a h = ground arith

terminal_of :
    (a : AgentObligation) (l : AgentLifecycle)
    → (a ≡ AgentObligation.required → (o : AgentOutcome) × (l ≡ AgentLifecycle.exited o))
    → is_agent_required a && not (has_exited l) ≡ false
unfolding is_agent_required has_exited
terminal_of (AgentObligation.not_used reason) l f = refl
terminal_of AgentObligation.required l f = let (o, e) = f refl in rw e

exit_of :
    (s : RunState) (c : RunContract) (seq : ℕ) {a : AgentLifecycle} {o : AgentOutcome}
    → MayExit a o
    → check_agent_exit s c seq a o ≡ ok tt
unfolding check_agent_exit is_failed_to_start
exit_of s c seq MayExit.from_started = refl
exit_of s c seq MayExit.unstarted = refl

log_of :
    (s : RunState) (c : RunContract) (seq : ℕ) {log : Option ArtifactRef}
    → IsLog log
    → validate_log s c seq log ≡ ok tt
unfolding validate_log
log_of s c seq IsLog.no_log = refl
log_of s c seq (IsLog.a_log {a} v) = (validate_artifact_iff a _ seq).1 v

progress_of :
    (s : RunState) (c : RunContract) (seq : ℕ) (g : GateId) {p : Option GateProgress}
    → p ≡ some GateProgress.started
    → check_gate_progress s c seq g p ≡ ok tt
unfolding check_gate_progress
progress_of s c seq g h = rw h

module _ (s : RunState) (c : RunContract) (seq : ℕ) where
  artifact_of :
      {A : Type 0} (a : ArtifactRef) (k : ArtifactKind) {r : Result ReduceError A} {x : A}
      → IsArtifact k a
      → r ≡ ok x
      → (validate_artifact a k seq >> r) ≡ ok x
  artifact_of a k {r} v h = >>-ok _ r ((validate_artifact_iff a k seq).1 v) h

  -- Every step of the transition relation is one that the reducer applies, with the same result.
  pub apply_with_contract_complete :
      {k : RunEventKind} {t : RunState} → Step s c k t → apply_with_contract s c seq k ≡ ok t
  unfolding apply_with_contract on_worktree_created on_patch_captured on_agent_started
      check_protected_start on_agent_exited on_policy_checked on_gate_started on_gate_finished
      on_sandbox_evidence on_provider_session on_command_binding on_candidate_captured
      on_candidate_materialized on_run_sealed
  apply_with_contract_complete (Step.worktree {a} v f) =
      artifact_of a _ v (reject->>-ok _ _ _ (is_some_of _ f) refl)
  apply_with_contract_complete (Step.patch {a} v f) =
      artifact_of a _ v (reject->>-ok _ _ _ (is_some_of _ f) refl)
  apply_with_contract_complete (Step.agent_start r n m p) = reject->>-ok _ _ _ (required_of _ r) (
      reject->>-ok _ _ _ (observed_of _ n) (
        reject->>-ok _ _ _ (ground (arith, m))
          (>>-ok _ _ ((check_protectors_iff s _ seq c.policy_obligations).1 p) refl)))
  apply_with_contract_complete (Step.agent_exit r m) =
      reject->>-ok _ _ _ (required_of _ r) (>>-ok _ _ (exit_of s c seq m) refl)
  apply_with_contract_complete (Step.policy {a} v d f) = artifact_of a _ v (
      reject->>-ok _ _ _ (not_of _ ((any-digest_iff c a.digest).1 d))
        (reject->>-ok _ _ _ ((false_iff _ (any-IsChecked_iff s.policy_results a.digest)).1 f) refl))
  apply_with_contract_complete (Step.gate_start {g} d f p) =
      reject->>-ok _ _ _ (is_none_of _ ((gate_obligation_iff c g).1 d)) (
        reject->>-ok _ _ _ (is_some_of _ f)
          (>>-ok _ _ ((check_protectors_iff s _ seq c.policy_obligations).1 p) refl))
  apply_with_contract_complete (Step.gate_finish {g} d l p) =
      reject->>-ok _ _ _ (is_none_of _ ((gate_obligation_iff c g).1 d))
        (>>-ok _ _ (log_of s c seq l) (>>-ok _ _ (progress_of s c seq g p) refl))
  apply_with_contract_complete (Step.evidence {x} {d} {a} v r f) = artifact_of a _ v (
      reject->>-ok _ _ _ (not_of _ ((any-requirement_iff c x d).1 r))
        (reject->>-ok _ _ _ ((false_iff _ (any-key_iff s.sandbox_evidence _)).1 f) refl))
  apply_with_contract_complete (Step.session {a} v f) =
      artifact_of a _ v (reject->>-ok _ _ _ (is_some_of _ f) refl)
  apply_with_contract_complete (Step.binding {a} v f) =
      artifact_of a _ v (reject->>-ok _ _ _ (is_some_of _ f) refl)
  apply_with_contract_complete (Step.capture {a} v f p e) = artifact_of a _ v (
      reject->>-ok _ _ _ (is_some_of _ f)
        (reject->>-ok _ _ _ (is_none_of _ p) (reject->>-ok _ _ _ (terminal_of _ _ e) refl)))
  apply_with_contract_complete (Step.materialize {run} {r} {p} v w f b n) = artifact_of r _ v (
      artifact_of p _ w (
        reject->>-ok _ _ _ (is_some_of _ f)
          (reject->>-ok _ _ _ (is_none_of _ b) (reject->>-ok _ _ _ (observed_of _ n) refl))))
  apply_with_contract_complete Step.seal = refl

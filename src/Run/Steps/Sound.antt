-- ===== src/Run/Steps/Sound.antt =====
-- The handlers of crates/o7-run/src/reduce.rs take only steps of the transition relation.
use model_lib.Prelude.{
  ℕ, Bool, true, false, not, ◌&&◌, Option, none, some, Text, is_some, is_none, Result, ok, >>-eq-ok,
  reject->>-eq-ok, ok_injective, text_ord, map_get, text_eq, ◌≡◌, refl, arith, subst,
}
use model_lib.Run.Ids.{RunId, GateId, Digest256}
use model_lib.Run.Contract.{
  ArtifactRef, GateOutcome, PolicyOutcome, ExecutionSubject, SandboxEvidenceOutcome,
  PolicyProtectedSubject, AgentObligation, RunContract, execution_subject_eq,
}
use model_lib.Run.Event.{AgentOutcome, RunEventKind}
use model_lib.Run.State.{GateProgress, AgentLifecycle, RunState}
use model_lib.Run.Errors.{ReduceError}
use model_lib.Run.Admission.{is_agent_required, check_protectors, check_protected_start}
use model_lib.Run.Handlers.{
  is_not_observed, has_exited, is_failed_to_start, on_worktree_created, on_patch_captured,
  on_agent_started, check_agent_exit, on_agent_exited, on_policy_checked, on_gate_started,
  validate_log, check_gate_progress, on_gate_finished, on_sandbox_evidence, on_provider_session,
  on_command_binding, on_candidate_captured, on_candidate_materialized, on_run_sealed,
  apply_with_contract,
}
use model_lib.Run.Steps.Guards.{
  validate_artifact_iff, validate_artifact->>, gate_obligation_iff, any-digest_iff,
  any-IsChecked_iff, any-requirement_iff, any-key_iff, check_protectors_iff, false_iff,
}
use model_lib.Run.Steps.{Step, MayExit, IsLog}

-- A slot that has to be empty.
none_of : {A : Type 0} (o : Option A) → is_some o ≡ false → o ≡ none
none_of none h = refl
none_of (some a) h = cc

some_of : {A : Type 0} (o : Option A) → is_none o ≡ false → is_some o ≡ true
some_of none h = cc
some_of (some a) h = refl

not-false : (b : Bool) → not b ≡ false → b ≡ true
not-false true h = refl
not-false false h = cc

agent_required :
    (a : AgentObligation) → not (is_agent_required a) ≡ false → a ≡ AgentObligation.required
unfolding is_agent_required
agent_required a h = ground arith

not_observed :
    (a : AgentLifecycle) → not (is_not_observed a) ≡ false → a ≡ AgentLifecycle.not_observed
unfolding is_not_observed
not_observed a h = ground arith

check_agent_exit-MayExit :
    (s : RunState) (c : RunContract) (seq : ℕ) (a : AgentLifecycle) (o : AgentOutcome)
    → check_agent_exit s c seq a o ≡ ok tt
    → MayExit a o
unfolding check_agent_exit is_failed_to_start
check_agent_exit-MayExit s c seq AgentLifecycle.started o h = MayExit.from_started
check_agent_exit-MayExit s c seq (AgentLifecycle.exited x) o h = cc
check_agent_exit-MayExit s c seq AgentLifecycle.not_observed (AgentOutcome.failed_to_start reason)
      h =
    MayExit.unstarted
check_agent_exit-MayExit s c seq AgentLifecycle.not_observed _ h = cc

validate_log-IsLog :
    (s : RunState) (c : RunContract) (seq : ℕ) (log : Option ArtifactRef)
    → validate_log s c seq log ≡ ok tt
    → IsLog log
unfolding validate_log
validate_log-IsLog s c seq none h = IsLog.no_log
validate_log-IsLog s c seq (some a) h = IsLog.a_log ((validate_artifact_iff a _ seq).0 h)

check_gate_progress-started :
    (s : RunState) (c : RunContract) (seq : ℕ) (g : GateId) (p : Option GateProgress)
    → check_gate_progress s c seq g p ≡ ok tt
    → p ≡ some GateProgress.started
unfolding check_gate_progress
check_gate_progress-started s c seq g p h = ground arith

exited_of :
    (a : AgentObligation) (l : AgentLifecycle)
    → is_agent_required a && not (has_exited l) ≡ false
    → a ≡ AgentObligation.required
    → (o : AgentOutcome) × (l ≡ AgentLifecycle.exited o)
unfolding is_agent_required has_exited
exited_of a (AgentLifecycle.exited o) h e = (o, refl)
exited_of a AgentLifecycle.started h e = absurd (ground arith)
exited_of a AgentLifecycle.not_observed h e = absurd (ground arith)

module _ (s : RunState) (c : RunContract) (seq : ℕ) {t : RunState} where
  Step-to :
      {k : RunEventKind} {u : RunState}
      → Step s c k u
      → ◌≡◌ {A = Result ReduceError RunState} (ok u) (ok t)
      → Step s c k t
  Step-to {k} st e = subst (Step s c k) (ok_injective e) st

  worktree-Step :
      (a : ArtifactRef)
      → on_worktree_created s c seq a ≡ ok t
      → Step s c (RunEventKind.worktree_created a) t
  unfolding on_worktree_created
  worktree-Step a h =
      let (v, h1) = validate_artifact->> a _ seq _ h in
      let (f, h2) = reject->>-eq-ok _ _ _ h1 in Step-to (Step.worktree v (none_of s.worktree f)) h2

  patch-Step :
      (a : ArtifactRef)
      → on_patch_captured s c seq a ≡ ok t
      → Step s c (RunEventKind.patch_captured a) t
  unfolding on_patch_captured
  patch-Step a h =
      let (v, h1) = validate_artifact->> a _ seq _ h in
      let (f, h2) = reject->>-eq-ok _ _ _ h1 in Step-to (Step.patch v (none_of s.patch f)) h2

  agent_start-Step : on_agent_started s c seq ≡ ok t → Step s c RunEventKind.agent_started t
  unfolding on_agent_started check_protected_start
  agent_start-Step h =
      let (a, h1) = reject->>-eq-ok _ _ _ h in
      let (b, h2) = reject->>-eq-ok _ _ _ h1 in
      let (d, h3) = reject->>-eq-ok _ _ _ h2 in
      let (p, h4) =
        >>-eq-ok (check_protectors s PolicyProtectedSubject.agent seq c.policy_obligations) _ h3 in
      Step-to
        (Step.agent_start (agent_required c.agent a) (not_observed s.agent b)
          (λ x y. ground (arith, d))
          ((check_protectors_iff s PolicyProtectedSubject.agent seq c.policy_obligations).0 p))
        h4

  agent_exit-Step :
      (o : AgentOutcome)
      → on_agent_exited s c seq o ≡ ok t
      → Step s c (RunEventKind.agent_exited o) t
  unfolding on_agent_exited
  agent_exit-Step o h =
      let (a, h1) = reject->>-eq-ok _ _ _ h in
      let (m, h2) = >>-eq-ok (check_agent_exit s c seq s.agent o) _ h1 in
      Step-to
        (Step.agent_exit (agent_required c.agent a) (check_agent_exit-MayExit s c seq s.agent o m))
        h2

  policy-Step :
      (a : ArtifactRef) (o : PolicyOutcome)
      → on_policy_checked s c seq a o ≡ ok t
      → Step s c (RunEventKind.policy_checked a o) t
  unfolding on_policy_checked
  policy-Step a o h =
      let (v, h1) = validate_artifact->> a _ seq _ h in
      let (d, h2) = reject->>-eq-ok _ _ _ h1 in
      let (f, h3) = reject->>-eq-ok _ _ _ h2 in
      Step-to
        (Step.policy v ((any-digest_iff c a.digest).0 (not-false _ d))
          ((false_iff _ (any-IsChecked_iff s.policy_results a.digest)).0 f))
        h3

  gate_start-Step :
      (g : GateId) → on_gate_started s c seq g ≡ ok t → Step s c (RunEventKind.gate_started g) t
  unfolding on_gate_started check_protected_start
  gate_start-Step g h =
      let (d, h1) = reject->>-eq-ok _ _ _ h in
      let (f, h2) = reject->>-eq-ok _ _ _ h1 in
      let (p, h3) =
        >>-eq-ok (check_protectors s (PolicyProtectedSubject.gate g) seq c.policy_obligations) _
          h2 in
      Step-to
        (Step.gate_start ((gate_obligation_iff c g).0 (some_of _ d)) (none_of _ f)
          ((check_protectors_iff s (PolicyProtectedSubject.gate g) seq c.policy_obligations).0 p))
        h3

  gate_finish-Step :
      (g : GateId) (o : GateOutcome) (log : Option ArtifactRef)
      → on_gate_finished s c seq g o log ≡ ok t
      → Step s c (RunEventKind.gate_finished g o log) t
  unfolding on_gate_finished
  gate_finish-Step g o log h =
      let (d, h1) = reject->>-eq-ok _ _ _ h in
      let (l, h2) = >>-eq-ok (validate_log s c seq log) _ h1 in
      let (p, h3) = >>-eq-ok (check_gate_progress s c seq g (map_get g s.gates)) _ h2 in
      Step-to
        (Step.gate_finish ((gate_obligation_iff c g).0 (some_of _ d))
          (validate_log-IsLog s c seq log l)
          (check_gate_progress-started s c seq g (map_get g s.gates) p))
        h3

  evidence-Step :
      (x : ExecutionSubject) (d : Digest256) (a : ArtifactRef) (o : SandboxEvidenceOutcome)
      → on_sandbox_evidence s c seq x d a o ≡ ok t
      → Step s c (RunEventKind.sandbox_evidence_captured x d a o) t
  unfolding on_sandbox_evidence
  evidence-Step x d a o h =
      let (v, h1) = validate_artifact->> a _ seq _ h in
      let (r, h2) = reject->>-eq-ok _ _ _ h1 in
      let (f, h3) = reject->>-eq-ok _ _ _ h2 in
      Step-to
        (Step.evidence v ((any-requirement_iff c x d).0 (not-false _ r)) (
          (false_iff _
              (any-key_iff s.sandbox_evidence (record { subject = x; policy_digest = d }))).0
            f))
        h3

  session-Step :
      (a : ArtifactRef)
      → on_provider_session s c seq a ≡ ok t
      → Step s c (RunEventKind.provider_session_captured a) t
  unfolding on_provider_session
  session-Step a h =
      let (v, h1) = validate_artifact->> a _ seq _ h in
      let (f, h2) = reject->>-eq-ok _ _ _ h1 in
      Step-to (Step.session v (none_of s.provider_session_receipt f)) h2

  binding-Step :
      (a : ArtifactRef)
      → on_command_binding s c seq a ≡ ok t
      → Step s c (RunEventKind.command_binding_captured a) t
  unfolding on_command_binding
  binding-Step a h =
      let (v, h1) = validate_artifact->> a _ seq _ h in
      let (f, h2) = reject->>-eq-ok _ _ _ h1 in
      Step-to (Step.binding v (none_of s.command_binding f)) h2

  capture-Step :
      (a : ArtifactRef)
      → on_candidate_captured s c seq a ≡ ok t
      → Step s c (RunEventKind.candidate_state_captured a) t
  unfolding on_candidate_captured
  capture-Step a h =
      let (v, h1) = validate_artifact->> a _ seq _ h in
      let (f, h2) = reject->>-eq-ok _ _ _ h1 in
      let (p, h3) = reject->>-eq-ok _ _ _ h2 in
      let (e, h4) = reject->>-eq-ok _ _ _ h3 in
      Step-to
        (Step.capture v (none_of s.candidate_state f) (some_of s.patch p)
          (exited_of c.agent s.agent e))
        h4

  materialize-Step :
      (run : RunId) (r p : ArtifactRef) (oid : Text)
      → on_candidate_materialized s c seq run r p oid ≡ ok t
      → Step s c (RunEventKind.candidate_state_materialized run r p oid) t
  unfolding on_candidate_materialized
  materialize-Step run r p oid h =
      let (v, h1) = validate_artifact->> r _ seq _ h in
      let (w, h2) = validate_artifact->> p _ seq _ h1 in
      let (f, h3) = reject->>-eq-ok _ _ _ h2 in
      let (b, h4) = reject->>-eq-ok _ _ _ h3 in
      let (n, h5) = reject->>-eq-ok _ _ _ h4 in
      Step-to
        (Step.materialize v w (none_of s.candidate_materialized f) (some_of s.command_binding b)
          (not_observed s.agent n))
        h5

  -- An event that the reducer applies after the start takes a step of the transition relation.
  pub apply_with_contract-Step :
      (k : RunEventKind) → apply_with_contract s c seq k ≡ ok t → Step s c k t
  unfolding apply_with_contract on_run_sealed
  apply_with_contract-Step (RunEventKind.run_started contract task) h = cc
  apply_with_contract-Step (RunEventKind.worktree_created a) h = worktree-Step a h
  apply_with_contract-Step (RunEventKind.patch_captured a) h = patch-Step a h
  apply_with_contract-Step RunEventKind.agent_started h = agent_start-Step h
  apply_with_contract-Step (RunEventKind.agent_exited o) h = agent_exit-Step o h
  apply_with_contract-Step (RunEventKind.policy_checked a o) h = policy-Step a o h
  apply_with_contract-Step (RunEventKind.gate_started g) h = gate_start-Step g h
  apply_with_contract-Step (RunEventKind.gate_finished g o log) h = gate_finish-Step g o log h
  apply_with_contract-Step (RunEventKind.sandbox_evidence_captured x d a o) h =
      evidence-Step x d a o h
  apply_with_contract-Step (RunEventKind.provider_session_captured a) h = session-Step a h
  apply_with_contract-Step (RunEventKind.command_binding_captured a) h = binding-Step a h
  apply_with_contract-Step (RunEventKind.candidate_state_captured a) h = capture-Step a h
  apply_with_contract-Step (RunEventKind.candidate_state_materialized run r p oid) h =
      materialize-Step run r p oid h
  apply_with_contract-Step RunEventKind.run_sealed h = Step-to Step.seal h

-- ===== src/Run/Admission.antt =====
-- crates/o7-run/src/reduce.rs: what is checked of an artifact reference and of the contract at
-- `RunStarted`, and of a start that a policy protects.
use model_lib.Prelude.{
  ℕ, Bool, true, false, not, ◌&&◌, ◌||◌, Option, none, some, List, [], ◌∷◌, ◌++◌, Text, text_eq,
  nat_eq, ◌==◌, leb, if◌then◌else◌, is_none, is_empty, any, find, contains, Result, ok, err, reject,
  ◌>>◌, text_ord, set_insert,
}
use model_lib.Run.Ids.{GateId, Digest256}
use model_lib.Run.Contract.{
  ArtifactKind, ArtifactRef, PolicyOutcome, ExecutionSubject, SandboxRequirement, GateRequirement,
  GateApplicability, GateObligation, PolicyRequirement, PolicyProtectedSubject, PolicyObligation,
  AgentObligation, CandidateStateContractV1, RunContract, candidate_state_contract_schema_v1,
  artifact_kind_eq, execution_subject_eq, protected_subject_eq,
}
use model_lib.Run.State.{RunState, PolicyResult}
use model_lib.Run.Errors.{ReduceError}

unfoldable pub gate_obligation : RunContract → GateId → Option GateObligation
gate_obligation contract gate = find (λ o. o.gate == gate) contract.gate_obligations

unfoldable pub is_required_gate : GateRequirement → Bool
is_required_gate GateRequirement.required = true
is_required_gate GateRequirement.optional = false

unfoldable pub is_applicable : GateApplicability → Bool
is_applicable GateApplicability.applicable = true
is_applicable (GateApplicability.waived environment reason) = false

unfoldable pub is_required_applicable : GateObligation → Bool
unfolding is_required_gate is_applicable
is_required_applicable o = is_required_gate o.requirement && is_applicable o.applicability

unfoldable pub is_required_policy : PolicyRequirement → Bool
is_required_policy PolicyRequirement.required = true
is_required_policy PolicyRequirement.optional = false

unfoldable pub is_agent_required : AgentObligation → Bool
is_agent_required AgentObligation.required = true
is_agent_required (AgentObligation.not_used reason) = false

unfoldable pub is_allowed : PolicyOutcome → Bool
is_allowed PolicyOutcome.allowed = true
is_allowed PolicyOutcome.denied = false
is_allowed PolicyOutcome.error = false

unfoldable pub validate_artifact : ArtifactRef → ArtifactKind → ℕ → Result ReduceError (Unit {0})
validate_artifact artifact expected seq = do
  reject (is_empty artifact.locator) (ReduceError.empty_artifact_locator seq)
  reject (not (artifact.kind == expected))
      (ReduceError.wrong_artifact_kind seq expected artifact.kind)

-- Where the scan of a text for white space stands inside the UTF-8 form of a code point.
pub data BlankState : Type 0 where
  start after_c2 after_e1 after_e1_9a after_e2 after_e2_80 after_e2_81 after_e3 : BlankState
  after_e3_80 : BlankState

-- The bytes of the code points with `White_Space`, which `str::trim` removes.
unfoldable pub blank_step : BlankState → ℕ → Option BlankState
blank_step BlankState.start b =
    if leb 0x09 b && leb b 0x0d || b == 0x20
    then some BlankState.start
    else if b == 0xc2
    then some BlankState.after_c2
    else if b == 0xe1
    then some BlankState.after_e1
    else if b == 0xe2
    then some BlankState.after_e2
    else if b == 0xe3
    then some BlankState.after_e3
    else none
blank_step BlankState.after_c2 b = if b == 0x85 || b == 0xa0 then some BlankState.start else none
blank_step BlankState.after_e1 b = if b == 0x9a then some BlankState.after_e1_9a else none
blank_step BlankState.after_e1_9a b = if b == 0x80 then some BlankState.start else none
blank_step BlankState.after_e2 b =
    if b == 0x80
    then some BlankState.after_e2_80
    else if b == 0x81
    then some BlankState.after_e2_81
    else none
blank_step BlankState.after_e2_80 b =
    if leb 0x80 b && leb b 0x8a || b == 0xa8 || b == 0xa9 || b == 0xaf
    then some BlankState.start
    else none
blank_step BlankState.after_e2_81 b = if b == 0x9f then some BlankState.start else none
blank_step BlankState.after_e3 b = if b == 0x80 then some BlankState.after_e3_80 else none
blank_step BlankState.after_e3_80 b = if b == 0x80 then some BlankState.start else none

unfoldable pub blank_from : BlankState → Text → Bool
unfolding blank_step
blank_from BlankState.start [] = true
blank_from _ [] = false
blank_from st (b ∷ bs) = elim (blank_step st b) [ none ↦ false | some next ↦ blank_from next bs ]

-- `s.trim().is_empty()`
unfoldable pub is_blank : Text → Bool
unfolding blank_from
is_blank s = blank_from BlankState.start s

unfoldable pub validate_waiver : Text → GateObligation → Result ReduceError (Unit {0})
validate_waiver runner o = elim o.applicability [
  | GateApplicability.applicable ↦ ok tt
  | GateApplicability.waived environment reason ↦ do
    reject (not (environment == runner))
        (ReduceError.waiver_environment_mismatch o.gate environment runner)
    reject (is_blank reason) (ReduceError.empty_waiver_reason o.gate)
]

unfoldable pub validate_gates :
    Text → List GateId → List GateObligation → Result ReduceError (Unit {0})
validate_gates runner seen [] = ok tt
validate_gates runner seen (o ∷ os) = do
  reject (contains seen o.gate) (ReduceError.duplicate_gate_in_contract o.gate)
  validate_waiver runner o
  validate_gates runner (set_insert o.gate seen) os

unfoldable pub validate_protected :
    RunContract → PolicyProtectedSubject → Result ReduceError (Unit {0})
validate_protected contract PolicyProtectedSubject.agent =
    reject (not (is_agent_required contract.agent)) ReduceError.policy_protects_agent_without_agent
validate_protected contract (PolicyProtectedSubject.gate gate) =
    reject (is_none (gate_obligation contract gate)) (ReduceError.policy_protects_unknown_gate gate)

unfoldable pub validate_protects :
    RunContract
    → List PolicyProtectedSubject
    → List PolicyProtectedSubject
    → Result ReduceError (Unit {0})
validate_protects contract seen [] = ok tt
validate_protects contract seen (s ∷ ss) = do
  reject (contains seen s) (ReduceError.duplicate_protected_subject s)
  validate_protected contract s
  validate_protects contract (seen ++ s ∷ []) ss

abbrev is_nil {ℓ} : {A : Type ℓ} → List A → Bool
is_nil [] = true
is_nil (x ∷ xs) = false

unfoldable pub validate_policies :
    RunContract → ℕ → List Digest256 → List PolicyObligation → Result ReduceError (Unit {0})
validate_policies contract seq seen [] = ok tt
validate_policies contract seq seen (p ∷ ps) = do
  validate_artifact p.policy ArtifactKind.policy seq
  reject (contains seen p.policy.digest) (ReduceError.duplicate_policy_in_contract p.policy.digest)
  reject (not (is_nil p.protects) && not (is_required_policy p.requirement))
      (ReduceError.optional_policy_with_protects p.policy.digest)
  validate_protects contract [] p.protects
  validate_policies contract seq (set_insert p.policy.digest seen) ps

unfoldable pub validate_sandbox_gate :
    GateId → Option GateObligation → Result ReduceError (Unit {0})
validate_sandbox_gate gate none = err (ReduceError.sandbox_subject_unknown_gate gate)
validate_sandbox_gate gate (some o) =
    reject (not (is_required_applicable o)) (ReduceError.sandbox_subject_gate_ineligible gate)

unfoldable pub validate_subject : RunContract → ExecutionSubject → Result ReduceError (Unit {0})
validate_subject contract ExecutionSubject.agent =
    reject (not (is_agent_required contract.agent)) ReduceError.sandbox_agent_subject_without_agent
validate_subject contract (ExecutionSubject.gate gate) =
    validate_sandbox_gate gate (gate_obligation contract gate)
validate_subject contract ExecutionSubject.verifier = ok tt

unfoldable pub same_requirement : SandboxRequirement → SandboxRequirement → Bool
same_requirement a b = a.subject == b.subject && a.policy_digest == b.policy_digest

unfoldable pub validate_sandbox :
    RunContract → List SandboxRequirement → List SandboxRequirement → Result ReduceError (Unit {0})
validate_sandbox contract seen [] = ok tt
validate_sandbox contract seen (r ∷ rs) = do
  reject (any (same_requirement r) seen)
      (ReduceError.duplicate_sandbox_requirement r.subject r.policy_digest)
  validate_subject contract r.subject
  validate_sandbox contract (seen ++ r ∷ []) rs

unfoldable pub validate_candidate : Option CandidateStateContractV1 → Result ReduceError (Unit {0})
validate_candidate none = ok tt
validate_candidate (some obligation) =
    reject (not (obligation.schema == candidate_state_contract_schema_v1)) (
      ReduceError.unsupported_candidate_contract_schema obligation.schema
        candidate_state_contract_schema_v1)

unfoldable pub validate_contract : RunContract → ℕ → Result ReduceError (Unit {0})
validate_contract contract seq = do
  validate_candidate contract.candidate_state
  validate_gates contract.runner_environment [] contract.gate_obligations
  validate_policies contract seq [] contract.policy_obligations
  validate_sandbox contract [] contract.sandbox_requirements

unfoldable pub protected_to_execution : PolicyProtectedSubject → ExecutionSubject
protected_to_execution PolicyProtectedSubject.agent = ExecutionSubject.agent
protected_to_execution (PolicyProtectedSubject.gate gate) = ExecutionSubject.gate gate

unfoldable pub was_allowed : List PolicyResult → Digest256 → Bool
was_allowed results digest = any (λ r. r.policy.digest == digest && is_allowed r.outcome) results

-- The loop of `check_protected_start`; the two `continue`s are the first two conjuncts.
unfoldable pub check_protectors :
    RunState → PolicyProtectedSubject → ℕ → List PolicyObligation → Result ReduceError (Unit {0})
check_protectors state subject seq [] = ok tt
check_protectors state subject seq (p ∷ ps) = do
  reject
      (is_required_policy p.requirement
        && any (λ s. s == subject) p.protects
        && not (was_allowed state.policy_results p.policy.digest))
      (ReduceError.protected_start_before_policy_allowed seq (protected_to_execution subject))
  check_protectors state subject seq ps

unfoldable pub check_protected_start :
    RunState → RunContract → PolicyProtectedSubject → ℕ → Result ReduceError (Unit {0})
check_protected_start state contract subject seq =
    check_protectors state subject seq contract.policy_obligations

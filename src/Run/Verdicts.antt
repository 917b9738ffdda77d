-- ===== src/Run/Verdicts.antt =====
-- crates/o7-run/src/reduce.rs: the verdict at `RunSealed`.
pub mod Precedence
pub mod Discharge
use model_lib.Prelude.{
  ℕ, Bool, true, false, not, ◌&&◌, ◌||◌, Option, none, some, List, [], ◌∷◌, text_eq, nat_eq, ◌==◌,
  if◌then◌else◌, is_some, is_none, any, find, filter, Eq, text_ord, map_get, ◌≡◌, refl,
}
use model_lib.Run.Ids.{GateId, RunEventId, Digest256}
use model_lib.Run.Contract.{
  GateOutcome, PolicyOutcome, SandboxEvidenceOutcome, SandboxRequirement, GateObligation,
  PolicyProtectedSubject, PolicyObligation, RunContract, execution_subject_eq,
}
use model_lib.Run.Event.{AgentOutcome}
use model_lib.Run.State.{
  Verdict, RunPhase, GateProgress, AgentLifecycle, PolicyResult, SandboxEvidenceEntry, RunState,
}
use model_lib.Run.Admission.{is_required_applicable, is_required_policy, is_agent_required}

-- The three mutable locals of `compute_verdict`.
pub record Flags : Type 0 where
  pub error : Bool
  pub fail : Bool
  pub blocked : Bool

abbrev pub set_error : Flags → Flags
set_error f = record f { error = true }

abbrev pub set_fail : Flags → Flags
set_fail f = record f { fail = true }

abbrev pub set_blocked : Flags → Flags
set_blocked f = record f { blocked = true }

pub data NonStart : Type 0 where
  error blocked : NonStart

unfoldable pub is_agent_subject : PolicyProtectedSubject → Bool
is_agent_subject PolicyProtectedSubject.agent = true
is_agent_subject (PolicyProtectedSubject.gate gate) = false

unfoldable pub protects_agent : PolicyObligation → Bool
unfolding is_agent_subject
protects_agent o = is_required_policy o.requirement && any is_agent_subject o.protects

-- `find(..).map(|r| r.outcome)`
unfoldable pub policy_outcome : List PolicyResult → Digest256 → Option PolicyOutcome
policy_outcome results digest = elim (find (λ r. r.policy.digest == digest) results) [
  | none ↦ none
  | some r ↦ some r.outcome
]

-- The flags `any_error` and `any_denied_or_absent`.
unfoldable pub note_protector : Option PolicyOutcome → Bool × Bool → Bool × Bool
note_protector (some PolicyOutcome.error) (e, d) = (true, d)
note_protector (some PolicyOutcome.denied) (e, d) = (e, true)
note_protector none (e, d) = (e, true)
note_protector (some PolicyOutcome.allowed) (e, d) = (e, d)

unfoldable pub note_protectors :
    List PolicyResult → Bool × Bool → List PolicyObligation → Bool × Bool
note_protectors results flags [] = flags
note_protectors results flags (o ∷ os) =
    note_protectors results (note_protector (policy_outcome results o.policy.digest) flags) os

unfoldable pub nonstart_of : Bool × Bool → NonStart
nonstart_of (any_error, any_denied_or_absent) =
    if any_error
    then NonStart.error
    else if any_denied_or_absent
    then NonStart.blocked
    else NonStart.error

unfoldable pub nonstart_from : List PolicyResult → List PolicyObligation → NonStart
nonstart_from results [] = NonStart.error
nonstart_from results (o ∷ os) = nonstart_of (note_protectors results (false, false) (o ∷ os))

unfoldable pub agent_nonstart_disposition : RunState → RunContract → NonStart
agent_nonstart_disposition state contract =
    nonstart_from state.policy_results (filter protects_agent contract.policy_obligations)

unfoldable pub is_clean_exit : AgentOutcome → Bool
is_clean_exit (AgentOutcome.exited_normally code) = code == 0
is_clean_exit _ = false

unfoldable pub agent_flags : AgentLifecycle → NonStart → Flags → Flags
agent_flags (AgentLifecycle.exited outcome) disposition f =
    if is_clean_exit outcome then f else set_error f
agent_flags AgentLifecycle.started disposition f = set_error f
agent_flags AgentLifecycle.not_observed NonStart.error f = set_error f
agent_flags AgentLifecycle.not_observed NonStart.blocked f = set_blocked f

unfoldable pub gate_flags : Option GateProgress → Flags → Flags
gate_flags none f = set_blocked f
gate_flags (some GateProgress.started) f = set_error f
gate_flags (some (GateProgress.finished GateOutcome.pass)) f = f
gate_flags (some (GateProgress.finished GateOutcome.warn)) f = f
gate_flags (some (GateProgress.finished GateOutcome.fail)) f = set_fail f
gate_flags (some (GateProgress.finished GateOutcome.error)) f = set_error f
gate_flags (some (GateProgress.finished GateOutcome.blocked)) f = set_blocked f
gate_flags (some (GateProgress.finished GateOutcome.not_applicable)) f = set_blocked f

unfoldable pub gates_flags : List (GateId × GateProgress) → Flags → List GateObligation → Flags
gates_flags gates f [] = f
gates_flags gates f (o ∷ os) =
    gates_flags gates (if is_required_applicable o then gate_flags (map_get o.gate gates) f else f)
      os

unfoldable pub policy_flags : Option PolicyOutcome → Flags → Flags
policy_flags none f = set_blocked f
policy_flags (some PolicyOutcome.allowed) f = f
policy_flags (some PolicyOutcome.denied) f = set_blocked f
policy_flags (some PolicyOutcome.error) f = set_error f

unfoldable pub policies_flags : List PolicyResult → Flags → List PolicyObligation → Flags
policies_flags results f [] = f
policies_flags results f (p ∷ ps) =
    policies_flags results
      (if is_required_policy p.requirement
        then policy_flags (policy_outcome results p.policy.digest) f
        else f)
      ps

unfoldable pub find_evidence :
    List SandboxEvidenceEntry → SandboxRequirement → Option SandboxEvidenceEntry
find_evidence evidence req =
    find (λ e. e.key.subject == req.subject && e.key.policy_digest == req.policy_digest) evidence

unfoldable pub sandbox_flags : Option SandboxEvidenceEntry → Flags → Flags
sandbox_flags none f = set_blocked f
sandbox_flags (some e) f = elim e.outcome [
  | SandboxEvidenceOutcome.satisfied ↦ f
  | SandboxEvidenceOutcome.violated ↦ set_blocked f
  | SandboxEvidenceOutcome.error ↦ set_error f
]

unfoldable pub sandboxes_flags : List SandboxEvidenceEntry → Flags → List SandboxRequirement → Flags
sandboxes_flags evidence f [] = f
sandboxes_flags evidence f (r ∷ rs) =
    sandboxes_flags evidence (sandbox_flags (find_evidence evidence r) f) rs

-- `Error > Fail > Blocked > Pass`.
unfoldable pub verdict_of : Flags → Verdict
verdict_of f =
    if f.error
    then Verdict.error
    else if f.fail
    then Verdict.fail
    else if f.blocked
    then Verdict.blocked
    else Verdict.pass

abbrev pub no_flags : Flags
no_flags = record { error = false; fail = false; blocked = false }

unfoldable pub agent_stage : RunState → RunContract → Flags
agent_stage state contract =
    if is_agent_required contract.agent
    then agent_flags state.agent (agent_nonstart_disposition state contract) no_flags
    else no_flags

unfoldable pub candidate_stage : RunState → RunContract → Flags → Flags
candidate_stage state contract f =
    if is_some contract.candidate_state && is_none state.candidate_state then set_blocked f else f

unfoldable pub compute_verdict : RunState → RunContract → Verdict
compute_verdict state contract =
    let f0 = agent_stage state contract in
    let f1 = gates_flags state.gates f0 contract.gate_obligations in
    let f2 = policies_flags state.policy_results f1 contract.policy_obligations in
    let f3 = sandboxes_flags state.sandbox_evidence f2 contract.sandbox_requirements in
    verdict_of (candidate_stage state contract f3)

-- The verdict reads the fields that the obligations are about, and no others.
pub compute_verdict_frame :
    (state : RunState) (contract : RunContract) (v : Option Verdict) (phase : RunPhase)
    (seen : List RunEventId) (last : Option ℕ) (digest : Digest256)
    → compute_verdict
        (record state {
          verdict = v;
          phase = phase;
          seen_event_ids = seen;
          last_sequence = last;
          last_event_digest = digest;
        })
        contract
      ≡ compute_verdict state contract
unfolding compute_verdict agent_stage agent_nonstart_disposition candidate_stage
compute_verdict_frame state contract v phase seen last digest = refl

-- ===== src/Run/Verdicts/Precedence.antt =====
-- The verdict as the worst of the obligations' own verdicts, under `Error > Fail > Blocked > Pass`.
-- This is the table of crates/o7-run/src/state.rs, read independently of the loops that compute it.
use model_lib.Prelude.{
  ℕ, ◌&&◌, Option, none, some, List, [], ◌∷◌, ◌++◌, ltb, if◌then◌else◌, is_some, is_none, text_eq,
  nat_eq, text_ord, map_get, ◌≡◌, refl, sym, ◌∙◌, ap, arith,
}
use model_lib.Run.Contract.{
  GateOutcome, PolicyOutcome, SandboxEvidenceOutcome, SandboxRequirement, GateObligation,
  PolicyObligation, RunContract,
}
use model_lib.Run.State.{Verdict, GateProgress, AgentLifecycle, SandboxEvidenceEntry, RunState}
use model_lib.Run.Admission.{is_required_applicable, is_required_policy, is_agent_required}
use model_lib.Run.Verdicts.{
  Flags, NonStart, agent_nonstart_disposition, is_clean_exit, agent_flags, gate_flags, gates_flags,
  policy_outcome, policy_flags, policies_flags, find_evidence, sandbox_flags, sandboxes_flags,
  verdict_of, agent_stage, candidate_stage, compute_verdict,
}

-- How much a verdict outranks the others.
abbrev rank : Verdict → ℕ
rank Verdict.pass = 0
rank Verdict.blocked = 1
rank Verdict.fail = 2
rank Verdict.error = 3

unfoldable pub worse : Verdict → Verdict → Verdict
worse a b = if ltb (rank a) (rank b) then b else a

unfoldable pub worst : List Verdict → Verdict
worst [] = Verdict.pass
worst (v ∷ vs) = worse v (worst vs)

-- What one gate's progress means for the run.
unfoldable pub gate_verdict : Option GateProgress → Verdict
gate_verdict none = Verdict.blocked
gate_verdict (some GateProgress.started) = Verdict.error
gate_verdict (some (GateProgress.finished GateOutcome.pass)) = Verdict.pass
gate_verdict (some (GateProgress.finished GateOutcome.warn)) = Verdict.pass
gate_verdict (some (GateProgress.finished GateOutcome.fail)) = Verdict.fail
gate_verdict (some (GateProgress.finished GateOutcome.error)) = Verdict.error
gate_verdict (some (GateProgress.finished GateOutcome.blocked)) = Verdict.blocked
gate_verdict (some (GateProgress.finished GateOutcome.not_applicable)) = Verdict.blocked

unfoldable pub policy_verdict : Option PolicyOutcome → Verdict
policy_verdict none = Verdict.blocked
policy_verdict (some PolicyOutcome.allowed) = Verdict.pass
policy_verdict (some PolicyOutcome.denied) = Verdict.blocked
policy_verdict (some PolicyOutcome.error) = Verdict.error

unfoldable pub evidence_verdict : Option SandboxEvidenceEntry → Verdict
evidence_verdict none = Verdict.blocked
evidence_verdict (some e) = elim e.outcome [
  | SandboxEvidenceOutcome.satisfied ↦ Verdict.pass
  | SandboxEvidenceOutcome.violated ↦ Verdict.blocked
  | SandboxEvidenceOutcome.error ↦ Verdict.error
]

unfoldable pub agent_verdict : AgentLifecycle → NonStart → Verdict
agent_verdict (AgentLifecycle.exited outcome) disposition =
    if is_clean_exit outcome then Verdict.pass else Verdict.error
agent_verdict AgentLifecycle.started disposition = Verdict.error
agent_verdict AgentLifecycle.not_observed NonStart.error = Verdict.error
agent_verdict AgentLifecycle.not_observed NonStart.blocked = Verdict.blocked

unfoldable pub gate_verdicts : RunState → List GateObligation → List Verdict
gate_verdicts state [] = []
gate_verdicts state (o ∷ os) =
    (if is_required_applicable o then gate_verdict (map_get o.gate state.gates) else Verdict.pass)
    ∷ gate_verdicts state os

unfoldable pub policy_verdicts : RunState → List PolicyObligation → List Verdict
policy_verdicts state [] = []
policy_verdicts state (p ∷ ps) =
    (if is_required_policy p.requirement
      then policy_verdict (policy_outcome state.policy_results p.policy.digest)
      else Verdict.pass)
    ∷ policy_verdicts state ps

unfoldable pub evidence_verdicts : RunState → List SandboxRequirement → List Verdict
evidence_verdicts state [] = []
evidence_verdicts state (r ∷ rs) =
    evidence_verdict (find_evidence state.sandbox_evidence r) ∷ evidence_verdicts state rs

unfoldable pub agent_obligation_verdict : RunState → RunContract → Verdict
agent_obligation_verdict state contract =
    if is_agent_required contract.agent
    then agent_verdict state.agent (agent_nonstart_disposition state contract)
    else Verdict.pass

unfoldable pub candidate_verdict : RunState → RunContract → Verdict
candidate_verdict state contract =
    if is_some contract.candidate_state && is_none state.candidate_state
    then Verdict.blocked
    else Verdict.pass

-- One verdict for each obligation of the contract.
unfoldable pub obligation_verdicts : RunState → RunContract → List Verdict
obligation_verdicts state contract =
    agent_obligation_verdict state contract
    ∷ (gate_verdicts state contract.gate_obligations
        ++ (policy_verdicts state contract.policy_obligations
            ++ (evidence_verdicts state contract.sandbox_requirements
                ++ candidate_verdict state contract ∷ [])))

worse_assoc : (a b c : Verdict) → worse (worse a b) c ≡ worse a (worse b c)
unfolding worse
worse_assoc a b c = ground arith

worse_pass : (a : Verdict) → worse a Verdict.pass ≡ a
unfolding worse
worse_pass a = ground arith

worst-append : (xs ys : List Verdict) → worst (xs ++ ys) ≡ worse (worst xs) (worst ys)
unfolding worst
worst-append [] ys = worse-pass_left (worst ys)
  where
    worse-pass_left : (a : Verdict) → a ≡ worse Verdict.pass a
    worse-pass_left a = unfold worse in ground arith
worst-append (x ∷ xs) ys =
    ap (worse x) (worst-append xs ys) ∙ sym (worse_assoc x (worst xs) (worst ys))

gate_flags-worse :
    (p : Option GateProgress) (f : Flags)
    → verdict_of (gate_flags p f) ≡ worse (verdict_of f) (gate_verdict p)
unfolding gate_flags verdict_of worse gate_verdict
gate_flags-worse p f = ground arith

policy_flags-worse :
    (p : Option PolicyOutcome) (f : Flags)
    → verdict_of (policy_flags p f) ≡ worse (verdict_of f) (policy_verdict p)
unfolding policy_flags verdict_of worse policy_verdict
policy_flags-worse p f = ground arith

sandbox_flags-worse :
    (e : Option SandboxEvidenceEntry) (f : Flags)
    → verdict_of (sandbox_flags e f) ≡ worse (verdict_of f) (evidence_verdict e)
unfolding sandbox_flags verdict_of worse evidence_verdict
sandbox_flags-worse e f = ground arith

gates_flags-worst :
    (state : RunState) (f : Flags) (os : List GateObligation)
    → verdict_of (gates_flags state.gates f os)
      ≡ worse (verdict_of f) (worst (gate_verdicts state os))
unfolding gates_flags gate_verdicts worst
gates_flags-worst state f [] = sym (worse_pass (verdict_of f))
gates_flags-worst state f (o ∷ os) = ground (
  arith,
  gate_flags-worse (map_get o.gate state.gates) f,
  gates_flags-worst state (gate_flags (map_get o.gate state.gates) f) os,
  gates_flags-worst state f os,
  worse_assoc (verdict_of f) (gate_verdict (map_get o.gate state.gates))
      (worst (gate_verdicts state os)),
  worse_assoc (verdict_of f) Verdict.pass (worst (gate_verdicts state os)),
  worse_pass (verdict_of f),
)

policies_flags-worst :
    (state : RunState) (f : Flags) (ps : List PolicyObligation)
    → verdict_of (policies_flags state.policy_results f ps)
      ≡ worse (verdict_of f) (worst (policy_verdicts state ps))
unfolding policies_flags policy_verdicts worst
policies_flags-worst state f [] = sym (worse_pass (verdict_of f))
policies_flags-worst state f (p ∷ ps) =
    let o = policy_outcome state.policy_results p.policy.digest in
    ground (
      arith,
      policy_flags-worse o f,
      policies_flags-worst state (policy_flags o f) ps,
      policies_flags-worst state f ps,
      worse_assoc (verdict_of f) (policy_verdict o) (worst (policy_verdicts state ps)),
      worse_assoc (verdict_of f) Verdict.pass (worst (policy_verdicts state ps)),
      worse_pass (verdict_of f),
    )

sandboxes_flags-worst :
    (state : RunState) (f : Flags) (rs : List SandboxRequirement)
    → verdict_of (sandboxes_flags state.sandbox_evidence f rs)
      ≡ worse (verdict_of f) (worst (evidence_verdicts state rs))
unfolding sandboxes_flags evidence_verdicts worst
sandboxes_flags-worst state f [] = sym (worse_pass (verdict_of f))
sandboxes_flags-worst state f (r ∷ rs) =
    let e = find_evidence state.sandbox_evidence r in
    ground (
      arith,
      sandbox_flags-worse e f,
      sandboxes_flags-worst state (sandbox_flags e f) rs,
      worse_assoc (verdict_of f) (evidence_verdict e) (worst (evidence_verdicts state rs)),
    )

agent_stage-verdict :
    (state : RunState) (contract : RunContract)
    → verdict_of (agent_stage state contract) ≡ agent_obligation_verdict state contract
unfolding agent_stage agent_flags verdict_of agent_obligation_verdict agent_verdict
agent_stage-verdict state contract = ground arith

candidate_stage-worse :
    (state : RunState) (contract : RunContract) (f : Flags)
    → verdict_of (candidate_stage state contract f)
      ≡ worse (verdict_of f) (candidate_verdict state contract)
unfolding candidate_stage verdict_of worse candidate_verdict
candidate_stage-worse state contract f = ground arith

worst_one : (v : Verdict) → worst (v ∷ []) ≡ v
unfolding worst
worst_one v = worse_pass v

-- The verdict of a run is the worst of the verdicts of its obligations: the agent, the gates, the
-- policies, the sandbox requirements and the candidate state, in the order error, fail, blocked,
-- pass.
pub compute_verdict-worst :
    (state : RunState) (contract : RunContract)
    → compute_verdict state contract ≡ worst (obligation_verdicts state contract)
unfolding compute_verdict obligation_verdicts
compute_verdict-worst state contract =
    let f0 = agent_stage state contract in
    let f1 = gates_flags state.gates f0 contract.gate_obligations in
    let f2 = policies_flags state.policy_results f1 contract.policy_obligations in
    let f3 = sandboxes_flags state.sandbox_evidence f2 contract.sandbox_requirements in
    let a = agent_obligation_verdict state contract in
    let gs = gate_verdicts state contract.gate_obligations in
    let ps = policy_verdicts state contract.policy_obligations in
    let es = evidence_verdicts state contract.sandbox_requirements in
    let c = candidate_verdict state contract in
    cc (
      candidate_stage-worse state contract f3,
      sandboxes_flags-worst state f2 contract.sandbox_requirements,
      policies_flags-worst state f1 contract.policy_obligations,
      gates_flags-worst state f0 contract.gate_obligations,
      agent_stage-verdict state contract,
      worst_cons a (gs ++ (ps ++ (es ++ c ∷ []))),
      worst-append gs (ps ++ (es ++ c ∷ [])),
      worst-append ps (es ++ c ∷ []),
      worst-append es (c ∷ []),
      worst_one c,
      worse_assoc a (worst gs) (worse (worst ps) (worse (worst es) c)),
      worse_assoc (worse a (worst gs)) (worst ps) (worse (worst es) c),
      worse_assoc (worse (worse a (worst gs)) (worst ps)) (worst es) c,
    )
  where
    worst_cons : (v : Verdict) (vs : List Verdict) → worst (v ∷ vs) ≡ worse v (worst vs)
    worst_cons v vs = unfold worst in refl

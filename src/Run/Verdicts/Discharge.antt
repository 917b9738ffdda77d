-- ===== src/Run/Verdicts/Discharge.antt =====
-- When a run passes: every required obligation was discharged.
use model_lib.Prelude.{
  true, Option, none, some, List, [], ◌∷◌, ◌++◌, All, if◌then◌else◌, is_some, text_eq, nat_eq,
  text_ord, map_get, ◌≡◌, ◌↔◌, ◌⊎◌, refl, sym, ◌∙◌, arith,
}
use model_lib.Run.Contract.{
  GateOutcome, PolicyOutcome, SandboxEvidenceOutcome, SandboxRequirement, GateRequirement,
  GateApplicability, GateObligation, PolicyRequirement, PolicyObligation, AgentObligation,
  RunContract,
}
use model_lib.Run.Event.{AgentOutcome}
use model_lib.Run.State.{Verdict, GateProgress, AgentLifecycle, SandboxEvidenceEntry, RunState}
use model_lib.Run.Admission.{is_required_applicable, is_required_policy, is_agent_required}
use model_lib.Run.Verdicts.{is_clean_exit, policy_outcome, find_evidence, compute_verdict}
use model_lib.Run.Verdicts.Precedence.{
  worse, worst, gate_verdict, policy_verdict, evidence_verdict, agent_verdict, gate_verdicts,
  policy_verdicts, evidence_verdicts, agent_obligation_verdict, candidate_verdict,
  obligation_verdicts, compute_verdict-worst,
}

-- A gate ran to its end and passed, perhaps with a warning.
abbrev pub HasPassed : Option GateProgress → Type 0
HasPassed p =
    (p ≡ some (GateProgress.finished GateOutcome.pass))
    ⊎ (p ≡ some (GateProgress.finished GateOutcome.warn))

abbrev pub IsSatisfied : Option SandboxEvidenceEntry → Type 0
IsSatisfied e =
    (x : SandboxEvidenceEntry) × (e ≡ some x) × (x.outcome ≡ SandboxEvidenceOutcome.satisfied)

-- The obligations of a contract, each discharged in a state.
pub record IsDischarged (state : RunState) (contract : RunContract) : Type 0 where
  pub agent :
      contract.agent ≡ AgentObligation.required
      → state.agent ≡ AgentLifecycle.exited (AgentOutcome.exited_normally 0)
  pub gates :
      All
        (λ o.
          o.requirement ≡ GateRequirement.required
          → o.applicability ≡ GateApplicability.applicable
          → HasPassed (map_get o.gate state.gates))
        contract.gate_obligations
  pub policies :
      All
        (λ p.
          p.requirement ≡ PolicyRequirement.required
          → policy_outcome state.policy_results p.policy.digest ≡ some PolicyOutcome.allowed)
        contract.policy_obligations
  pub sandbox :
      All (λ r. IsSatisfied (find_evidence state.sandbox_evidence r)) contract.sandbox_requirements
  pub candidate : is_some contract.candidate_state ≡ true → is_some state.candidate_state ≡ true

worse-pass_iff :
    (a b : Verdict) → (worse a b ≡ Verdict.pass) ↔ ((a ≡ Verdict.pass) × (b ≡ Verdict.pass))
unfolding worse
worse-pass_iff a b = ground arith

abbrev AllPass : List Verdict → Type 0
AllPass = All (λ v. v ≡ Verdict.pass)

worst-pass_iff : (vs : List Verdict) → (worst vs ≡ Verdict.pass) ↔ AllPass vs
unfolding worst
worst-pass_iff [] = (λ h. tt, λ h. refl)
worst-pass_iff (v ∷ vs) = (
  λ h. let (x, y) = (worse-pass_iff v (worst vs)).0 h in (x, (worst-pass_iff vs).0 y),
  λ h. (worse-pass_iff v (worst vs)).1 (h.0, (worst-pass_iff vs).1 h.1),
)

AllPass-append : (xs ys : List Verdict) → AllPass (xs ++ ys) ↔ (AllPass xs × AllPass ys)
AllPass-append [] ys = (λ h. (tt, h), λ h. h.1)
AllPass-append (x ∷ xs) ys = (
  λ h. let (a, b) = (AllPass-append xs ys).0 h.1 in ((h.0, a), b),
  λ h. (h.0.0, (AllPass-append xs ys).1 (h.0.1, h.1)),
)

gate_verdict-pass :
    (state : RunState) (o : GateObligation)
    → ((if is_required_applicable o
          then gate_verdict (map_get o.gate state.gates)
          else Verdict.pass)
        ≡ Verdict.pass)
      ↔ (o.requirement ≡ GateRequirement.required
          → o.applicability ≡ GateApplicability.applicable
          → HasPassed (map_get o.gate state.gates))
unfolding is_required_applicable gate_verdict
gate_verdict-pass state o = ground arith

gate_verdicts-pass :
    (state : RunState) (os : List GateObligation)
    → AllPass (gate_verdicts state os)
      ↔ All
          (λ o.
            o.requirement ≡ GateRequirement.required
            → o.applicability ≡ GateApplicability.applicable
            → HasPassed (map_get o.gate state.gates))
          os
unfolding gate_verdicts
gate_verdicts-pass state [] = (λ h. tt, λ h. tt)
gate_verdicts-pass state (o ∷ os) = (
  λ h. ((gate_verdict-pass state o).0 h.0, (gate_verdicts-pass state os).0 h.1),
  λ h. ((gate_verdict-pass state o).1 h.0, (gate_verdicts-pass state os).1 h.1),
)

policy_verdict-pass :
    (state : RunState) (p : PolicyObligation)
    → ((if is_required_policy p.requirement
          then policy_verdict (policy_outcome state.policy_results p.policy.digest)
          else Verdict.pass)
        ≡ Verdict.pass)
      ↔ (p.requirement ≡ PolicyRequirement.required
          → policy_outcome state.policy_results p.policy.digest ≡ some PolicyOutcome.allowed)
unfolding is_required_policy policy_verdict
policy_verdict-pass state p = ground arith

policy_verdicts-pass :
    (state : RunState) (ps : List PolicyObligation)
    → AllPass (policy_verdicts state ps)
      ↔ All
          (λ p.
            p.requirement ≡ PolicyRequirement.required
            → policy_outcome state.policy_results p.policy.digest ≡ some PolicyOutcome.allowed)
          ps
unfolding policy_verdicts
policy_verdicts-pass state [] = (λ h. tt, λ h. tt)
policy_verdicts-pass state (p ∷ ps) = (
  λ h. ((policy_verdict-pass state p).0 h.0, (policy_verdicts-pass state ps).0 h.1),
  λ h. ((policy_verdict-pass state p).1 h.0, (policy_verdicts-pass state ps).1 h.1),
)

evidence_verdict-pass :
    (e : Option SandboxEvidenceEntry) → (evidence_verdict e ≡ Verdict.pass) ↔ IsSatisfied e
unfolding evidence_verdict
evidence_verdict-pass none = (λ h. cc, λ (x, e, h). cc)
evidence_verdict-pass (some x) = (λ h. (x, refl, ground arith), λ (y, e, h). ground arith)

evidence_verdicts-pass :
    (state : RunState) (rs : List SandboxRequirement)
    → AllPass (evidence_verdicts state rs)
      ↔ All (λ r. IsSatisfied (find_evidence state.sandbox_evidence r)) rs
unfolding evidence_verdicts
evidence_verdicts-pass state [] = (λ h. tt, λ h. tt)
evidence_verdicts-pass state (r ∷ rs) =
    let one = evidence_verdict-pass (find_evidence state.sandbox_evidence r) in
    (
      λ h. (one.0 h.0, (evidence_verdicts-pass state rs).0 h.1),
      λ h. (one.1 h.0, (evidence_verdicts-pass state rs).1 h.1),
    )

agent_verdict-pass :
    (state : RunState) (contract : RunContract)
    → (agent_obligation_verdict state contract ≡ Verdict.pass) ↔ (
        contract.agent ≡ AgentObligation.required
        → state.agent ≡ AgentLifecycle.exited (AgentOutcome.exited_normally 0))
unfolding agent_obligation_verdict agent_verdict is_agent_required is_clean_exit
agent_verdict-pass state contract = ground arith

candidate_verdict-pass :
    (state : RunState) (contract : RunContract)
    → (candidate_verdict state contract ≡ Verdict.pass)
      ↔ (is_some contract.candidate_state ≡ true → is_some state.candidate_state ≡ true)
unfolding candidate_verdict
candidate_verdict-pass state contract = ground arith

module _ (state : RunState) (contract : RunContract) where
  gs : List Verdict
  gs = gate_verdicts state contract.gate_obligations

  ps : List Verdict
  ps = policy_verdicts state contract.policy_obligations

  es : List Verdict
  es = evidence_verdicts state contract.sandbox_requirements

  verdicts-AllPass : AllPass (obligation_verdicts state contract) ↔ (
      (agent_obligation_verdict state contract ≡ Verdict.pass)
      × AllPass gs
      × AllPass ps
      × AllPass es
      × (candidate_verdict state contract ≡ Verdict.pass))
  unfolding obligation_verdicts gs ps es
  verdicts-AllPass = (
    λ h.
        let (g, r) = (AllPass-append gs _).0 h.1 in
        let (p, q) = (AllPass-append ps _).0 r in
        let (e, c) = (AllPass-append es _).0 q in (h.0, g, p, e, c.0),
    λ h. (
      h.0,
      (AllPass-append gs _).1
          (h.1, (AllPass-append ps _).1 (h.2, (AllPass-append es _).1 (h.3, (h.4, tt)))),
    ),
  )

  -- A run's verdict is pass exactly when every obligation of its contract is discharged: a required
  -- agent exited with code 0, each required and applicable gate finished with pass or warn, each
  -- required policy was allowed, each sandbox requirement has satisfied evidence, and a declared
  -- candidate state was captured.
  pub compute_verdict-pass_iff :
      (compute_verdict state contract ≡ Verdict.pass) ↔ IsDischarged state contract
  unfolding gs ps es
  compute_verdict-pass_iff = (
    λ h.
        let all = verdicts-AllPass.0 (
          (worst-pass_iff (obligation_verdicts state contract)).0
            (sym (compute_verdict-worst state contract) ∙ h)) in
        record {
          agent = (agent_verdict-pass state contract).0 all.0;
          gates = (gate_verdicts-pass state contract.gate_obligations).0 all.1;
          policies = (policy_verdicts-pass state contract.policy_obligations).0 all.2;
          sandbox = (evidence_verdicts-pass state contract.sandbox_requirements).0 all.3;
          candidate = (candidate_verdict-pass state contract).0 all.4;
        },
    λ d.
        compute_verdict-worst state contract
        ∙ (worst-pass_iff (obligation_verdicts state contract)).1 (
            verdicts-AllPass.1 (
              (agent_verdict-pass state contract).1 d.agent,
              (gate_verdicts-pass state contract.gate_obligations).1 d.gates,
              (policy_verdicts-pass state contract.policy_obligations).1 d.policies,
              (evidence_verdicts-pass state contract.sandbox_requirements).1 d.sandbox,
              (candidate_verdict-pass state contract).1 d.candidate,
            )),
  )

-- ===== src/Run/Streams/Green.antt =====
-- No false green: a stream that is accepted with the verdict pass holds the events that discharge
-- every obligation of its contract.
use model_lib.Prelude.{
  true, Option, none, some, refl, Any-impl, some_injective, List, All, is_some, ok, ◌≡◌, ◌⊎◌, inl,
  inr, sym, ◌∙◌, Bool-cases, text_ord, map_get, All-impl,
}
use model_lib.Run.Ids.{Sha256}
use model_lib.Run.Contract.{
  ArtifactRef, GateOutcome, PolicyOutcome, SandboxEvidenceOutcome, GateRequirement,
  GateApplicability, GateObligation, PolicyRequirement, AgentObligation, RunContract,
}
use model_lib.Run.Event.{AgentOutcome, RunEvent}
use model_lib.Run.State.{Verdict, SandboxEvidenceEntry, RunState, is_sealed}
use model_lib.Run.Verdicts.Discharge.{HasPassed, IsDischarged, compute_verdict-pass_iff}
use model_lib.Run.Reduce.{reduce_all}
use model_lib.Run.Streams.Evidence.{IsRecorded, reduce_all-IsRecorded}
use model_lib.Run.Streams.Reported.{
  Starts, Exits, Finishes, Checks, Evidences, Captures, CapturesReceipt, Reported,
}
use model_lib.Run.Streams.States.{IsConsistent, reduce_all-IsConsistent}

-- The events of a stream that discharge a contract.
pub record IsDischargedBy (es : List RunEvent) (c : RunContract) : Type 0 where
  pub declared : Reported (Starts c) es
  pub agent :
      c.agent ≡ AgentObligation.required → Reported (Exits (AgentOutcome.exited_normally 0)) es
  pub gates :
      All
        (λ o.
          o.requirement ≡ GateRequirement.required
          → o.applicability ≡ GateApplicability.applicable
          → Reported (Finishes o.gate GateOutcome.pass) es
            ⊎ Reported (Finishes o.gate GateOutcome.warn) es)
        c.gate_obligations
  pub policies :
      All
        (λ p.
          p.requirement ≡ PolicyRequirement.required
          → Reported (Checks p.policy.digest PolicyOutcome.allowed) es)
        c.policy_obligations
  pub sandbox :
      All
        (λ r.
          (x : SandboxEvidenceEntry) × (x.outcome ≡ SandboxEvidenceOutcome.satisfied)
          × Reported (Evidences r x) es)
        c.sandbox_requirements
  pub candidate : is_some c.candidate_state ≡ true → Reported Captures es

captured :
    (es : List RunEvent) (o : Option ArtifactRef)
    → ((a : ArtifactRef) → o ≡ some a → Reported (CapturesReceipt a) es)
    → is_some o ≡ true
    → Reported Captures es
captured es none f h = cc
captured es (some a) f h = Any-impl es (λ e k. (a, k)) (f a refl)

IsDischarged-by :
    {es : List RunEvent} {s : RunState} {c : RunContract}
    → s.contract ≡ some c
    → IsRecorded es s
    → IsDischarged s c
    → IsDischargedBy es c
IsDischarged-by {es} {s} {c} b r d = record {
  declared = r.contract c b;
  agent = λ q. r.agent (AgentOutcome.exited_normally 0) (d.agent q);
  gates = All-impl c.gate_obligations (λ o f q a. finished o (f q a)) d.gates;
  policies =
      All-impl c.policy_obligations
        (λ p f q. r.policies p.policy.digest PolicyOutcome.allowed (f q)) d.policies;
  sandbox = All-impl c.sandbox_requirements (λ q (x, e, o). (x, o, r.sandbox q x e)) d.sandbox;
  candidate = λ q. captured es s.candidate_state r.candidate (d.candidate q);
}
  where
    finished :
        (o : GateObligation)
        → HasPassed (map_get o.gate s.gates)
        → Reported (Finishes o.gate GateOutcome.pass) es
          ⊎ Reported (Finishes o.gate GateOutcome.warn) es
    finished o (inl p) = inl (r.gates o.gate GateOutcome.pass p)
    finished o (inr w) = inr (r.gates o.gate GateOutcome.warn w)

sealed_of_pass :
    {s : RunState} → IsConsistent s → s.verdict ≡ some Verdict.pass → is_sealed s ≡ true
sealed_of_pass {s} i v = elim (Bool-cases (is_sealed s)) [
  | inl yes_sealed ↦ yes_sealed
  | inr not_yet ↦ cc (i.unsealed not_yet)
]

module _ (sha : Sha256) where
  -- A stream that the reducer accepts with the verdict pass holds, for the contract that its
  -- `RunStarted` declares: the agent's exit with code 0 if an agent is required; a finish with pass
  -- or warn of each required and applicable gate; an allowed check of each required policy;
  -- satisfied evidence for each sandbox requirement; and a captured candidate state if one is
  -- declared.
  pub no_false_green :
      (es : List RunEvent) {t : RunState}
      → reduce_all sha es ≡ ok t
      → t.verdict ≡ some Verdict.pass
      → (c : RunContract) × (t.contract ≡ some c) × IsDischargedBy es c
  no_false_green es {t} h v =
      let i = reduce_all-IsConsistent sha es h in
      let (c, b, w) = i.sealed (sealed_of_pass i v) in
      (
        c,
        b,
        IsDischarged-by b (reduce_all-IsRecorded sha es h)
            ((compute_verdict-pass_iff t c).0 (some_injective (sym w ∙ v))),
      )

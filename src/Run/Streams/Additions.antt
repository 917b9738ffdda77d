-- ===== src/Run/Streams/Additions.antt =====
-- What one event adds to the record of a state, it reports (crates/o7-run/src/reduce.rs).
use model_lib.Prelude.{
  ℕ, zero, suc, Bool, true, false, Option, none, some, some_injective, List, [], ◌∷◌, ◌++◌, find,
  text_eq, ◌==◌, text_beq, text_beq_iff, ◌≡◌, ◌⊎◌, inl, inr, refl, sym, ap, ◌∙◌, subst, arith,
  text_ord, map_get, map_insert, map_get-map_insert_self, map_get-map_insert_ne, Bool-cases,
}
use model_lib.Run.Ids.{RunId, GateId, Digest256}
use model_lib.Run.Contract.{
  ArtifactRef, GateOutcome, PolicyOutcome, ExecutionSubject, SandboxEvidenceOutcome,
  SandboxRequirement, RunContract, execution_subject_eq, execution_subject_beq_iff,
}
use model_lib.Run.Event.{AgentOutcome, RunEventKind}
use model_lib.Run.State.{GateProgress, AgentLifecycle, PolicyResult, SandboxEvidenceEntry, RunState}
use model_lib.Run.Verdicts.{policy_outcome, find_evidence}
use model_lib.Run.Handlers.{insert_at}
use model_lib.Run.Steps.{Step}
use model_lib.Run.Streams.{Applies}
use model_lib.Run.Streams.Reported.{Starts, Exits, Finishes, Checks, Evidences, CapturesReceipt}

find-append_one {ℓ} :
    {A : Type ℓ} (p : A → Bool) (xs : List A) (a : A) {x : A}
    → find p (xs ++ a ∷ []) ≡ some x
    → (find p xs ≡ some x) ⊎ ((x ≡ a) × (p a ≡ true))
unfolding find
find-append_one p [] a h = ground arith
find-append_one p (y ∷ ys) a {x} h = ground (arith, find-append_one p ys a {x = x})

find-insert_at {ℓ} :
    {A : Type ℓ} (p : A → Bool) (n : ℕ) (a : A) (xs : List A) {x : A}
    → find p (insert_at n a xs) ≡ some x
    → (find p xs ≡ some x) ⊎ ((x ≡ a) × (p a ≡ true))
unfolding find insert_at
find-insert_at p zero a xs h = ground arith
find-insert_at p (suc n) a [] h = ground arith
find-insert_at p (suc n) a (y ∷ ys) {x} h = ground (arith, find-insert_at p n a ys {x = x})

-- A gate's progress after an insertion.
map_get-changes :
    (g j : GateId) (p q : GateProgress) (m : List (GateId × GateProgress))
    → map_get g (map_insert j p m) ≡ some q
    → (map_get g m ≡ some q) ⊎ ((g ≡ j) × (p ≡ q))
map_get-changes g j p q m h = elim (Bool-cases (text_beq g j)) [
  | inl e ↦
      let same = (text_beq_iff g j).0 e in
      inr (
        same,
        some_injective (
            sym (map_get-map_insert_self j p m)
            ∙ subst (λ x. map_get x (map_insert j p m) ≡ some q) same h),
      )
  | inr d ↦ inl (
      sym (map_get-map_insert_ne g j p m (λ e. absurd (differ (sym ((text_beq_iff g j).1 e) ∙ d))))
      ∙ h)
]
  where
    differ : true ≡ false → ⊥
    differ e = cc

outcome_found :
    (f : Option PolicyResult) (o : PolicyOutcome)
    → ◌≡◌ {A = Option PolicyOutcome} (elim f [ none ↦ none | some r ↦ some r.outcome ]) (some o)
    → (r : PolicyResult) × (f ≡ some r) × (r.outcome ≡ o)
outcome_found none o h = cc
outcome_found (some r) o h = (r, refl, some_injective h)

outcome_of :
    (f : Option PolicyResult) (r : PolicyResult) (o : PolicyOutcome)
    → f ≡ some r
    → r.outcome ≡ o
    → ◌≡◌ {A = Option PolicyOutcome} (elim f [ none ↦ none | some r ↦ some r.outcome ]) (some o)
outcome_of none r o e q = cc
outcome_of (some x) r o e q = ap (λ y. some y.outcome) (some_injective e) ∙ ap some q

checked :
    (rs : List PolicyResult) (a : ArtifactRef) (x : PolicyOutcome) (d : Digest256)
    (o : PolicyOutcome)
    → policy_outcome (rs ++ record { policy = a; outcome = x } ∷ []) d ≡ some o
    → (policy_outcome rs d ≡ some o) ⊎ Checks d o (RunEventKind.policy_checked a x)
unfolding policy_outcome
checked rs a x d o h =
    let (r, f, q) =
      outcome_found
        (find (λ r. r.policy.digest == d) (rs ++ record { policy = a; outcome = x } ∷ [])) o h in
    elim (find-append_one (λ r. r.policy.digest == d) rs (record { policy = a; outcome = x }) f) [
      | inl old ↦ inl (outcome_of (find (λ r. r.policy.digest == d) rs) r o old q)
      | inr (e, same) ↦ inr (
        a,
        (text_beq_iff a.digest d).0 same,
        ap (RunEventKind.policy_checked a) (sym (ap (λ y. y.outcome) e) ∙ q),
      )
    ]

evidenced :
    (es : List SandboxEvidenceEntry) (n : ℕ) (y : ExecutionSubject) (d : Digest256)
    (a : ArtifactRef) (o : SandboxEvidenceOutcome) (r : SandboxRequirement)
    (x : SandboxEvidenceEntry)
    → find_evidence
        (insert_at n (record { key = record { subject = y; policy_digest = d }; outcome = o }) es)
        r
      ≡ some x
    → (find_evidence es r ≡ some x) ⊎ Evidences r x (RunEventKind.sandbox_evidence_captured y d a o)
unfolding find_evidence
evidenced es n y d a o r x h =
    elim (find-insert_at _ n
      (record { key = record { subject = y; policy_digest = d }; outcome = o }) es h) [
        | inl old ↦ inl old
        | inr (e, same) ↦
            let p = (execution_subject_beq_iff y r.subject).0 (ground arith) in
            let q = (text_beq_iff d r.policy_digest).0 (ground arith) in inr (a, cc)
      ]

module _ {s : RunState} {c : RunContract} where
  Step-contract : {k : RunEventKind} {u : RunState} → Step s c k u → u.contract ≡ s.contract
  Step-contract (Step.worktree _ _) = refl
  Step-contract _ = refl

  Step-agent :
      {k : RunEventKind} {u : RunState} (o : AgentOutcome)
      → Step s c k u
      → u.agent ≡ AgentLifecycle.exited o
      → (s.agent ≡ AgentLifecycle.exited o) ⊎ Exits o k
  Step-agent o (Step.agent_start _ _ _ _) e = cc
  Step-agent o (Step.agent_exit _ _) e = inr (cc)
  Step-agent o _ e = inl e

  Step-gates :
      {k : RunEventKind} {u : RunState} (g : GateId) (o : GateOutcome)
      → Step s c k u
      → map_get g u.gates ≡ some (GateProgress.finished o)
      → (map_get g s.gates ≡ some (GateProgress.finished o)) ⊎ Finishes g o k
  Step-gates g o (Step.gate_start {g = j} _ _ _) e =
      elim (map_get-changes g j GateProgress.started (GateProgress.finished o) s.gates e) [
        | inl old ↦ inl old
        | inr (same, p) ↦ cc
      ]
  Step-gates g o (Step.gate_finish {g = j} {o = x} {log} _ _ _) e =
      elim (map_get-changes g j (GateProgress.finished x) (GateProgress.finished o) s.gates e) [
        | inl old ↦ inl old
        | inr (same, p) ↦ inr (log, cc)
      ]
  Step-gates g o _ e = inl e

  Step-policies :
      {k : RunEventKind} {u : RunState} (d : Digest256) (o : PolicyOutcome)
      → Step s c k u
      → policy_outcome u.policy_results d ≡ some o
      → (policy_outcome s.policy_results d ≡ some o) ⊎ Checks d o k
  Step-policies d o (Step.policy {a} {o = x} _ _ _) e = checked s.policy_results a x d o e
  Step-policies d o _ e = inl e

  Step-sandbox :
      {k : RunEventKind} {u : RunState} (r : SandboxRequirement) (x : SandboxEvidenceEntry)
      → Step s c k u
      → find_evidence u.sandbox_evidence r ≡ some x
      → (find_evidence s.sandbox_evidence r ≡ some x) ⊎ Evidences r x k
  Step-sandbox r x (Step.evidence {x = y} {d} {a} {o} _ _ _) e =
      evidenced s.sandbox_evidence _ y d a o r x e
  Step-sandbox r x _ e = inl e

  Step-candidate :
      {k : RunEventKind} {u : RunState} (r : ArtifactRef)
      → Step s c k u
      → u.candidate_state ≡ some r
      → (s.candidate_state ≡ some r) ⊎ CapturesReceipt r k
  Step-candidate r (Step.capture {a} _ _ _ _) e =
      inr (ap RunEventKind.candidate_state_captured (some_injective e))
  Step-candidate r _ e = inl e

-- One event reports whatever it adds to the record.
pub record Adds (s : RunState) (k : RunEventKind) (u : RunState) : Type 0 where
  pub contract : (c : RunContract) → u.contract ≡ some c → (s.contract ≡ some c) ⊎ Starts c k
  pub agent :
      (o : AgentOutcome)
      → u.agent ≡ AgentLifecycle.exited o
      → (s.agent ≡ AgentLifecycle.exited o) ⊎ Exits o k
  pub gates :
      (g : GateId) (o : GateOutcome)
      → map_get g u.gates ≡ some (GateProgress.finished o)
      → (map_get g s.gates ≡ some (GateProgress.finished o)) ⊎ Finishes g o k
  pub policies :
      (d : Digest256) (o : PolicyOutcome)
      → policy_outcome u.policy_results d ≡ some o
      → (policy_outcome s.policy_results d ≡ some o) ⊎ Checks d o k
  pub sandbox :
      (r : SandboxRequirement) (x : SandboxEvidenceEntry)
      → find_evidence u.sandbox_evidence r ≡ some x
      → (find_evidence s.sandbox_evidence r ≡ some x) ⊎ Evidences r x k
  pub candidate :
      (a : ArtifactRef)
      → u.candidate_state ≡ some a
      → (s.candidate_state ≡ some a) ⊎ CapturesReceipt a k

pub Applies-Adds :
    {s : RunState} {run : RunId} {seq : ℕ} {k : RunEventKind} {u : RunState}
    → Applies s run seq k u
    → Adds s k u
Applies-Adds (Applies.start {c} {task} _ _ _) = record {
  contract = λ d e. inr (task, ap (λ x. RunEventKind.run_started x task) (some_injective e));
  agent = λ o e. inl e;
  gates = λ g o e. inl e;
  policies = λ d o e. inl e;
  sandbox = λ r x e. inl e;
  candidate = λ a e. inl e;
}
Applies-Adds (Applies.later _ st) = record {
  contract = λ d e. inl (sym (Step-contract st) ∙ e);
  agent = λ o e. Step-agent o st e;
  gates = λ g o e. Step-gates g o st e;
  policies = λ d o e. Step-policies d o st e;
  sandbox = λ r x e. Step-sandbox r x st e;
  candidate = λ a e. Step-candidate a st e;
}

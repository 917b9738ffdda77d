-- ===== src/Run/Streams/Evidence.antt =====
-- What a state records was reported by an event of the stream that led to it.
use model_lib.Prelude.{
  some, List, [], ◌∷◌, ◌++◌, find, ok, ok_injective, text_eq, ◌≡◌, ◌⊎◌, inl, inr, sym, subst,
  text_ord, map_get,
}
use mathlib.Core.List.{append_assoc, append-nil}
use model_lib.Run.Ids.{GateId, Digest256, Sha256}
use model_lib.Run.Contract.{
  ArtifactRef, GateOutcome, PolicyOutcome, SandboxRequirement, RunContract, execution_subject_eq,
}
use model_lib.Run.Event.{AgentOutcome, RunEventKind, RunEvent}
use model_lib.Run.State.{GateProgress, AgentLifecycle, SandboxEvidenceEntry, RunState, initial}
use model_lib.Run.Verdicts.{policy_outcome, find_evidence}
use model_lib.Run.Reduce.{advance, reduce_from, reduce_all}
use model_lib.Run.Streams.{IsFolded, reduce-IsFolded, reduce_from-cons}
use model_lib.Run.Streams.Reported.{
  Starts, Exits, Finishes, Checks, Evidences, CapturesReceipt, Reported,
}
use model_lib.Run.Streams.Additions.{Adds, Applies-Adds}

pub record IsRecorded (es : List RunEvent) (s : RunState) : Type 0 where
  pub contract : (c : RunContract) → s.contract ≡ some c → Reported (Starts c) es
  pub agent : (o : AgentOutcome) → s.agent ≡ AgentLifecycle.exited o → Reported (Exits o) es
  pub gates :
      (g : GateId) (o : GateOutcome)
      → map_get g s.gates ≡ some (GateProgress.finished o)
      → Reported (Finishes g o) es
  pub policies :
      (d : Digest256) (o : PolicyOutcome)
      → policy_outcome s.policy_results d ≡ some o
      → Reported (Checks d o) es
  pub sandbox :
      (r : SandboxRequirement) (x : SandboxEvidenceEntry)
      → find_evidence s.sandbox_evidence r ≡ some x
      → Reported (Evidences r x) es
  pub candidate : (a : ArtifactRef) → s.candidate_state ≡ some a → Reported (CapturesReceipt a) es

module _ (P : RunEventKind → Type 0) (e : RunEvent) where
  reported_last : (es : List RunEvent) → P e.kind → Reported P (es ++ e ∷ [])
  reported_last [] p = inl p
  reported_last (x ∷ xs) p = inr (reported_last xs p)

  reported_earlier : (es : List RunEvent) → Reported P es → Reported P (es ++ e ∷ [])
  reported_earlier [] h = absurd h
  reported_earlier (x ∷ xs) (inl h) = inl h
  reported_earlier (x ∷ xs) (inr h) = inr (reported_earlier xs h)

  Reported-snoc :
      {Q : Type 0} (es : List RunEvent)
      → (Q → Reported P es)
      → Q ⊎ P e.kind
      → Reported P (es ++ e ∷ [])
  Reported-snoc es f (inl q) = reported_earlier es (f q)
  Reported-snoc es f (inr p) = reported_last es p

IsRecorded-snoc :
    {s t : RunState} (es : List RunEvent) (e : RunEvent)
    → IsRecorded es s
    → Adds s e.kind t
    → IsRecorded (es ++ e ∷ []) t
IsRecorded-snoc es e r a = record {
  contract = λ c h. Reported-snoc (Starts c) e es (r.contract c) (a.contract c h);
  agent = λ o h. Reported-snoc (Exits o) e es (r.agent o) (a.agent o h);
  gates = λ g o h. Reported-snoc (Finishes g o) e es (r.gates g o) (a.gates g o h);
  policies = λ d o h. Reported-snoc (Checks d o) e es (r.policies d o) (a.policies d o h);
  sandbox = λ q x h. Reported-snoc (Evidences q x) e es (r.sandbox q x) (a.sandbox q x h);
  candidate = λ x h. Reported-snoc (CapturesReceipt x) e es (r.candidate x) (a.candidate x h);
}

module _ (sha : Sha256) where
  folded-Adds : (s t : RunState) (e : RunEvent) → IsFolded sha s e t → Adds s e.kind t
  unfolding advance
  folded-Adds s t e f =
      let a = Applies-Adds f.applies in
      subst (Adds s e.kind) (sym f.result) (record {
        contract = a.contract;
        agent = a.agent;
        gates = a.gates;
        policies = a.policies;
        sandbox = a.sandbox;
        candidate = a.candidate;
      })

  reduce_from-IsRecorded :
      (before : List RunEvent) (s : RunState) (es : List RunEvent) {t : RunState}
      → IsRecorded before s
      → reduce_from sha s es ≡ ok t
      → IsRecorded (before ++ es) t
  unfolding reduce_from
  reduce_from-IsRecorded before s [] r h =
      rw append-nil (subst (IsRecorded before) (ok_injective h) r)
  reduce_from-IsRecorded before s (e ∷ es) {t} r h =
      let (u, a, b) = reduce_from-cons sha s e es h in
      subst (λ xs. IsRecorded xs t) (append_assoc before (e ∷ []) es)
        (reduce_from-IsRecorded (before ++ e ∷ []) u es
          (IsRecorded-snoc before e r (folded-Adds s u e (reduce-IsFolded sha s e a))) b)

  initial-IsRecorded : IsRecorded [] initial
  unfolding initial map_get policy_outcome find_evidence find
  initial-IsRecorded = record {
    contract = λ c h. cc;
    agent = λ o h. cc;
    gates = λ g o h. cc;
    policies = λ d o h. cc;
    sandbox = λ r x h. cc;
    candidate = λ a h. cc;
  }

  -- What the state after an accepted stream records was reported by an event of the stream with that
  -- very content: the contract, the outcome of the agent, the outcome of each gate, the outcome of
  -- each policy (by the policy's digest), the outcome of the evidence for each sandbox requirement,
  -- and the receipt of the captured candidate state.
  pub reduce_all-IsRecorded :
      (es : List RunEvent) {t : RunState} → reduce_all sha es ≡ ok t → IsRecorded es t
  unfolding reduce_all
  reduce_all-IsRecorded es h = reduce_from-IsRecorded [] initial es initial-IsRecorded h

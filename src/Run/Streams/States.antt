-- ===== src/Run/Streams/States.antt =====
-- The verdict and the contract of a state that a stream leads to.
use model_lib.Prelude.{
  ℕ, true, false, none, some, some_injective, List, [], ◌∷◌, ok, ok_injective, ◌≡◌, refl, sym, ap,
  ◌∙◌, subst,
}
use model_lib.Run.Ids.{RunId, Sha256}
use model_lib.Run.Contract.{RunContract}
use model_lib.Run.Event.{RunEventKind, RunEvent}
use model_lib.Run.State.{RunPhase, RunState, initial, is_sealed}
use model_lib.Run.Admission.{validate_contract}
use model_lib.Run.Verdicts.{compute_verdict, compute_verdict_frame}
use model_lib.Run.Reduce.{advance, reduce_from, reduce_all}
use model_lib.Run.Steps.{Step}
use model_lib.Run.Streams.{Applies, reduce-IsFolded, reduce_from-cons}

-- The verdict is fixed just by the seal, as the verdict of the folded state.
abbrev pub HasVerdict : RunState → Type 0
HasVerdict s = (c : RunContract) × (s.contract ≡ some c) × (s.verdict ≡ some (compute_verdict s c))

pub record IsConsistent (s : RunState) : Type 0 where
  pub sealed : is_sealed s ≡ true → HasVerdict s
  pub unsealed : is_sealed s ≡ false → s.verdict ≡ none
  pub valid :
      (c : RunContract) → s.contract ≡ some c → (seq : ℕ) × (validate_contract c seq ≡ ok tt)

Step-open :
    {s : RunState} {c : RunContract} {k : RunEventKind} {u : RunState}
    → Step s c k u
    → s.contract ≡ some c
    → IsConsistent s
    → is_sealed s ≡ false
    → IsConsistent u
unfolding is_sealed
Step-open {s} {c} Step.seal e i o = record {
  sealed = λ h. (
    c,
    e,
    ap some (
        sym (
          compute_verdict_frame s c (some (compute_verdict s c)) RunPhase.sealed s.seen_event_ids
            s.last_sequence s.last_event_digest)),
  );
  unsealed = λ h. cc;
  valid = i.valid;
}
Step-open _ e i o = record {
  sealed = λ h. absurd (differ (sym h ∙ o));
  unsealed = λ h. i.unsealed o;
  valid = i.valid;
}
  where
    differ : true ≡ false → ⊥
    differ e = cc

Applies-open :
    {s : RunState} {run : RunId} {seq : ℕ} {k : RunEventKind} {u : RunState}
    → Applies s run seq k u
    → IsConsistent s
    → is_sealed s ≡ false
    → IsConsistent u
unfolding is_sealed
Applies-open {seq} (Applies.start p v w) i o = record {
  sealed = λ h. cc;
  unsealed = λ h. i.unsealed o;
  valid = λ c e. (seq, subst (λ d. validate_contract d seq ≡ ok tt) (some_injective e) v);
}
Applies-open (Applies.later e st) i o = Step-open st e i o

advance-IsConsistent : (s : RunState) (e : RunEvent) → IsConsistent s → IsConsistent (advance s e)
unfolding advance is_sealed
advance-IsConsistent s e i = record {
  sealed = λ h.
      let (c, b, v) = i.sealed h in
      (
        c,
        b,
        v
            ∙ ap some (
                sym (
                  compute_verdict_frame s c s.verdict s.phase (advance s e).seen_event_ids
                    (some e.sequence) e.event_digest)),
      );
  unsealed = i.unsealed;
  valid = i.valid;
}

module _ (sha : Sha256) where
  reduce_from-IsConsistent :
      (s : RunState) (es : List RunEvent) {t : RunState}
      → IsConsistent s
      → reduce_from sha s es ≡ ok t
      → IsConsistent t
  unfolding reduce_from
  reduce_from-IsConsistent s [] i h = subst IsConsistent (ok_injective h) i
  reduce_from-IsConsistent s (e ∷ es) i h =
      let (u, a, b) = reduce_from-cons sha s e es h in
      let f = reduce-IsFolded sha s e a in
      reduce_from-IsConsistent u es
        (subst IsConsistent (sym f.result)
          (advance-IsConsistent f.applied e (Applies-open f.applies i f.envelope.unsealed)))
        b

  initial-IsConsistent : IsConsistent initial
  unfolding initial is_sealed
  initial-IsConsistent = record { sealed = λ h. cc; unsealed = λ h. refl; valid = λ c h. cc }

  -- After an accepted stream, a sealed state has the verdict that is computed from that very state
  -- and its contract, an unsealed state has none, and the contract passed its validation.
  pub reduce_all-IsConsistent :
      (es : List RunEvent) {t : RunState} → reduce_all sha es ≡ ok t → IsConsistent t
  unfolding reduce_all
  reduce_all-IsConsistent es h = reduce_from-IsConsistent initial es initial-IsConsistent h

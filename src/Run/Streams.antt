-- ===== src/Run/Streams.antt =====
-- What one accepted event says of the state before and after it (crates/o7-run/src/reduce.rs), as
-- the proofs about whole streams use it.
pub mod Chain
pub mod Tamper
pub mod Order
pub mod States
pub mod Reported
pub mod Additions
pub mod Evidence
pub mod Green
use model_lib.Prelude.{
  ℕ, zero, suc, ◌+◌, ◌%◌, ◌^◌, Bool, true, false, not, ◌&&◌, Option, none, some, List, [], ◌∷◌,
  ◌++◌, Any, is_some, any, contains, text_eq, nat_eq, ◌==◌, Eq, text_beq, text_beq_iff, nat_beq_iff,
  Result, ok, err, reject, ◌>>=◌, ◌>>◌, >>=-eq-ok, >>-eq-ok, reject->>-eq-ok, reject-eq-ok,
  ok_injective, ◌≡◌, ◌≢◌, ◌⊎◌, ◌↔◌, inl, inr, refl, sym, ap, ◌∙◌, subst, arith, text_ord,
  set_insert,
}
use model_lib.Run.Ids.{RunId, RunEventId, Digest256, Sha256}
use model_lib.Run.Contract.{ArtifactKind, ArtifactRef, RunContract}
use model_lib.Run.Event.{RunEventKind, RunEvent, name}
use model_lib.Run.Encoding.{compute_digest, digest_is_consistent}
use model_lib.Run.State.{RunPhase, RunState, is_sealed}
use model_lib.Run.Errors.{ReduceError}
use model_lib.Run.Admission.{validate_artifact, validate_contract}
use model_lib.Run.Reduce.{
  is_not_started, is_run_started, start_run, apply_bound, apply_kind, check_sequence, check_run_id,
  advance, check_envelope, reduce, reduce_from,
}
use model_lib.Run.Steps.Guards.{
  IsArtifact, validate_artifact->>, validate_artifact_iff, any_iff, false_iff,
}
use model_lib.Run.Steps.{Step}
use model_lib.Run.Steps.Sound.{apply_with_contract-Step}

-- The sequence number that has to follow: 0 at first, then one more, on u64.
abbrev pub IsNext : Option ℕ → ℕ → Type 0
IsNext none seq = seq ≡ 0
IsNext (some last) seq = seq ≡ (last + 1) % 2 ^ 64

abbrev pub IsRun : Option RunId → RunId → Type 0
IsRun none run = Unit
IsRun (some expected) run = run ≡ expected

pub record IsEnveloped (sha : Sha256) (s : RunState) (e : RunEvent) : Type 0 where
  pub unsealed : is_sealed s ≡ false
  pub schema : e.schema_version ≡ 1
  pub digest : e.event_digest ≡ compute_digest sha e
  pub sequence : IsNext s.last_sequence e.sequence
  pub link : e.previous_event_digest ≡ s.last_event_digest
  pub run : IsRun s.run_id e.run_id
  pub fresh : ¬ Any (λ i. i ≡ e.event_id) s.seen_event_ids
  pub started : is_not_started s.phase && not (is_run_started e.kind) ≡ false

pub data Applies (s : RunState) (run : RunId) (seq : ℕ) : RunEventKind → RunState → Type 0 where
  start :
      {c : RunContract} {task : ArtifactRef}
      → s.phase ≡ RunPhase.not_started
      → validate_contract c seq ≡ ok tt
      → IsArtifact ArtifactKind.task task
      → Applies s run seq (RunEventKind.run_started c task) (record s {
        run_id = some run;
        contract = some c;
        task = some task;
        phase = RunPhase.running;
      })
  later :
      {c : RunContract} {k : RunEventKind} {u : RunState}
      → s.contract ≡ some c
      → Step s c k u
      → Applies s run seq k u

equal_of : (b : Bool) {P : Type 0} → (b ≡ true) ↔ P → not b ≡ false → P
equal_of true e h = e.0 refl
equal_of false e h = cc

contains_iff :
    (xs : List RunEventId) (x : RunEventId) → (contains xs x ≡ true) ↔ Any (λ i. i ≡ x) xs
unfolding contains
contains_iff [] x = (λ h. cc, λ h. absurd h)
contains_iff (y ∷ ys) x =
    let t = text_beq_iff y x in
    let ih = contains_iff ys x in (λ h. ground (arith, t.0, ih.0), λ h. ground (arith, t.1, ih.1))

check_sequence-IsNext :
    (last : Option ℕ) (seq : ℕ) → check_sequence last seq ≡ ok tt → IsNext last seq
unfolding check_sequence
check_sequence-IsNext none seq h = equal_of _ (nat_beq_iff seq 0) (reject-eq-ok _ _ h)
check_sequence-IsNext (some last) seq h =
    let (d, h1) = reject->>-eq-ok _ _ _ h in
    equal_of _ (nat_beq_iff seq ((last + 1) % 2 ^ 64)) (reject-eq-ok _ _ h1)

check_run_id-IsRun :
    (id : Option RunId) (run : RunId) (seq : ℕ) → check_run_id id run seq ≡ ok tt → IsRun id run
unfolding check_run_id
check_run_id-IsRun none run seq h = tt
check_run_id-IsRun (some expected) run seq h =
    equal_of _ (text_beq_iff run expected) (reject-eq-ok _ _ h)

start_run-Applies :
    (s : RunState) (run : RunId) (seq : ℕ) (c : RunContract) (task : ArtifactRef) {u : RunState}
    → start_run s run seq c task ≡ ok u
    → Applies s run seq (RunEventKind.run_started c task) u
unfolding start_run
start_run-Applies s run seq c task {u} h =
    let (p, h1) = reject->>-eq-ok _ _ _ h in
    let (v, h2) = >>-eq-ok (validate_contract c seq) _ h1 in
    let (w, h3) = validate_artifact->> task _ seq _ h2 in
    subst (Applies s run seq (RunEventKind.run_started c task)) (ok_injective h3)
      (Applies.start (not_started_of s.phase p) v w)
  where
    not_started_of : (p : RunPhase) → not (is_not_started p) ≡ false → p ≡ RunPhase.not_started
    not_started_of p h = unfold is_not_started in ground arith

apply_bound-Applies :
    (s : RunState) (run : RunId) (seq : ℕ) (c : Option RunContract) (k : RunEventKind)
    {u : RunState}
    → s.contract ≡ c
    → apply_bound s c seq k ≡ ok u
    → Applies s run seq k u
unfolding apply_bound
apply_bound-Applies s run seq none k e h = cc
apply_bound-Applies s run seq (some c) k e h =
    Applies.later e (apply_with_contract-Step s c seq k h)

pub apply_kind-Applies :
    (s : RunState) (run : RunId) (seq : ℕ) (k : RunEventKind) {u : RunState}
    → apply_kind s run seq k ≡ ok u
    → Applies s run seq k u
unfolding apply_kind
apply_kind-Applies s run seq (RunEventKind.run_started c task) h =
    start_run-Applies s run seq c task h
apply_kind-Applies s run seq k h = apply_bound-Applies s run seq s.contract k refl h

module _ (sha : Sha256) where
  pub check_envelope-IsEnveloped :
      (s : RunState) (e : RunEvent) → check_envelope sha s e ≡ ok tt → IsEnveloped sha s e
  unfolding check_envelope digest_is_consistent
  check_envelope-IsEnveloped s e h =
      let (a, h1) = reject->>-eq-ok _ _ _ h in
      let (b, h2) = reject->>-eq-ok _ _ _ h1 in
      let (c, h3) = reject->>-eq-ok _ _ _ h2 in
      let (d, h4) = >>-eq-ok (check_sequence s.last_sequence e.sequence) _ h3 in
      let (f, h5) = reject->>-eq-ok _ _ _ h4 in
      let (g, h6) = >>-eq-ok (check_run_id s.run_id e.run_id e.sequence) _ h5 in
      let (i, h7) = reject->>-eq-ok _ _ _ h6 in
      record {
        unsealed = a;
        schema = equal_of _ (nat_beq_iff e.schema_version 1) b;
        digest = equal_of _ (text_beq_iff e.event_digest (compute_digest sha e)) c;
        sequence = check_sequence-IsNext s.last_sequence e.sequence d;
        link = equal_of _ (text_beq_iff e.previous_event_digest s.last_event_digest) f;
        run = check_run_id-IsRun s.run_id e.run_id e.sequence g;
        fresh = (false_iff _ (contains_iff s.seen_event_ids e.event_id)).0 i;
        started = reject-eq-ok _ _ h7;
      }

  -- What an accepted event was: a well-formed envelope and a payload that applies.
  pub record IsFolded (s : RunState) (e : RunEvent) (t : RunState) : Type 0 where
    pub envelope : IsEnveloped sha s e
    pub applied : RunState
    pub applies : Applies s e.run_id e.sequence e.kind applied
    pub result : t ≡ advance applied e

  pub reduce-IsFolded :
      (s : RunState) (e : RunEvent) {t : RunState} → reduce sha s e ≡ ok t → IsFolded s e t
  unfolding reduce
  reduce-IsFolded s e h =
      let (v, h1) = >>-eq-ok (check_envelope sha s e) _ h in
      let (u, a, h2) = >>=-eq-ok (apply_kind s e.run_id e.sequence e.kind) _ h1 in
      record {
        envelope = check_envelope-IsEnveloped s e v;
        applied = u;
        applies = apply_kind-Applies s e.run_id e.sequence e.kind a;
        result = sym (ok_injective h2);
      }

  -- A stream is folded event by event.
  pub reduce_from-cons :
      (s : RunState) (e : RunEvent) (es : List RunEvent) {t : RunState}
      → reduce_from sha s (e ∷ es) ≡ ok t
      → (u : RunState) × (reduce sha s e ≡ ok u) × (reduce_from sha u es ≡ ok t)
  unfolding reduce_from
  reduce_from-cons s e es h = >>=-eq-ok (reduce sha s e) _ h

  pub reduce_from-append :
      (s : RunState) (xs ys : List RunEvent) {t : RunState}
      → reduce_from sha s (xs ++ ys) ≡ ok t
      → (u : RunState) × (reduce_from sha s xs ≡ ok u) × (reduce_from sha u ys ≡ ok t)
  unfolding reduce_from
  reduce_from-append s [] ys h = (s, refl, h)
  reduce_from-append s (x ∷ xs) ys h =
      let (u, a, h1) = >>=-eq-ok (reduce sha s x) _ h in
      let (v, b, h2) = reduce_from-append u xs ys h1 in
      (v, ap (λ r. r >>= (λ n. reduce_from sha n xs)) a ∙ b, h2)

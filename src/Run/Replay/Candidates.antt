-- ===== src/Run/Replay/Candidates.antt =====
-- Replay and the candidate-state evidence of a run (crates/o7-run/src/replay.rs, `verify_prefix`).
use model_lib.Prelude.{
  ℕ, Bool, true, false, ◌||◌, Option, none, some, List, is_some, Result, ok, ok_injective,
  if◌then◌else◌, >>=-eq-ok, >>-eq-ok, ◌≡◌, ap, subst, arith,
}
use model_lib.Run.Ids.{Sha256}
use model_lib.Run.Contract.{RunContract}
use model_lib.Run.Event.{RunEvent}
use model_lib.Run.State.{RunState}
use model_lib.Run.Artifacts.{ArtifactResolver}
use model_lib.Run.Candidate.{
  Json, CandidateStateReceiptV1, CandidateMaterializationCheck, verify_candidate_state_captured,
  verify_candidate_state_materialized,
}
use model_lib.Run.Candidate.Lineage.{of_map_err}
use model_lib.Run.Candidate.Captured.{IsCaptured, verify_candidate_state_captured-IsCaptured}
use model_lib.Run.Candidate.Materialized.{
  IsMaterialized, verify_candidate_state_materialized-IsMaterialized,
}
use model_lib.Run.Replay.{
  ReplayError, some_or, verify_prefix_core, verify_captured, verify_materialized, verify_candidates,
  verify_prefix,
}

of_if :
    (b : Bool) (r : Result ReplayError (Unit {0}))
    → (if b then r else ok tt) ≡ ok tt
    → b ≡ true
    → r ≡ ok tt
of_if true r h i = h
of_if false r h i = cc

or_left : (a b : Bool) → a ≡ true → (a || b) ≡ true
or_left a b h = ground arith

or_right : (a b : Bool) → b ≡ true → (a || b) ≡ true
or_right a b h = ground arith

of_some_or : {A : Type 0} (o : Option A) (e : ReplayError) {a : A} → some_or o e ≡ ok a → o ≡ some a
of_some_or (some x) e h = ap some (ok_injective h)
of_some_or none e h = cc

module _ (sha : Sha256) (json : Json) (artifacts : ArtifactResolver) where
  verify_captured-IsCaptured :
      (s : RunState) (c : RunContract)
      → verify_captured sha json artifacts s c ≡ ok tt
      → is_some s.candidate_state ≡ true
      → (r : CandidateStateReceiptV1) × IsCaptured sha json artifacts s c r
  unfolding verify_captured
  verify_captured-IsCaptured s c h i =
      let (r, e, z) =
        >>=-eq-ok (verify_candidate_state_captured sha json artifacts s c) _
          (of_map_err _ _ (of_if (is_some s.candidate_state) _ h i)) in
      (r, verify_candidate_state_captured-IsCaptured sha json artifacts s c e)

  verify_materialized-IsMaterialized :
      (s : RunState) (c : RunContract)
      → verify_materialized sha json artifacts s c ≡ ok tt
      → is_some s.candidate_materialized ≡ true
      → (m : CandidateMaterializationCheck) × IsMaterialized sha json artifacts s c m
  unfolding verify_materialized
  verify_materialized-IsMaterialized s c h i =
      let (m, e, z) =
        >>=-eq-ok (verify_candidate_state_materialized sha json artifacts s c) _
          (of_map_err _ _ (of_if (is_some s.candidate_materialized) _ h i)) in
      (m, verify_candidate_state_materialized-IsMaterialized sha json artifacts s c e)

  -- Either evidence asks for a contract, and both verifiers then accept.
  verify_candidates-parts :
      (s : RunState)
      → verify_candidates sha json artifacts s ≡ ok tt
      → (is_some s.candidate_state || is_some s.candidate_materialized) ≡ true
      → (c : RunContract) × (s.contract ≡ some c)
        × (verify_captured sha json artifacts s c ≡ ok tt)
        × (verify_materialized sha json artifacts s c ≡ ok tt)
  unfolding verify_candidates
  verify_candidates-parts s h i =
      let (c, b, h1) =
        >>=-eq-ok (some_or s.contract _) _
          (of_if (is_some s.candidate_state || is_some s.candidate_materialized) _ h i) in
      let (v, m) = >>-eq-ok (verify_captured sha json artifacts s c) _ h1 in
      (c, of_some_or s.contract _ b, v, m)

  verify_candidates-evidence :
      (t : RunState)
      → verify_candidates sha json artifacts t ≡ ok tt
      → (is_some t.candidate_state ≡ true
          → (c : RunContract) × (t.contract ≡ some c)
            × (r : CandidateStateReceiptV1) × IsCaptured sha json artifacts t c r)
        × (is_some t.candidate_materialized ≡ true
            → (c : RunContract) × (t.contract ≡ some c)
              × (m : CandidateMaterializationCheck) × IsMaterialized sha json artifacts t c m)
  verify_candidates-evidence t h = (
    λ i.
        let (c, b, v, m) = verify_candidates-parts t h (or_left _ _ i) in
        let (r, d) = verify_captured-IsCaptured t c v i in (c, b, r, d),
    λ i.
        let (c, b, v, m) = verify_candidates-parts t h (or_right _ _ i) in
        let (x, d) = verify_materialized-IsMaterialized t c m i in (c, b, x, d),
  )

  -- When the prefix of a record is verified and the state of the run has a captured candidate state
  -- or one that was materialized, the run has a contract, and the evidence is what the receipts, the
  -- command binding and that contract say: the receipt of this run, and the receipt and patch of its
  -- parent.
  pub verify_prefix-candidates :
      (es : List RunEvent) {t : RunState} {n : ℕ}
      → verify_prefix sha json artifacts es ≡ ok (t, n)
      → (is_some t.candidate_state ≡ true
          → (c : RunContract) × (t.contract ≡ some c)
            × (r : CandidateStateReceiptV1) × IsCaptured sha json artifacts t c r)
        × (is_some t.candidate_materialized ≡ true
            → (c : RunContract) × (t.contract ≡ some c)
              × (m : CandidateMaterializationCheck) × IsMaterialized sha json artifacts t c m)
  unfolding verify_prefix
  verify_prefix-candidates es {t} h =
      let ((u, m), h1, h2) = >>=-eq-ok (verify_prefix_core sha artifacts es) _ h in
      let (v, h3) = >>-eq-ok (verify_candidates sha json artifacts u) _ h2 in
      verify_candidates-evidence t
        (subst (λ x. verify_candidates sha json artifacts x.0 ≡ ok tt) (ok_injective h3) v)

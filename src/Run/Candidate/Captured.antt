-- ===== src/Run/Candidate/Captured.antt =====
-- What an accepted candidate-state capture establishes (crates/o7-run/src/candidate.rs,
-- `verify_candidate_state_captured`).
use model_lib.Prelude.{
  not, Option, some, Bytes, text_eq, nat_eq, ◌==◌, ok, ok_injective, >>=-eq-ok, >>-eq-ok,
  reject->>-eq-ok, ◌≡◌, sym, ap, ◌∙◌, subst,
}
use model_lib.Run.Ids.{Sha256}
use model_lib.Run.Contract.{
  ArtifactKind, ArtifactRef, CandidateStateContractV1, RunContract, artifact_kind_eq,
}
use model_lib.Run.State.{RunState}
use model_lib.Run.Artifacts.{ArtifactResolver}
use model_lib.Run.Candidate.{
  CommandBindingFacts, CandidateStateReceiptV1, Json, ok_or, require_locator, check_obligation,
  check_contract_schema, check_lineage, resolve_and_verify, parse_receipt,
  resolve_command_binding_facts, verify_candidate_state_captured, candidate_state_receipt_locator,
  candidate_patch_locator,
}
use model_lib.Run.Candidate.Lineage.{
  of_beq, of_ok_or, check_obligation-IsDeclared, check_lineage-IsLineage, content,
  parse_receipt-parts, resolve_command_binding_facts-IsBinding, IsDeclared, IsLineage, IsContent,
  IsBinding,
}

module _ (sha : Sha256) (json : Json) (artifacts : ArtifactResolver) where
  -- What is established of a run that captured the candidate state of a receipt.
  pub record IsCaptured (s : RunState) (c : RunContract) (r : CandidateStateReceiptV1)
      : Type 0 where
    pub receipt :
        (a : ArtifactRef) × (bytes : Bytes) × (s.candidate_state ≡ some a)
        × IsContent sha artifacts ArtifactKind.candidate_state candidate_state_receipt_locator a
            bytes
        × (json.read_receipt bytes ≡ some r)
        × (r.schema ≡ 1)
    pub declared : (o : CandidateStateContractV1) × (c.candidate_state ≡ some o) × IsDeclared o r
    pub own_run : s.run_id ≡ some r.run_id
    pub lineage :
        (facts : Option CommandBindingFacts) × IsBinding sha json artifacts s.command_binding facts
        × IsLineage r facts
    pub patch :
        (bytes : Bytes) × IsContent sha artifacts ArtifactKind.candidate_patch
          candidate_patch_locator r.patch bytes

  -- When the captured candidate state of a run is verified, the result is the receipt that stands at
  -- its fixed place with the digest of the event; it names this run, repeats the declared
  -- conversation, repository and base commit, has the parent of the run's command binding and none
  -- without one, and its patch is present with the digest that it states.
  pub verify_candidate_state_captured-IsCaptured :
      (s : RunState) (c : RunContract) {r : CandidateStateReceiptV1}
      → verify_candidate_state_captured sha json artifacts s c ≡ ok r
      → IsCaptured s c r
  unfolding verify_candidate_state_captured
  verify_candidate_state_captured-IsCaptured s c {r} h =
      let (a, a1, h1) = >>=-eq-ok (ok_or s.candidate_state _) _ h in
      let (l, h2) = >>-eq-ok (require_locator a _ _) _ h1 in
      let (bytes, v, h3) = >>=-eq-ok (resolve_and_verify sha json artifacts a _ _) _ h2 in
      let (q, p, h4) = >>=-eq-ok (parse_receipt sha json artifacts bytes _) _ h3 in
      let (o, o1, h5) = >>=-eq-ok (ok_or c.candidate_state _) _ h4 in
      let (z, h6) = >>-eq-ok (check_contract_schema o) _ h5 in
      let (d, h7) = >>-eq-ok (check_obligation q o) _ h6 in
      let (run, run1, h8) = >>=-eq-ok (ok_or s.run_id _) _ h7 in
      let (n, h9) = reject->>-eq-ok (not (q.run_id == run)) _ _ h8 in
      let (facts, f, h10) = >>=-eq-ok (resolve_command_binding_facts sha json artifacts s) _ h9 in
      let (g, h11) = >>-eq-ok (check_lineage q facts) _ h10 in
      let (m, h12) = >>-eq-ok (require_locator q.patch _ _) _ h11 in
      let (patch, w, h13) = >>=-eq-ok (resolve_and_verify sha json artifacts q.patch _ _) _ h12 in
      subst (IsCaptured s c) (ok_injective h13) (record {
        receipt = (
          a,
          bytes,
          of_ok_or s.candidate_state _ a1,
          content sha json artifacts a _ _ _ l v,
          (parse_receipt-parts sha json artifacts bytes _ p).0,
          (parse_receipt-parts sha json artifacts bytes _ p).1,
        );
        declared = (o, of_ok_or c.candidate_state _ o1, check_obligation-IsDeclared q o z d);
        own_run = of_ok_or s.run_id _ run1 ∙ ap some (sym (of_beq q.run_id run n));
        lineage = (
          facts,
          resolve_command_binding_facts-IsBinding sha json artifacts s f,
          check_lineage-IsLineage q facts g,
        );
        patch = (patch, content sha json artifacts q.patch _ _ _ m w);
      })

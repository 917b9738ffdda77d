-- ===== src/Run/Candidate/Materialized.antt =====
-- What an accepted candidate-state materialization establishes (crates/o7-run/src/candidate.rs,
-- `verify_candidate_state_materialized`).
use model_lib.Prelude.{
  not, some, Bytes, text_eq, nat_eq, ◌==◌, ok, ok_injective, >>=-eq-ok, >>-eq-ok, reject->>-eq-ok,
  ◌≡◌, refl, sym, ap, ◌∙◌, subst,
}
use model_lib.Run.Ids.{Sha256, of_bytes}
use model_lib.Run.Contract.{ArtifactKind, CandidateStateContractV1, RunContract, artifact_kind_eq}
use model_lib.Run.State.{RunState, CandidateMaterialization}
use model_lib.Run.Artifacts.{ArtifactResolver}
use model_lib.Run.Candidate.{
  CommandBindingFacts, Json, CandidateMaterializationCheck, ok_or, require_locator,
  check_obligation, check_contract_schema, resolve_and_verify, parse_receipt,
  resolve_command_binding_facts, verify_candidate_state_materialized,
  parent_candidate_receipt_locator, parent_candidate_patch_locator,
}
use model_lib.Run.Candidate.Lineage.{
  of_beq, of_ok_or, check_obligation-IsDeclared, content, parse_receipt-parts,
  resolve_command_binding_facts-IsBinding, IsDeclared, IsContent, IsBinding,
}

module _ (sha : Sha256) (json : Json) (artifacts : ArtifactResolver) where
  -- What is established of a run that started from the candidate state of another.
  pub record IsMaterialized (s : RunState) (c : RunContract) (m : CandidateMaterializationCheck)
      : Type 0 where
    pub source :
        (x : CandidateMaterialization) × (b : CommandBindingFacts) × (bytes : Bytes)
        × (s.candidate_materialized ≡ some x)
        × IsBinding sha json artifacts s.command_binding (some b)
        × (s.run_id ≡ some b.child_run_id)
        × (x.source_run_id ≡ b.parent_run_id)
        × (m.source_run_id ≡ x.source_run_id)
        × IsContent sha artifacts ArtifactKind.candidate_state parent_candidate_receipt_locator
            x.source_receipt bytes
        × (json.read_receipt bytes ≡ some m.source_receipt)
        × IsContent sha artifacts ArtifactKind.candidate_patch parent_candidate_patch_locator
            x.source_patch m.patch_bytes
        × (x.materialized_tree_oid ≡ m.source_receipt.candidate_tree_oid)
        × (m.source_receipt.conversation_id ≡ b.conversation_id)
    pub declared :
        (o : CandidateStateContractV1) × (c.candidate_state ≡ some o)
        × IsDeclared o m.source_receipt
    pub own_receipt : m.source_receipt.run_id ≡ m.source_run_id
    pub same_patch : of_bytes sha m.patch_bytes ≡ m.source_receipt.patch.digest

  -- When the materialized candidate state of a run is verified, the run's command binding names it
  -- as the child of the source run; the parent's receipt and patch are present with the digests of
  -- the event; the receipt is of the source run, in the declared lineage, and states the very patch
  -- and the tree that were materialized.
  pub verify_candidate_state_materialized-IsMaterialized :
      (s : RunState) (c : RunContract) {m : CandidateMaterializationCheck}
      → verify_candidate_state_materialized sha json artifacts s c ≡ ok m
      → IsMaterialized s c m
  unfolding verify_candidate_state_materialized
  verify_candidate_state_materialized-IsMaterialized s c {m} h =
      let (x, x1, h1) = >>=-eq-ok (ok_or s.candidate_materialized _) _ h in
      let (facts, f, h2) = >>=-eq-ok (resolve_command_binding_facts sha json artifacts s) _ h1 in
      let (b, b1, h3) = >>=-eq-ok (ok_or facts _) _ h2 in
      let (o, o1, h4) = >>=-eq-ok (ok_or c.candidate_state _) _ h3 in
      let (z, h5) = >>-eq-ok (check_contract_schema o) _ h4 in
      let (run, run1, h6) = >>=-eq-ok (ok_or s.run_id _) _ h5 in
      let (n, h7) = reject->>-eq-ok (not (b.child_run_id == run)) _ _ h6 in
      let (k, h8) = reject->>-eq-ok (not (x.source_run_id == b.parent_run_id)) _ _ h7 in
      let (l, h9) = >>-eq-ok (require_locator x.source_receipt _ _) _ h8 in
      let (bytes, v, h10) =
        >>=-eq-ok (resolve_and_verify sha json artifacts x.source_receipt _ _) _ h9 in
      let (q, p, h11) = >>=-eq-ok (parse_receipt sha json artifacts bytes _) _ h10 in
      let (i, h12) = reject->>-eq-ok (not (q.run_id == x.source_run_id)) _ _ h11 in
      let (j, h13) = reject->>-eq-ok (not (q.conversation_id == b.conversation_id)) _ _ h12 in
      let (d, h14) = >>-eq-ok (check_obligation q o) _ h13 in
      let (e, h15) = >>-eq-ok (require_locator q.patch _ _) _ h14 in
      let (g, h16) = >>-eq-ok (require_locator x.source_patch _ _) _ h15 in
      let (patch, w, h17) =
        >>=-eq-ok (resolve_and_verify sha json artifacts x.source_patch _ _) _ h16 in
      let (y, h18) = reject->>-eq-ok (not (of_bytes sha patch == q.patch.digest)) _ _ h17 in
      let (t, h19) =
        reject->>-eq-ok (not (x.materialized_tree_oid == q.candidate_tree_oid)) _ _ h18 in
      subst (IsMaterialized s c) (ok_injective h19) (record {
        source = (
          x,
          b,
          bytes,
          of_ok_or s.candidate_materialized _ x1,
          subst (IsBinding sha json artifacts s.command_binding) (of_ok_or facts _ b1)
              (resolve_command_binding_facts-IsBinding sha json artifacts s f),
          of_ok_or s.run_id _ run1 ∙ ap some (sym (of_beq b.child_run_id run n)),
          of_beq x.source_run_id b.parent_run_id k,
          refl,
          content sha json artifacts x.source_receipt _ _ _ l v,
          (parse_receipt-parts sha json artifacts bytes _ p).0,
          content sha json artifacts x.source_patch _ _ _ g w,
          of_beq x.materialized_tree_oid q.candidate_tree_oid t,
          of_beq q.conversation_id b.conversation_id j,
        );
        declared = (o, of_ok_or c.candidate_state _ o1, check_obligation-IsDeclared q o z d);
        own_receipt = of_beq q.run_id x.source_run_id i;
        same_patch = of_beq (of_bytes sha patch) q.patch.digest y;
      })

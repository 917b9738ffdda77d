-- ===== src/Run/Candidate/Lineage.antt =====
-- What the verification of candidate-state evidence establishes (crates/o7-run/src/candidate.rs):
-- where the receipts and patches come from, and whose they are.
use model_lib.Prelude.{
  ℕ, Bool, true, false, not, Option, none, some, Bytes, Text, text_eq, nat_eq, ◌==◌, text_beq_iff,
  nat_beq_iff, is_some, Result, ok, err, ok_injective, map_err, >>=-eq-ok, >>-eq-ok, reject-eq-ok,
  reject->>-eq-ok, ◌≡◌, refl, sym, ap, ◌∙◌, arith,
}
use model_lib.Run.Ids.{RunId, Sha256, of_bytes}
use model_lib.Run.Contract.{
  ArtifactKind, ArtifactRef, RepositoryIdentity, CandidateStateContractV1, artifact_kind_eq,
  artifact_kind_beq_iff,
}
use model_lib.Run.State.{RunState}
use model_lib.Run.Artifacts.{ArtifactResolver}
use model_lib.Run.Candidate.{
  Evidence, CommandBindingFacts, CandidateStateReceiptV1, Json, CandidateVerifyError,
  repository_beq, ok_or, require_locator, check_obligation, check_contract_schema, parent_is,
  check_lineage, resolve_and_verify, parse_receipt, resolve_binding, resolve_command_binding_facts,
  command_binding_locator,
}

pub of_not : (b : Bool) → not b ≡ false → b ≡ true
of_not true h = refl
of_not false h = cc

pub of_beq : (a b : Text) → not (a == b) ≡ false → a ≡ b
of_beq a b h = (text_beq_iff a b).0 (of_not (a == b) h)

pub of_schema : (a b : ℕ) → not (a == b) ≡ false → a ≡ b
of_schema a b h = (nat_beq_iff a b).0 (of_not (a == b) h)

pub of_map_err {ℓ} :
    {E F : Type 0} {A : Type ℓ} (f : E → F) (r : Result E A) {a : A} → map_err f r ≡ ok a → r ≡ ok a
of_map_err f (ok x) h = ap ok (ok_injective h)
of_map_err f (err e) h = cc

pub of_ok_or {ℓ} :
    {A : Type ℓ} (o : Option A) (e : CandidateVerifyError) {a : A} → ok_or o e ≡ ok a → o ≡ some a
of_ok_or (some x) e h = ap some (ok_injective h)
of_ok_or none e h = cc

-- A receipt repeats the lineage that the run's contract declares.
pub record IsDeclared (o : CandidateStateContractV1) (r : CandidateStateReceiptV1) : Type 0 where
  pub schema : o.schema ≡ 1
  pub conversation : r.conversation_id ≡ o.conversation_id
  pub git_common_dir : r.repository_id.git_common_dir ≡ o.repository_id.git_common_dir
  pub dev : r.repository_id.dev ≡ o.repository_id.dev
  pub ino : r.repository_id.ino ≡ o.repository_id.ino
  pub base : r.base_commit ≡ o.base_commit

same_repository :
    (a b : RepositoryIdentity)
    → repository_beq a b ≡ true
    → (a.git_common_dir ≡ b.git_common_dir) × (a.dev ≡ b.dev) × (a.ino ≡ b.ino)
unfolding repository_beq
same_repository a b h =
    let g = text_beq_iff a.git_common_dir b.git_common_dir in
    (ground (arith, g.0), ground (arith, g.0), ground (arith, g.0))

pub check_obligation-IsDeclared :
    (r : CandidateStateReceiptV1) (o : CandidateStateContractV1)
    → check_contract_schema o ≡ ok tt
    → check_obligation r o ≡ ok tt
    → IsDeclared o r
unfolding check_obligation check_contract_schema
check_obligation-IsDeclared r o s h =
    let z = reject-eq-ok _ _ s in
    let (c, h1) = reject->>-eq-ok _ _ _ h in
    let (d, h2) = reject->>-eq-ok _ _ _ h1 in
    let (b, h3) = reject->>-eq-ok _ _ _ h2 in
    let (dir, dev, ino) = same_repository r.repository_id o.repository_id (of_not _ d) in
    record {
      schema = of_schema o.schema 1 z;
      conversation = of_beq r.conversation_id o.conversation_id c;
      git_common_dir = dir;
      dev = dev;
      ino = ino;
      base = of_beq r.base_commit o.base_commit b;
    }

-- The parent of a receipt, and the run that it names, against the run's own command binding.
abbrev pub IsLineage : CandidateStateReceiptV1 → Option CommandBindingFacts → Type 0
IsLineage r none = r.parent_run_id ≡ none
IsLineage r (some b) =
    (r.run_id ≡ b.child_run_id)
    × (r.conversation_id ≡ b.conversation_id)
    × (r.parent_run_id ≡ some b.parent_run_id)

pub check_lineage-IsLineage :
    (r : CandidateStateReceiptV1) (b : Option CommandBindingFacts)
    → check_lineage r b ≡ ok tt
    → IsLineage r b
unfolding check_lineage parent_is
check_lineage-IsLineage r none h = is_none_of r.parent_run_id (reject-eq-ok _ _ h)
  where
    is_none_of : (o : Option RunId) → is_some o ≡ false → o ≡ none
    is_none_of none h = refl
    is_none_of (some x) h = cc
check_lineage-IsLineage r (some b) h =
    let (c, h1) = reject->>-eq-ok _ _ _ h in
    let (d, h2) = reject->>-eq-ok _ _ _ h1 in
    (
      of_beq r.run_id b.child_run_id c,
      of_beq r.conversation_id b.conversation_id d,
      parent_of r.parent_run_id b.parent_run_id (of_not _ (reject-eq-ok _ _ h2)),
    )
  where
    parent_of : (o : Option RunId) (run : RunId) → parent_is o run ≡ true → o ≡ some run
    parent_of none run h = cc
    parent_of (some p) run h = ap some ((text_beq_iff p run).0 h)

-- An artifact of that kind, at that place, resolved to bytes that hash to its digest.
abbrev pub IsContent :
    Sha256 → ArtifactResolver → ArtifactKind → Text → ArtifactRef → Bytes → Type 0
IsContent sha artifacts kind place a bytes =
    (a.kind ≡ kind)
    × (a.locator ≡ place)
    × (artifacts a ≡ ok bytes)
    × (of_bytes sha bytes ≡ a.digest)

-- The facts of the run's command binding: none without one, else its parsed content.
abbrev pub IsBinding :
    Sha256 → Json → ArtifactResolver → Option ArtifactRef → Option CommandBindingFacts → Type 0
IsBinding sha json artifacts none facts = facts ≡ none
IsBinding sha json artifacts (some a) facts =
    (b : CommandBindingFacts) × (bytes : Bytes) × (facts ≡ some b)
    × IsContent sha artifacts ArtifactKind.command_binding command_binding_locator a bytes
    × (json.read_binding bytes ≡ some b)
    × (b.schema ≡ 1)

module _ (sha : Sha256) (json : Json) (artifacts : ArtifactResolver) where
  pub content :
      (a : ArtifactRef) (kind : ArtifactKind) (place : Text) (what : Evidence) {bytes : Bytes}
      → require_locator a place what ≡ ok tt
      → resolve_and_verify sha json artifacts a kind what ≡ ok bytes
      → IsContent sha artifacts kind place a bytes
  unfolding require_locator resolve_and_verify
  content a kind place what {bytes} l h =
      let (k, h1) = reject->>-eq-ok _ _ _ h in
      let (b, r, h2) =
        >>=-eq-ok (map_err (CandidateVerifyError.unresolved what) (artifacts a)) _ h1 in
      let (d, h3) = reject->>-eq-ok _ _ _ h2 in
      let same = ok_injective h3 in
      (
        (artifact_kind_beq_iff a.kind kind).0 (of_not _ k),
        of_beq a.locator place (reject-eq-ok _ _ l),
        of_map_err _ (artifacts a) r ∙ ap ok same,
        ap (of_bytes sha) (sym same) ∙ of_beq (of_bytes sha b) a.digest d,
      )

  pub parse_receipt-parts :
      (bytes : Bytes) (what : Evidence) {r : CandidateStateReceiptV1}
      → parse_receipt sha json artifacts bytes what ≡ ok r
      → (json.read_receipt bytes ≡ some r) × (r.schema ≡ 1)
  unfolding parse_receipt
  parse_receipt-parts bytes what h =
      let (q, p, h1) = >>=-eq-ok (ok_or (json.read_receipt bytes) _) _ h in
      let (z, h2) = reject->>-eq-ok _ _ _ h1 in
      let same = ok_injective h2 in
      (
        of_ok_or (json.read_receipt bytes) _ p ∙ ap some same,
        ap (λ x. x.schema) (sym same) ∙ of_schema q.schema 1 z,
      )

  resolve_binding-IsBinding :
      (a : ArtifactRef) {facts : Option CommandBindingFacts}
      → resolve_binding sha json artifacts a ≡ ok facts
      → IsBinding sha json artifacts (some a) facts
  unfolding resolve_binding
  resolve_binding-IsBinding a h =
      let (l, h1) = >>-eq-ok (require_locator a _ _) _ h in
      let (bytes, v, h2) = >>=-eq-ok (resolve_and_verify sha json artifacts a _ _) _ h1 in
      let (b, p, h3) = >>=-eq-ok (ok_or (json.read_binding bytes) _) _ h2 in
      let (z, h4) = reject->>-eq-ok _ _ _ h3 in
      (
        b,
        bytes,
        sym (ok_injective h4),
        content a _ _ _ l v,
        of_ok_or (json.read_binding bytes) _ p,
        of_schema b.schema 1 z,
      )

  facts_of :
      (o : Option ArtifactRef) {facts : Option CommandBindingFacts}
      → (elim o [ none ↦ ok none | some a ↦ resolve_binding sha json artifacts a ]) ≡ ok facts
      → IsBinding sha json artifacts o facts
  facts_of none h = sym (ok_injective h)
  facts_of (some a) h = resolve_binding-IsBinding a h

  pub resolve_command_binding_facts-IsBinding :
      (s : RunState) {facts : Option CommandBindingFacts}
      → resolve_command_binding_facts sha json artifacts s ≡ ok facts
      → IsBinding sha json artifacts s.command_binding facts
  unfolding resolve_command_binding_facts
  resolve_command_binding_facts-IsBinding s h = facts_of s.command_binding h

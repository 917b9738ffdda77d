-- ===== src/Run/Candidate.antt =====
-- crates/o7-run/src/candidate.rs: what a candidate-state receipt has to say of the run's lineage.
-- `serde_json` is a parameter: how the bytes of a receipt and of a command binding parse.
pub mod Lineage
pub mod Captured
pub mod Materialized
use model_lib.Prelude.{
  ℕ, Bool, true, false, not, ◌&&◌, Option, none, some, Bytes, Text, codes, text_eq, nat_eq, ◌==◌,
  is_some, Result, ok, err, reject, map_err, ◌>>=◌, ◌>>◌,
}
use model_lib.Run.Ids.{RunId, Sha256, of_bytes}
use model_lib.Run.Contract.{
  ArtifactKind, ArtifactRef, RepositoryIdentity, CandidatePatchKind, CandidateStateContractV1,
  RunContract, candidate_state_contract_schema_v1, artifact_kind_eq,
}
use model_lib.Run.State.{RunState}
use model_lib.Run.Artifacts.{ArtifactError, ArtifactResolver}

abbrev pub candidate_state_receipt_schema_v1 : ℕ
candidate_state_receipt_schema_v1 = 1

abbrev pub command_binding_schema_v1 : ℕ
command_binding_schema_v1 = 1

-- The `what` of a message: which evidence a check is about.
pub data Evidence : Type 0 where
  own_receipt own_patch parent_receipt parent_patch source_patch command_binding : Evidence

abbrev pub candidate_state_receipt_locator : Text
candidate_state_receipt_locator = codes "candidate_state_receipt.json"

abbrev pub candidate_patch_locator : Text
candidate_patch_locator = codes "candidate.patch"

abbrev pub parent_candidate_receipt_locator : Text
parent_candidate_receipt_locator = codes "parent_candidate_receipt.json"

abbrev pub parent_candidate_patch_locator : Text
parent_candidate_patch_locator = codes "parent_candidate.patch"

abbrev pub command_binding_locator : Text
command_binding_locator = codes "command_binding.json"

pub record CommandBindingFacts : Type 0 where
  pub schema : ℕ
  pub command_id : Text
  pub conversation_id : Text
  pub parent_run_id : RunId
  pub child_run_id : RunId
  pub command_sha256 : Text

pub record CandidateStateReceiptV1 : Type 0 where
  pub schema : ℕ
  pub repository_id : RepositoryIdentity
  pub base_commit : Text
  pub run_id : RunId
  pub conversation_id : Text
  pub parent_run_id : Option RunId
  pub candidate_tree_oid : Text
  pub patch_kind : CandidatePatchKind
  pub patch : ArtifactRef

pub record Json : Type 0 where
  pub read_receipt : Bytes → Option CandidateStateReceiptV1
  pub read_binding : Bytes → Option CommandBindingFacts
  pub write_state : RunState → Option Bytes

-- The source has one variant with a formatted message; a constructor here is one message.
pub data CandidateVerifyError : Type 0 where
  wrong_kind : Evidence → ArtifactKind → ArtifactKind → CandidateVerifyError
  unresolved : Evidence → ArtifactError → CandidateVerifyError
  digest_mismatch unparsable : Evidence → CandidateVerifyError
  unsupported_schema : Evidence → ℕ → CandidateVerifyError
  wrong_locator : Evidence → Text → Text → CandidateVerifyError
  no_receipt no_materialization no_binding no_obligation no_contract : CandidateVerifyError
  unsupported_contract_schema : ℕ → CandidateVerifyError
  conversation_disagrees repository_disagrees base_disagrees : CandidateVerifyError
  patch_kind_disagrees no_run_id run_id_disagrees : CandidateVerifyError
  initial_with_parent child_run_disagrees binding_conversation_disagrees : CandidateVerifyError
  parent_run_disagrees binding_child_disagrees source_run_disagrees : CandidateVerifyError
  source_receipt_disagrees patch_digest_disagrees : CandidateVerifyError
  tree_disagrees : Text → Text → CandidateVerifyError

unfoldable pub repository_beq : RepositoryIdentity → RepositoryIdentity → Bool
repository_beq a b = a.git_common_dir == b.git_common_dir && a.dev == b.dev && a.ino == b.ino

unfoldable pub patch_kind_beq : CandidatePatchKind → CandidatePatchKind → Bool
patch_kind_beq CandidatePatchKind.git_binary_cumulative_patch_v1 b = true

-- `ok_or_else`.
abbrev pub ok_or {ℓ} :
    {A : Type ℓ} → Option A → CandidateVerifyError → Result CandidateVerifyError A
ok_or none e = err e
ok_or (some a) e = ok a

unfoldable pub require_locator :
    ArtifactRef → Text → Evidence → Result CandidateVerifyError (Unit {0})
require_locator r expected what =
    reject (not (r.locator == expected))
      (CandidateVerifyError.wrong_locator what r.locator expected)

-- The contract fields that a receipt has to repeat.
unfoldable pub check_obligation :
    CandidateStateReceiptV1 → CandidateStateContractV1 → Result CandidateVerifyError (Unit {0})
check_obligation receipt obligation = do
  reject (not (receipt.conversation_id == obligation.conversation_id))
      CandidateVerifyError.conversation_disagrees
  reject (not (repository_beq receipt.repository_id obligation.repository_id))
      CandidateVerifyError.repository_disagrees
  reject (not (receipt.base_commit == obligation.base_commit)) CandidateVerifyError.base_disagrees
  reject (not (patch_kind_beq receipt.patch_kind obligation.patch_kind))
      CandidateVerifyError.patch_kind_disagrees

unfoldable pub check_contract_schema :
    CandidateStateContractV1 → Result CandidateVerifyError (Unit {0})
check_contract_schema obligation =
    reject (not (obligation.schema == candidate_state_contract_schema_v1))
      (CandidateVerifyError.unsupported_contract_schema obligation.schema)

unfoldable pub parent_is : Option RunId → RunId → Bool
parent_is none run = false
parent_is (some parent) run = parent == run

-- The lineage of a receipt against the run's own command binding, if it has one.
unfoldable pub check_lineage :
    CandidateStateReceiptV1 → Option CommandBindingFacts → Result CandidateVerifyError (Unit {0})
check_lineage receipt none =
    reject (is_some receipt.parent_run_id) CandidateVerifyError.initial_with_parent
check_lineage receipt (some binding) = do
  reject (not (receipt.run_id == binding.child_run_id)) CandidateVerifyError.child_run_disagrees
  reject (not (receipt.conversation_id == binding.conversation_id))
      CandidateVerifyError.binding_conversation_disagrees
  reject (not (parent_is receipt.parent_run_id binding.parent_run_id))
      CandidateVerifyError.parent_run_disagrees

pub record CandidateMaterializationCheck : Type 0 where
  pub source_run_id : RunId
  pub source_receipt : CandidateStateReceiptV1
  pub patch_bytes : Bytes

module _ (sha : Sha256) (json : Json) (artifacts : ArtifactResolver) where
  unfoldable pub resolve_and_verify :
      ArtifactRef → ArtifactKind → Evidence → Result CandidateVerifyError Bytes
  resolve_and_verify r expected what = do
    reject (not (r.kind == expected)) (CandidateVerifyError.wrong_kind what r.kind expected)
    bytes ← map_err (CandidateVerifyError.unresolved what) (artifacts r)
    reject (not (of_bytes sha bytes == r.digest)) (CandidateVerifyError.digest_mismatch what)
    ok bytes

  unfoldable pub parse_receipt :
      Bytes → Evidence → Result CandidateVerifyError CandidateStateReceiptV1
  parse_receipt bytes what = do
    receipt ← ok_or (json.read_receipt bytes) (CandidateVerifyError.unparsable what)
    reject (not (receipt.schema == candidate_state_receipt_schema_v1))
        (CandidateVerifyError.unsupported_schema what receipt.schema)
    ok receipt

  unfoldable pub resolve_binding :
      ArtifactRef → Result CandidateVerifyError (Option CommandBindingFacts)
  resolve_binding binding_ref = do
    require_locator binding_ref command_binding_locator Evidence.command_binding
    bytes ← resolve_and_verify binding_ref ArtifactKind.command_binding Evidence.command_binding
    facts ←
        ok_or (json.read_binding bytes) (CandidateVerifyError.unparsable Evidence.command_binding)
    reject (not (facts.schema == command_binding_schema_v1))
        (CandidateVerifyError.unsupported_schema Evidence.command_binding facts.schema)
    ok (some facts)

  unfoldable pub resolve_command_binding_facts :
      RunState → Result CandidateVerifyError (Option CommandBindingFacts)
  resolve_command_binding_facts state = elim state.command_binding [
    | none ↦ ok none
    | some binding_ref ↦ resolve_binding binding_ref
  ]

  unfoldable pub verify_candidate_state_captured :
      RunState → RunContract → Result CandidateVerifyError CandidateStateReceiptV1
  verify_candidate_state_captured state contract = do
    receipt_ref ← ok_or state.candidate_state CandidateVerifyError.no_receipt
    require_locator receipt_ref candidate_state_receipt_locator Evidence.own_receipt
    bytes ← resolve_and_verify receipt_ref ArtifactKind.candidate_state Evidence.own_receipt
    receipt ← parse_receipt bytes Evidence.own_receipt
    obligation ← ok_or contract.candidate_state CandidateVerifyError.no_obligation
    check_contract_schema obligation
    check_obligation receipt obligation
    expected ← ok_or state.run_id CandidateVerifyError.no_run_id
    reject (not (receipt.run_id == expected)) CandidateVerifyError.run_id_disagrees
    binding ← resolve_command_binding_facts state
    check_lineage receipt binding
    require_locator receipt.patch candidate_patch_locator Evidence.own_patch
    patch_bytes ← resolve_and_verify receipt.patch ArtifactKind.candidate_patch Evidence.own_patch
    ok receipt

  unfoldable pub verify_candidate_state_materialized :
      RunState → RunContract → Result CandidateVerifyError CandidateMaterializationCheck
  verify_candidate_state_materialized state contract = do
    mat ← ok_or state.candidate_materialized CandidateVerifyError.no_materialization
    facts ← resolve_command_binding_facts state
    binding ← ok_or facts CandidateVerifyError.no_binding
    obligation ← ok_or contract.candidate_state CandidateVerifyError.no_obligation
    check_contract_schema obligation
    canonical ← ok_or state.run_id CandidateVerifyError.no_run_id
    reject (not (binding.child_run_id == canonical)) CandidateVerifyError.binding_child_disagrees
    reject (not (mat.source_run_id == binding.parent_run_id))
        CandidateVerifyError.source_run_disagrees
    require_locator mat.source_receipt parent_candidate_receipt_locator Evidence.parent_receipt
    receipt_bytes ←
        resolve_and_verify mat.source_receipt ArtifactKind.candidate_state Evidence.parent_receipt
    receipt ← parse_receipt receipt_bytes Evidence.parent_receipt
    reject (not (receipt.run_id == mat.source_run_id)) CandidateVerifyError.source_receipt_disagrees
    reject (not (receipt.conversation_id == binding.conversation_id))
        CandidateVerifyError.binding_conversation_disagrees
    check_obligation receipt obligation
    require_locator receipt.patch candidate_patch_locator Evidence.source_patch
    require_locator mat.source_patch parent_candidate_patch_locator Evidence.parent_patch
    patch_bytes ←
        resolve_and_verify mat.source_patch ArtifactKind.candidate_patch Evidence.parent_patch
    reject (not (of_bytes sha patch_bytes == receipt.patch.digest))
        CandidateVerifyError.patch_digest_disagrees
    reject (not (mat.materialized_tree_oid == receipt.candidate_tree_oid))
        (CandidateVerifyError.tree_disagrees mat.materialized_tree_oid receipt.candidate_tree_oid)
    ok (record {
      source_run_id = mat.source_run_id;
      source_receipt = receipt;
      patch_bytes = patch_bytes;
    })

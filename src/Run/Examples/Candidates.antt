-- ===== src/Run/Examples/Candidates.antt =====
-- A run that continues another one: it materializes the candidate state of its parent, and captures
-- its own.
use model_lib.Prelude.{
  true, none, some, List, [], ◌∷◌, text_eq, ◌==◌, codes, is_some, ok, if◌then◌else◌, ◌≡◌, refl,
}
use model_lib.Run.Ids.{of_bytes, genesis}
use model_lib.Run.Contract.{
  ArtifactKind, RepositoryIdentity, CandidatePatchKind, CandidateStateContractV1, RunContract,
}
use model_lib.Run.Event.{AgentOutcome, RunEventKind, RunEvent}
use model_lib.Run.Encoding.{fold_candidate_state_contract, candidate_patch_kind_tag}
use model_lib.Run.State.{RunState, initial}
use model_lib.Run.Handlers.{
  on_patch_captured, on_command_binding, on_candidate_captured, on_candidate_materialized,
}
use model_lib.Run.Artifacts.{
  ArtifactResolver, referenced_artifacts, same_target, push_unique, collect_unique,
}
use model_lib.Run.Candidate.{
  CommandBindingFacts, CandidateStateReceiptV1, CandidateMaterializationCheck, Json, repository_beq,
  patch_kind_beq, require_locator, check_obligation, check_contract_schema, parent_is,
  check_lineage, resolve_and_verify, parse_receipt, resolve_binding, resolve_command_binding_facts,
  verify_candidate_state_captured, verify_candidate_state_materialized,
  candidate_state_receipt_locator, candidate_patch_locator, parent_candidate_receipt_locator,
  parent_candidate_patch_locator, command_binding_locator,
}
use model_lib.Run.Candidate.Captured.{IsCaptured, verify_candidate_state_captured-IsCaptured}
use model_lib.Run.Candidate.Materialized.{
  IsMaterialized, verify_candidate_state_materialized-IsMaterialized,
}
use model_lib.Run.Replay.{
  check_chain, check_artifacts, verify_prefix_core, verify_captured, verify_materialized,
  verify_candidates, verify_prefix,
}
use model_lib.Run.Replay.Candidates.{verify_prefix-candidates}
use model_lib.Run.Examples.{toy, artifact_of, contract, stream, run, state_from}

abbrev repository : RepositoryIdentity
repository = record { git_common_dir = b'd' ∷ []; dev = 1; ino = 2 }

abbrev obligation : CandidateStateContractV1
obligation = record {
  schema = 1;
  conversation_id = b'c' ∷ [];
  repository_id = repository;
  base_commit = b'b' ∷ [];
  patch_kind = CandidatePatchKind.git_binary_cumulative_patch_v1;
}

abbrev declared : RunContract
declared = record contract {
  gate_obligations = [];
  policy_obligations = [];
  sandbox_requirements = [];
  candidate_state = some obligation;
}

abbrev binding : CommandBindingFacts
binding = record {
  schema = 1;
  command_id = [];
  conversation_id = b'c' ∷ [];
  parent_run_id = b'q' ∷ [];
  child_run_id = b'r' ∷ [];
  command_sha256 = [];
}

abbrev own : CandidateStateReceiptV1
own = record {
  schema = 1;
  repository_id = repository;
  base_commit = b'b' ∷ [];
  run_id = b'r' ∷ [];
  conversation_id = b'c' ∷ [];
  parent_run_id = some (b'q' ∷ []);
  candidate_tree_oid = b'x' ∷ [];
  patch_kind = CandidatePatchKind.git_binary_cumulative_patch_v1;
  patch = artifact_of ArtifactKind.candidate_patch candidate_patch_locator;
}

abbrev parent : CandidateStateReceiptV1
parent = record own {
  run_id = b'q' ∷ [];
  parent_run_id = none;
  candidate_tree_oid = b'y' ∷ [];
  patch = record {
    kind = ArtifactKind.candidate_patch;
    locator = candidate_patch_locator;
    digest = of_bytes toy parent_candidate_patch_locator;
  };
}

abbrev json : Json
json = record {
  read_receipt =
      λ bytes. if bytes == candidate_state_receipt_locator then some own else some parent;
  read_binding = λ bytes. some binding;
  write_state = λ s. some [];
}

abbrev store : ArtifactResolver
store = λ a. ok a.locator

abbrev events : List RunEvent
events = stream genesis 0 (
    RunEventKind.run_started declared (artifact_of ArtifactKind.task (b't' ∷ []))
    ∷ RunEventKind.command_binding_captured
        (artifact_of ArtifactKind.command_binding command_binding_locator)
    ∷ RunEventKind.candidate_state_materialized (b'q' ∷ [])
        (artifact_of ArtifactKind.candidate_state parent_candidate_receipt_locator)
        (artifact_of ArtifactKind.candidate_patch parent_candidate_patch_locator) (b'y' ∷ [])
    ∷ RunEventKind.agent_started
    ∷ RunEventKind.agent_exited (AgentOutcome.exited_normally 0)
    ∷ RunEventKind.patch_captured (artifact_of ArtifactKind.diff (b'p' ∷ []))
    ∷ RunEventKind.candidate_state_captured
        (artifact_of ArtifactKind.candidate_state candidate_state_receipt_locator)
    ∷ RunEventKind.run_sealed
    ∷ [])

unfoldable fold : List RunEvent → RunState
unfolding run codes fold_candidate_state_contract candidate_patch_kind_tag on_patch_captured
    on_command_binding on_candidate_captured on_candidate_materialized repository_beq patch_kind_beq
    require_locator check_obligation check_contract_schema parent_is check_lineage
    resolve_and_verify parse_receipt resolve_binding resolve_command_binding_facts
    verify_candidate_state_captured verify_candidate_state_materialized check_chain check_artifacts
    verify_prefix_core verify_captured verify_materialized verify_candidates verify_prefix
    referenced_artifacts same_target push_unique collect_unique
fold es = state_from initial (run es)

abbrev final : RunState
final = fold events

captured : verify_candidate_state_captured toy json store final declared ≡ ok own
unfolding fold
captured = refl

verify_candidate_state_captured-IsCaptured_example : IsCaptured toy json store final declared own
verify_candidate_state_captured-IsCaptured_example =
    verify_candidate_state_captured-IsCaptured toy json store final declared captured

abbrev check : CandidateMaterializationCheck
check = record {
  source_run_id = b'q' ∷ [];
  source_receipt = parent;
  patch_bytes = parent_candidate_patch_locator;
}

materialized : verify_candidate_state_materialized toy json store final declared ≡ ok check
unfolding fold
materialized = refl

verify_candidate_state_materialized-IsMaterialized_example :
    IsMaterialized toy json store final declared check
verify_candidate_state_materialized-IsMaterialized_example =
    verify_candidate_state_materialized-IsMaterialized toy json store final declared materialized

prefix_verified : verify_prefix toy json store events ≡ ok (final, 6)
unfolding fold
prefix_verified = refl

verify_prefix-candidates_example :
    (is_some final.candidate_state ≡ true
      → (c : RunContract) × (final.contract ≡ some c)
        × (r : CandidateStateReceiptV1) × IsCaptured toy json store final c r)
    × (is_some final.candidate_materialized ≡ true
        → (c : RunContract) × (final.contract ≡ some c)
          × (m : CandidateMaterializationCheck) × IsMaterialized toy json store final c m)
verify_prefix-candidates_example = verify_prefix-candidates toy json store events prefix_verified

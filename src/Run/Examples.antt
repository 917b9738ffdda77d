-- ===== src/Run/Examples.antt =====
-- Concrete runs: a hash function to compute with, streams that the reducer accepts, and the
-- theorems applied to them.
mod Candidates
mod Tamper
use model_lib.Prelude.{
  ℕ, zero, suc, ◌+◌, ◌*◌, ◌%◌, ◌/◌, ◌^◌, true, none, some, List, [], ◌∷◌, ◌++◌, Bytes, Text, All,
  length, Result, ok, err, ◌≡◌, ◌↔◌, inl, refl, arith, if◌then◌else◌, text_beq, find, any, contains,
  filter, set_insert, map_get, map_insert, text_ord, text_cmp,
}
use model_lib.Run.Ids.{
  Digest256, Sha256, IsByte, of_bytes, genesis, hex_lower, push_hex, hex_digit, repeat_byte, parse,
}
use model_lib.Run.Contract.{
  ArtifactKind, ArtifactRef, GateOutcome, PolicyOutcome, ExecutionSubject, SandboxEvidenceOutcome,
  GateRequirement, GateApplicability, PolicyRequirement, PolicyProtectedSubject, AgentObligation,
  RunContract, artifact_kind_beq, artifact_kind_tag, execution_subject_beq, protected_subject_beq,
}
use model_lib.Run.Event.{AgentOutcome, RunEventKind, RunEvent, tag}
use model_lib.Run.State.{Verdict, GateProgress, RunState, initial, is_sealed}
use model_lib.Run.Errors.{ReduceError}
use model_lib.Run.Encoding.{
  le_bytes, frame, gate_outcome_tag, policy_outcome_tag, sandbox_outcome_tag, gate_requirement_tag,
  policy_requirement_tag, fold_artifact, fold_optional_artifact, fold_applicability, fold_subject,
  fold_protected_subject, fold_agent_obligation, fold_optional_candidate_state_contract, fold_each,
  fold_list, fold_gate_obligation, fold_policy_obligation, fold_sandbox_requirement, fold_contract,
  fold_agent_outcome, fold_kind, preimage, compute_digest, digest_is_consistent,
}
use model_lib.Run.Admission.{
  gate_obligation, is_required_gate, is_applicable, is_required_applicable, is_required_policy,
  is_agent_required, is_allowed, validate_artifact, validate_waiver, validate_gates,
  validate_protected, validate_protects, validate_policies, validate_sandbox_gate, validate_subject,
  same_requirement, validate_sandbox, validate_candidate, validate_contract, was_allowed,
  check_protectors, check_protected_start,
}
use model_lib.Run.Verdicts.{
  is_agent_subject, protects_agent, policy_outcome, note_protector, note_protectors, nonstart_of,
  nonstart_from, agent_nonstart_disposition, is_clean_exit, agent_flags, gate_flags, gates_flags,
  policy_flags, policies_flags, find_evidence, sandbox_flags, sandboxes_flags, verdict_of,
  agent_stage, candidate_stage, compute_verdict,
}
use model_lib.Run.Verdicts.Discharge.{IsDischarged, compute_verdict-pass_iff}
use model_lib.Run.Verdicts.Precedence.{worst, obligation_verdicts, compute_verdict-worst}
use model_lib.Run.Handlers.{
  is_not_observed, has_exited, is_failed_to_start, on_agent_started, check_agent_exit,
  on_agent_exited, on_policy_checked, on_gate_started, validate_log, check_gate_progress,
  on_gate_finished, key_beq, subject_cmp, key_cmp, search_position, insert_at, on_sandbox_evidence,
  on_run_sealed, apply_with_contract,
}
use model_lib.Run.Reduce.{
  is_not_started, is_run_started, start_run, apply_bound, apply_kind, check_sequence, check_run_id,
  advance, check_envelope, reduce, reduce_from, reduce_all,
}
use model_lib.Run.Steps.{IsLog, Step}
use model_lib.Run.Steps.Sound.{apply_with_contract-Step}
use model_lib.Run.Steps.Complete.{apply_with_contract_complete}
use model_lib.Run.Streams.Chain.{IsChained, AllDistinct, end_digest, reduce_all-IsChained}
use model_lib.Run.Streams.Order.{reduce_all-AllDistinct, reduce_all-brackets}
use model_lib.Run.Streams.Evidence.{IsRecorded, reduce_all-IsRecorded}
use model_lib.Run.Streams.States.{IsConsistent, reduce_all-IsConsistent}
use model_lib.Run.Streams.Green.{IsDischargedBy, no_false_green}
use model_lib.Run.Artifacts.{
  ArtifactResolver, split_slash, first_components, later_components, components, is_normal,
  all_normal, confined, referenced_artifacts, same_target, push_unique, collect_unique,
}
use model_lib.Run.Artifacts.Confinement.{
  StartsWithName, HasNoParent, walk, confined_iff, confined-below,
}
use model_lib.Run.Ids.Hex.{of_bytes-canonical}
use model_lib.Run.Candidate.{Json}
use model_lib.Run.Replay.{
  ReplayReport, ReplayError, RecordVerdict, verdict_beq, is_nil, check_chain, check_artifacts,
  verify_prefix_core, normalized_digest, verify_captured, verify_materialized, verify_candidates,
  verify_prefix, report_of, classify_record, replay, replay_verify,
}
use model_lib.Run.Replay.Content.{IsProven, verify_prefix_core-IsProven}
use model_lib.Run.Replay.Reports.{
  as_record, classify_record-replay, replay_verify_iff, replay-report, replay-no_false_green,
}

unfoldable pub checksum : Bytes → ℕ
checksum [] = 7
checksum (b ∷ bs) = (b + 257 * checksum bs) % 2 ^ 256

pub length-le_bytes : (w n : ℕ) → length (le_bytes w n) ≡ w
unfolding le_bytes
length-le_bytes zero n = refl
length-le_bytes (suc w) n = ground (arith, length-le_bytes w (n / 256))

pub le_bytes-IsByte : (w n : ℕ) → All IsByte (le_bytes w n)
unfolding le_bytes
le_bytes-IsByte zero n = tt
le_bytes-IsByte (suc w) n = (omega arith, le_bytes-IsByte w (n / 256))

-- A hash function of 32 bytes to compute with.
abbrev pub toy : Sha256
toy = record {
  finalize = λ m. le_bytes 32 (checksum m);
  finalize_length = λ m. length-le_bytes 32 (checksum m);
  finalize_bytes = λ m. le_bytes-IsByte 32 (checksum m);
}

-- An artifact whose content is its own locator.
abbrev pub artifact_of : ArtifactKind → Text → ArtifactRef
artifact_of kind locator = record { kind = kind; locator = locator; digest = of_bytes toy locator }

abbrev pub guard : ArtifactRef
guard = artifact_of ArtifactKind.policy (b'p' ∷ [])

abbrev pub fmt_gate : Text
fmt_gate = b'f' ∷ []

abbrev pub contract : RunContract
contract = record {
  gate_obligations =
      record {
        gate = fmt_gate;
        requirement = GateRequirement.required;
        applicability = GateApplicability.applicable;
      }
      ∷ [];
  policy_obligations =
      record {
        policy = guard;
        requirement = PolicyRequirement.required;
        protects = PolicyProtectedSubject.agent ∷ [];
      }
      ∷ [];
  sandbox_requirements =
      record { subject = ExecutionSubject.agent; policy_digest = guard.digest } ∷ [];
  agent = AgentObligation.required;
  runner_environment = b'l' ∷ [];
  candidate_state = none;
}

abbrev kinds : List RunEventKind
kinds =
    RunEventKind.run_started contract (artifact_of ArtifactKind.task (b't' ∷ []))
    ∷ RunEventKind.policy_checked guard PolicyOutcome.allowed
    ∷ RunEventKind.agent_started
    ∷ RunEventKind.agent_exited (AgentOutcome.exited_normally 0)
    ∷ RunEventKind.sandbox_evidence_captured ExecutionSubject.agent guard.digest
        (artifact_of ArtifactKind.sandbox_report (b's' ∷ [])) SandboxEvidenceOutcome.satisfied
    ∷ RunEventKind.gate_started fmt_gate
    ∷ RunEventKind.gate_finished fmt_gate GateOutcome.pass
        (some (artifact_of ArtifactKind.gate_log (b'g' ∷ [])))
    ∷ RunEventKind.run_sealed
    ∷ []

abbrev pub draft : Digest256 → ℕ → RunEventKind → RunEvent
draft prev n kind = record {
  event_id = (65 + n) ∷ [];
  schema_version = 1;
  run_id = b'r' ∷ [];
  sequence = n;
  previous_event_digest = prev;
  event_digest = [];
  timestamp_millis = 1000 + n;
  kind = kind;
}

abbrev pub sign : RunEvent → RunEvent
sign e = record e { event_digest = compute_digest toy e }

-- The stream of the payloads, chained from a digest and a number on.
unfoldable pub stream : Digest256 → ℕ → List RunEventKind → List RunEvent
stream prev n [] = []
stream prev n (k ∷ ks) = let e = sign (draft prev n k) in e ∷ stream e.event_digest (suc n) ks

abbrev events : List RunEvent
events = stream genesis 0 kinds

abbrev pub state_from {ℓ} : {E : Type 0} {A : Type ℓ} → A → Result E A → A
state_from a (ok b) = b
state_from a (err e) = a

unfoldable pub run : List RunEvent → Result ReduceError RunState
unfolding checksum le_bytes frame gate_outcome_tag policy_outcome_tag sandbox_outcome_tag
    gate_requirement_tag policy_requirement_tag fold_artifact fold_optional_artifact
    fold_applicability fold_subject fold_protected_subject fold_agent_obligation
    fold_optional_candidate_state_contract fold_each fold_list fold_gate_obligation
    fold_policy_obligation fold_sandbox_requirement fold_contract fold_agent_outcome fold_kind
    preimage compute_digest digest_is_consistent stream of_bytes genesis hex_lower push_hex
    hex_digit repeat_byte tag initial is_sealed gate_obligation is_required_gate is_applicable
    is_required_applicable is_required_policy is_agent_required is_allowed validate_artifact
    validate_waiver validate_gates validate_protected validate_protects validate_policies
    validate_sandbox_gate validate_subject same_requirement validate_sandbox validate_candidate
    validate_contract was_allowed check_protectors check_protected_start is_agent_subject
    protects_agent policy_outcome note_protector note_protectors nonstart_of nonstart_from
    agent_nonstart_disposition is_clean_exit agent_flags gate_flags gates_flags policy_flags
    policies_flags find_evidence sandbox_flags sandboxes_flags verdict_of agent_stage
    candidate_stage compute_verdict is_not_observed has_exited is_failed_to_start on_agent_started
    check_agent_exit on_agent_exited on_policy_checked on_gate_started validate_log
    check_gate_progress on_gate_finished key_beq subject_cmp key_cmp search_position insert_at
    on_sandbox_evidence on_run_sealed apply_with_contract is_not_started is_run_started start_run
    apply_bound apply_kind check_sequence check_run_id advance check_envelope reduce reduce_from
    reduce_all text_beq find any contains filter set_insert map_get map_insert text_cmp
    artifact_kind_beq artifact_kind_tag execution_subject_beq protected_subject_beq
run es = reduce_all toy es

abbrev final : RunState
final = state_from initial (run events)

events_accepted : reduce_all toy events ≡ ok final
unfolding run
events_accepted = refl

final_verdict : final.verdict ≡ some Verdict.pass
unfolding run
final_verdict = refl

-- The verdict of this run.
no_false_green_example : (c : RunContract) × (final.contract ≡ some c) × IsDischargedBy events c
no_false_green_example = no_false_green toy events events_accepted final_verdict

compute_verdict-pass_iff_example :
    (compute_verdict final contract ≡ Verdict.pass) ↔ IsDischarged final contract
compute_verdict-pass_iff_example = compute_verdict-pass_iff final contract

compute_verdict-worst_example :
    compute_verdict final contract ≡ worst (obligation_verdicts final contract)
compute_verdict-worst_example = compute_verdict-worst final contract

-- One step: a gate that is started is finished.
abbrev busy : RunState
busy = record initial { contract = some contract; gates = (fmt_gate, GateProgress.started) ∷ [] }

abbrev fmt_log : ArtifactRef
fmt_log = artifact_of ArtifactKind.gate_log (b'g' ∷ [])

abbrev fmt_finished : RunEventKind
fmt_finished = RunEventKind.gate_finished fmt_gate GateOutcome.fail (some fmt_log)

abbrev done : RunState
done = record busy {
  gates = map_insert fmt_gate (GateProgress.finished GateOutcome.fail) busy.gates;
}

fmt_applies : apply_with_contract busy contract 5 fmt_finished ≡ ok done
unfolding run
fmt_applies = refl

fmt_started : map_get fmt_gate busy.gates ≡ some GateProgress.started
unfolding run
fmt_started = refl

fmt_steps : Step busy contract fmt_finished done
fmt_steps = Step.gate_finish (inl refl) (IsLog.a_log (refl, refl)) fmt_started

apply_with_contract-Step_example : Step busy contract fmt_finished done
apply_with_contract-Step_example = apply_with_contract-Step busy contract 5 fmt_finished fmt_applies

apply_with_contract_complete_example : apply_with_contract busy contract 5 fmt_finished ≡ ok done
apply_with_contract_complete_example = apply_with_contract_complete busy contract 5 fmt_steps

-- The stream of this run.
reduce_all-IsChained_example :
    IsChained toy events × (final.last_event_digest ≡ end_digest genesis events)
reduce_all-IsChained_example = reduce_all-IsChained toy events events_accepted

reduce_all-AllDistinct_example : AllDistinct events
reduce_all-AllDistinct_example = reduce_all-AllDistinct toy events events_accepted

abbrev pub first : RunEvent
first = sign (
    draft genesis 0 (RunEventKind.run_started contract (artifact_of ArtifactKind.task (b't' ∷ []))))

abbrev pub second : RunEvent
second = sign (draft first.event_digest 1 RunEventKind.run_sealed)

abbrev pub stopped : RunState
stopped = state_from initial (run (first ∷ second ∷ []))

pub stopped_accepted : reduce_all toy (first ∷ second ∷ []) ≡ ok stopped
unfolding run
stopped_accepted = refl

reduce_all-brackets_example :
    ((is_run_started second.kind ≡ true) ↔ (first ∷ [] ≡ []))
    × (second.kind ≡ RunEventKind.run_sealed → ◌≡◌ {A = List RunEvent} [] [])
    × (◌≡◌ {A = List RunEvent} [] []
        → (is_sealed stopped ≡ true) ↔ (second.kind ≡ RunEventKind.run_sealed))
reduce_all-brackets_example = reduce_all-brackets toy (first ∷ []) [] second stopped_accepted

reduce_all-IsRecorded_example : IsRecorded events final
reduce_all-IsRecorded_example = reduce_all-IsRecorded toy events events_accepted

reduce_all-IsConsistent_example : IsConsistent final
reduce_all-IsConsistent_example = reduce_all-IsConsistent toy events events_accepted

-- The replay of this run, each artifact being its own locator.
abbrev store : ArtifactResolver
store = λ a. ok a.locator

abbrev json : Json
json = record {
  read_receipt = λ bytes. none;
  read_binding = λ bytes. none;
  write_state = λ s. some [];
}

unfoldable replayed : List RunEvent → Result ReplayError ReplayReport
unfolding run check_chain check_artifacts verify_prefix_core normalized_digest verify_captured
    verify_materialized verify_candidates verify_prefix report_of replay verdict_beq
    referenced_artifacts same_target push_unique collect_unique
replayed es = replay toy json store es

abbrev report : ReplayReport
report = state_from (report_of toy json store Verdict.error [] 0 first []) (replayed events)

events_replayed : replay toy json store events ≡ ok report
unfolding replayed
events_replayed = refl

report_verdict : report.verdict ≡ Verdict.pass
unfolding replayed
report_verdict = refl

events_verified : verify_prefix_core toy store events ≡ ok (final, 4)
unfolding replayed
events_verified = refl

verify_prefix_core-IsProven_example :
    All (λ e. All (IsProven toy store) (referenced_artifacts e.kind)) events
verify_prefix_core-IsProven_example = verify_prefix_core-IsProven toy store events events_verified

replay-no_false_green_example :
    ((c : RunContract) × IsDischargedBy events c)
    × All (λ e. All (IsProven toy store) (referenced_artifacts e.kind)) events
replay-no_false_green_example =
    replay-no_false_green toy json store events events_replayed report_verdict

replay-report_example :
    (t : RunState) × (reduce_all toy events ≡ ok t)
    × (t.verdict ≡ some report.verdict)
    × (report.events_verified ≡ length events)
    × (report.artifacts_verified ≡ length (collect_unique [] events))
    × (report.final_event_digest ≡ t.last_event_digest)
    × (normalized_digest toy json t ≡ some report.normalized_state_digest)
replay-report_example = replay-report toy json store events events_replayed

classify_record-replay_example : classify_record toy json store events ≡ (
    if is_nil events
    then RecordVerdict.no_canonical_stream
    else as_record (replay toy json store events))
classify_record-replay_example = classify_record-replay toy json store events

replay_verify_iff_example :
    (replay_verify toy json store events Verdict.pass ≡ ok report)
    ↔ ((replay toy json store events ≡ ok report) × (report.verdict ≡ Verdict.pass))
replay_verify_iff_example = replay_verify_iff toy json store events Verdict.pass report

-- A locator below a directory, and a digest.
abbrev nested : Text
nested = b'l' ∷ b'/' ∷ b'.' ∷ b'/' ∷ b'a' ∷ []

nested-confined : confined nested ≡ true
unfolding confined components first_components later_components split_slash all_normal is_normal
    text_beq
nested-confined = refl

confined_iff_example :
    (confined nested ≡ true)
    ↔ (StartsWithName (split_slash nested) × HasNoParent (split_slash nested))
confined_iff_example = confined_iff nested

confined-below_example :
    (name : Text) × (names : List Text) × (walk (fmt_gate ∷ []) (components nested)
      ≡ fmt_gate ∷ [] ++ name ∷ names)
    × (length (name ∷ names) ≡ length (components nested))
confined-below_example = confined-below (fmt_gate ∷ []) nested nested-confined

of_bytes-canonical_example : parse (of_bytes toy nested) ≡ ok (of_bytes toy nested)
of_bytes-canonical_example = of_bytes-canonical toy nested

-- ===== src/Run/Replay.antt =====
-- crates/o7-run/src/replay.rs: independent replay of a stored run.
pub mod Content
pub mod Judged
pub mod Reports
pub mod Candidates
use model_lib.Prelude.{
  ℕ, Bool, true, false, not, ◌&&◌, ◌||◌, Option, none, some, List, [], ◌∷◌, ◌++◌, Bytes, Text,
  text_eq, nat_eq, ◌==◌, Eq, is_some, last?, length, if◌then◌else◌, Result, ok, err, reject,
  map_err, ◌>>=◌, ◌>>◌,
}
use model_lib.Run.Ids.{Digest256, Sha256, of_bytes, genesis}
use model_lib.Run.Contract.{ArtifactRef, RunContract}
use model_lib.Run.Event.{RunEvent, RunEventKind}
use model_lib.Run.Encoding.{digest_is_consistent}
use model_lib.Run.State.{Verdict, RunState}
use model_lib.Run.Errors.{ReduceError}
use model_lib.Run.Reduce.{is_run_started, reduce_all}
use model_lib.Run.Artifacts.{ArtifactError, ArtifactResolver, collect_unique}
use model_lib.Run.Candidate.{
  Json, CandidateVerifyError, verify_candidate_state_captured, verify_candidate_state_materialized,
}

pub data Replayability : Type 0 where
  legacy_non_replayable canonical_replayable canonical_malformed : Replayability

unfoldable pub classify : List RunEvent → Replayability
classify [] = Replayability.legacy_non_replayable
classify (first ∷ rest) =
    if is_run_started first.kind && first.sequence == 0 && first.previous_event_digest == genesis
    then Replayability.canonical_replayable
    else Replayability.canonical_malformed

pub record ReplayReport : Type 0 where
  pub verdict : Verdict
  pub events_verified : ℕ
  pub artifacts_verified : ℕ
  pub final_event_digest : Digest256
  pub normalized_state_digest : Digest256

pub data ReplayError : Type 0 where
  reduce : ReduceError → ReplayError
  chain_broken event_digest_mismatch : ℕ → ReplayError
  artifact_unresolved : ArtifactError → ReplayError
  artifact_digest_mismatch : Text → ReplayError
  not_sealed : ReplayError
  verdict_mismatch : Verdict → Verdict → ReplayError
  legacy_non_replayable state_digest_unavailable : ReplayError
  candidate_semantic : CandidateVerifyError → ReplayError

pub data RecordVerdict : Type 0 where
  no_canonical_stream valid_unsealed : RecordVerdict
  valid_sealed : ReplayReport → RecordVerdict
  invalid : ReplayError → RecordVerdict

-- `b"o7-run-state\0v1\0"`
abbrev pub state_domain : Bytes
state_domain =
    b'o' ∷ b'7' ∷ b'-' ∷ b'r' ∷ b'u' ∷ b'n' ∷ b'-' ∷ b's' ∷ b't' ∷ b'a' ∷ b't' ∷ b'e' ∷ 0 ∷ b'v'
    ∷ b'1' ∷ 0 ∷ []

unfoldable pub verdict_beq : Verdict → Verdict → Bool
verdict_beq Verdict.pass Verdict.pass = true
verdict_beq Verdict.fail Verdict.fail = true
verdict_beq Verdict.blocked Verdict.blocked = true
verdict_beq Verdict.error Verdict.error = true
verdict_beq _ _ = false

abbrev pub is_nil {ℓ} : {A : Type ℓ} → List A → Bool
is_nil [] = true
is_nil (x ∷ xs) = false

-- `ok_or`, and `let Some(..) = .. else { return Err(..) }`.
abbrev pub some_or {ℓ} : {A : Type ℓ} → Option A → ReplayError → Result ReplayError A
some_or none e = err e
some_or (some a) e = ok a

module _ (sha : Sha256) where
  -- The loop over digests and links; `prev` starts at the genesis digest.
  unfoldable pub check_chain : Digest256 → List RunEvent → Result ReplayError (Unit {0})
  check_chain prev [] = ok tt
  check_chain prev (e ∷ es) = do
    reject (not (digest_is_consistent sha e)) (ReplayError.event_digest_mismatch e.sequence)
    reject (not (e.previous_event_digest == prev)) (ReplayError.chain_broken e.sequence)
    check_chain e.event_digest es

  module _ (artifacts : ArtifactResolver) where
    unfoldable pub check_artifacts : List ArtifactRef → Result ReplayError (Unit {0})
    check_artifacts [] = ok tt
    check_artifacts (a ∷ more) = do
      bytes ← map_err ReplayError.artifact_unresolved (artifacts a)
      reject (not (of_bytes sha bytes == a.digest)) (ReplayError.artifact_digest_mismatch a.locator)
      check_artifacts more

    unfoldable pub verify_prefix_core : List RunEvent → Result ReplayError (RunState × ℕ)
    verify_prefix_core events = do
      reject (is_nil events) ReplayError.legacy_non_replayable
      check_chain genesis events
      state ← map_err ReplayError.reduce (reduce_all sha events)
      let unique = collect_unique [] events
      check_artifacts unique
      ok (state, length unique)

  -- `RunState::normalized_digest`.
  unfoldable pub normalized_digest : Json → RunState → Option Digest256
  normalized_digest json state = elim (json.write_state state) [
    | none ↦ none
    | some bytes ↦ some (of_bytes sha (state_domain ++ bytes))
  ]

module _ (sha : Sha256) (json : Json) (artifacts : ArtifactResolver) where
  unfoldable pub verify_captured : RunState → RunContract → Result ReplayError (Unit {0})
  verify_captured state contract =
      if is_some state.candidate_state
      then map_err ReplayError.candidate_semantic
          (verify_candidate_state_captured sha json artifacts state contract >>= λ _. ok tt)
      else ok tt

  unfoldable pub verify_materialized : RunState → RunContract → Result ReplayError (Unit {0})
  verify_materialized state contract =
      if is_some state.candidate_materialized
      then map_err ReplayError.candidate_semantic
          (verify_candidate_state_materialized sha json artifacts state contract >>= λ _. ok tt)
      else ok tt

  unfoldable pub verify_candidates : RunState → Result ReplayError (Unit {0})
  verify_candidates state =
      if is_some state.candidate_state || is_some state.candidate_materialized
      then (some_or state.contract (ReplayError.candidate_semantic CandidateVerifyError.no_contract)
          >>= λ contract. verify_captured state contract >> verify_materialized state contract)
      else ok tt

  unfoldable pub verify_prefix : List RunEvent → Result ReplayError (RunState × ℕ)
  verify_prefix events = do
    (state, artifacts_verified) ← verify_prefix_core sha artifacts events
    verify_candidates state
    ok (state, artifacts_verified)

  unfoldable pub report_of : Verdict → List RunEvent → ℕ → RunEvent → Digest256 → ReplayReport
  report_of verdict events artifacts_verified last digest = record {
    verdict = verdict;
    events_verified = length events;
    artifacts_verified = artifacts_verified;
    final_event_digest = last.event_digest;
    normalized_state_digest = digest;
  }

  unfoldable pub classify_state : List RunEvent → RunState → ℕ → Verdict → RecordVerdict
  classify_state events state artifacts_verified verdict = elim (last? events) [
    | none ↦ RecordVerdict.invalid ReplayError.legacy_non_replayable
    | some last ↦ elim (normalized_digest sha json state) [
      | none ↦ RecordVerdict.invalid ReplayError.state_digest_unavailable
      | some digest ↦
          RecordVerdict.valid_sealed (report_of verdict events artifacts_verified last digest)
    ]
  ]

  unfoldable pub classify_prefix : List RunEvent → Result ReplayError (RunState × ℕ) → RecordVerdict
  classify_prefix events (err e) = RecordVerdict.invalid e
  classify_prefix events (ok (state, artifacts_verified)) = elim state.verdict [
    | none ↦ RecordVerdict.valid_unsealed
    | some verdict ↦ classify_state events state artifacts_verified verdict
  ]

  unfoldable pub classify_record : List RunEvent → RecordVerdict
  classify_record events =
      if is_nil events
      then RecordVerdict.no_canonical_stream
      else classify_prefix events (verify_prefix events)

  unfoldable pub replay : List RunEvent → Result ReplayError ReplayReport
  replay events = do
    (state, artifacts_verified) ← verify_prefix events
    verdict ← some_or state.verdict ReplayError.not_sealed
    last ← some_or (last? events) ReplayError.legacy_non_replayable
    digest ← some_or (normalized_digest sha json state) ReplayError.state_digest_unavailable
    ok (report_of verdict events artifacts_verified last digest)

  unfoldable pub replay_verify : List RunEvent → Verdict → Result ReplayError ReplayReport
  replay_verify events stored = do
    report ← replay events
    reject (not (verdict_beq report.verdict stored))
        (ReplayError.verdict_mismatch report.verdict stored)
    ok report

-- ===== src/Verifier/Evidence.antt =====
-- crates/o7-verifier/src/evidence.rs: what a run of a verifier was seen to do.
use model_lib.Prelude.{ℕ, Bool, false, Option, Bytes, Text}
use model_lib.Verifier.Command.{CanonicalRepoId, TrustedCommand, is_success}
use model_lib.Verifier.Trust.{ExecutableIdentity, CommandDigest}

pub data AttestedEnforcement : Type 0 where
  unenforced partly fully_enforced : AttestedEnforcement

pub data VerifierOutcome : Type 0 where
  completed signalled : ℕ → VerifierOutcome
  timed_out : VerifierOutcome
  not_run spawn_failed output_lost boundary_unavailable faulted : Text → VerifierOutcome

pub record VerifierEvidence : Type 0 where
  pub outcome : VerifierOutcome
  pub trusted : Bool
  pub boundary_enforcement : Option AttestedEnforcement
  pub repo : CanonicalRepoId
  pub command : TrustedCommand
  pub executable_identity : Option ExecutableIdentity
  pub trust_digest : Option CommandDigest
  pub structural_digest : CommandDigest
  pub stdout : Bytes
  pub stderr : Bytes

unfoldable pub is_pass_candidate : VerifierEvidence → Bool
unfolding is_success
is_pass_candidate e = elim e.outcome [
  | VerifierOutcome.completed code ↦ is_success e.command code
  | _ ↦ false
]

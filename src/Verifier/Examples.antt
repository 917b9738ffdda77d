-- ===== src/Verifier/Examples.antt =====
-- Concrete evidence, of a run that exited with 0 under full enforcement.
use model_lib.Prelude.{
  ℕ, ◌≡◌, refl, ◌↔◌, true, some, [], ◌∷◌, length, All, arith, zero, suc, Bytes, text_eq,
}
use model_lib.Run.Ids.{Sha256, IsByte}
use model_lib.Verifier.Command.{RequiredBoundary, CwdPolicy, TrustedCommand, CanonicalRepoId}
use model_lib.Verifier.Trust.{command_digest}
use model_lib.Verifier.Evidence.{AttestedEnforcement, VerifierOutcome, VerifierEvidence}
use model_lib.Verifier.Verdicts.{Adjudication, adjudicate, IsAccepted, adjudicate-accepted_iff}

ones : ℕ → Bytes
ones zero = []
ones (suc n) = 1 ∷ ones n

length-ones : (n : ℕ) → length (ones n) ≡ n
unfolding ones
length-ones zero = refl
length-ones (suc n) = omega (arith, length-ones n)

ones-IsByte : (n : ℕ) → All IsByte (ones n)
unfolding ones
ones-IsByte zero = tt
ones-IsByte (suc n) = (omega arith, ones-IsByte n)

abbrev constant_hash : Sha256
constant_hash = record {
  finalize = λ m. ones 32;
  finalize_length = λ m. length-ones 32;
  finalize_bytes = λ m. ones-IsByte 32;
}

abbrev checked : TrustedCommand
checked = record {
  executable = b'/' ∷ [];
  arguments = [];
  cwd_policy = CwdPolicy.worktree_root;
  environment = [];
  timeout = 1000;
  max_total_bytes = 10;
  success_codes = 0 ∷ [];
  boundary_requirement = RequiredBoundary.require_fully_enforced;
}

abbrev checkout : CanonicalRepoId
checkout = record { git_common_dir = b'/' ∷ []; dev = 1; ino = 2 }

abbrev observed : VerifierEvidence
observed = record {
  outcome = VerifierOutcome.completed 0;
  trusted = true;
  boundary_enforcement = some AttestedEnforcement.fully_enforced;
  repo = checkout;
  command = checked;
  executable_identity = some [];
  trust_digest = some (command_digest constant_hash checkout checked []);
  structural_digest = [];
  stdout = [];
  stderr = [];
}

adjudicate-accepted_iff_example :
    (adjudicate constant_hash observed (command_digest constant_hash checkout checked [] ∷ [])
      ≡ Adjudication.accepted)
    ↔ IsAccepted constant_hash observed (command_digest constant_hash checkout checked [] ∷ [])
adjudicate-accepted_iff_example =
    adjudicate-accepted_iff constant_hash observed
      (command_digest constant_hash checkout checked [] ∷ [])

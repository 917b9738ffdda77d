-- ===== src/Verifier/Trust.antt =====
-- crates/o7-verifier/src/trust.rs: the digest that binds a command, and the store of trusted ones.
use model_lib.Prelude.{
  ℕ, Bool, not, List, [], ◌∷◌, ◌++◌, Bytes, Text, codes, text_eq, ◌==◌, length, contains, filter,
  set_insert, text_ord,
}
use model_lib.Run.Ids.{Sha256, of_bytes}
use model_lib.Run.Encoding.{le_bytes}
use model_lib.Verifier.Command.{CanonicalRepoId, RequiredBoundary, CwdPolicy, TrustedCommand}

abbrev pub ExecutableIdentity : Type 0
ExecutableIdentity = Text

abbrev pub CommandDigest : Type 0
CommandDigest = Text

unfoldable pub framed : Bytes → Bytes
unfolding le_bytes
framed bytes = le_bytes 8 (length bytes) ++ bytes

unfoldable pub framed_all : List Bytes → Bytes
unfolding framed
framed_all [] = []
framed_all (b ∷ bs) = framed b ++ framed_all bs

unfoldable pub framed_environment : List (Bytes × Bytes) → Bytes
unfolding framed
framed_environment [] = []
framed_environment (entry ∷ rest) = framed entry.0 ++ (framed entry.1 ++ framed_environment rest)

unfoldable pub framed_codes : List ℕ → Bytes
unfolding framed le_bytes
framed_codes [] = []
framed_codes (c ∷ cs) = framed (le_bytes 4 c) ++ framed_codes cs

unfoldable pub framed_cwd : CwdPolicy → Bytes
unfolding framed codes
framed_cwd CwdPolicy.worktree_root = framed (codes "worktree-root")
framed_cwd (CwdPolicy.absolute path) = framed (codes "absolute") ++ framed path

unfoldable pub framed_boundary : RequiredBoundary → Bytes
unfolding framed codes
framed_boundary RequiredBoundary.allow_unconfined = framed (codes "boundary:allow-unconfined")
framed_boundary RequiredBoundary.require_fully_enforced =
    framed (codes "boundary:require-fully-enforced")

unfoldable pub fold_structural : CanonicalRepoId → TrustedCommand → Bytes
unfolding framed framed_all framed_environment framed_codes framed_cwd framed_boundary le_bytes
fold_structural repo c =
    framed repo.git_common_dir
    ++ (framed (le_bytes 8 repo.dev)
        ++ (framed (le_bytes 8 repo.ino)
            ++ (framed c.executable
                ++ (framed (le_bytes 8 (length c.arguments))
                    ++ (framed_all c.arguments
                        ++ (framed_cwd c.cwd_policy
                            ++ (framed (le_bytes 8 (length c.environment))
                                ++ (framed_environment c.environment
                                    ++ (framed (le_bytes 8 (length c.success_codes))
                                        ++ (framed_codes c.success_codes
                                            ++ (framed (le_bytes 16 c.timeout)
                                                ++ (framed (le_bytes 8 c.max_total_bytes)
                                                    ++ framed_boundary
                                                        c.boundary_requirement))))))))))))

module _ (sha : Sha256) where
  -- `ExecutableIdentity::of_bytes`
  unfoldable pub identity_of_bytes : Bytes → ExecutableIdentity
  unfolding codes
  identity_of_bytes bytes =
      of_bytes sha (codes "o7-verifier-exe" ++ (0 ∷ (codes "v1" ++ (0 ∷ bytes))))

  unfoldable pub structural_command_digest : CanonicalRepoId → TrustedCommand → CommandDigest
  unfolding codes fold_structural
  structural_command_digest repo c =
      of_bytes sha (
        codes "o7-verifier-command-structural"
        ++ (0 ∷ (codes "v2" ++ (0 ∷ fold_structural repo c))))

  unfoldable pub command_digest :
      CanonicalRepoId → TrustedCommand → ExecutableIdentity → CommandDigest
  unfolding codes fold_structural framed
  command_digest repo c identity = of_bytes sha (
      codes "o7-verifier-command"
      ++ (0 ∷ (codes "v2" ++ (0 ∷ (fold_structural repo c ++ framed identity)))))

-- The store is the set of the digests that are trusted.
abbrev pub TrustStore : Type 0
TrustStore = List CommandDigest

unfoldable pub is_trusted : CommandDigest → TrustStore → Bool
is_trusted digest store = contains store digest

unfoldable pub trust : CommandDigest → TrustStore → TrustStore
unfolding set_insert
trust digest store = set_insert digest store

unfoldable pub revoke : CommandDigest → TrustStore → TrustStore
unfolding filter
revoke digest store = filter (λ d. not (d == digest)) store

-- ===== src/Verifier/Command.antt =====
-- crates/o7-verifier/src/command.rs, and the repository identity of crates/o7-worktree/src/identity.rs
-- that a command is bound to. A path is its bytes, an exit code its bit pattern, a duration is in
-- nanoseconds; a `BTreeSet` or a `BTreeMap` is a list in the order of its keys.
use model_lib.Prelude.{
  ℕ, ◌*◌, Bool, true, false, not, ◌||◌, List, [], ◌∷◌, Bytes, nat_eq, ◌==◌, ltb, contains, Result,
  ok, reject, ◌>>◌,
}

pub record CanonicalRepoId : Type 0 where
  pub git_common_dir : Bytes
  pub dev : ℕ
  pub ino : ℕ

pub data RequiredBoundary : Type 0 where
  allow_unconfined require_fully_enforced : RequiredBoundary

abbrev pub max_timeout : ℕ
max_timeout = 3600 * 1000000000

abbrev pub max_output_bytes : ℕ
max_output_bytes = 64 * 1024 * 1024

pub data CwdPolicy : Type 0 where
  worktree_root : CwdPolicy
  absolute : Bytes → CwdPolicy

pub record TrustedCommand : Type 0 where
  pub executable : Bytes
  pub arguments : List Bytes
  pub cwd_policy : CwdPolicy
  pub environment : List (Bytes × Bytes)
  pub timeout : ℕ
  pub max_total_bytes : ℕ
  pub success_codes : List ℕ
  pub boundary_requirement : RequiredBoundary

-- `ExitPolicy::is_success`
unfoldable pub is_success : TrustedCommand → ℕ → Bool
unfolding contains
is_success command code = contains command.success_codes code

pub data CommandError : Type 0 where
  relative_executable relative_cwd : Bytes → CommandError
  bad_timeout output_budget : ℕ → CommandError
  empty_exit_policy : CommandError

-- `Path::is_absolute`, on Unix.
unfoldable pub is_absolute : Bytes → Bool
is_absolute [] = false
is_absolute (b ∷ bs) = b == b'/'

unfoldable pub validate_cwd : CwdPolicy → Result CommandError (Unit {0})
unfolding is_absolute
validate_cwd CwdPolicy.worktree_root = ok tt
validate_cwd (CwdPolicy.absolute path) =
    reject (not (is_absolute path)) (CommandError.relative_cwd path)

unfoldable pub has_no_codes : List ℕ → Bool
has_no_codes [] = true
has_no_codes (c ∷ cs) = false

unfoldable pub validate_command : TrustedCommand → Result CommandError (Unit {0})
unfolding validate_cwd has_no_codes
validate_command c = do
  reject (not (is_absolute c.executable)) (CommandError.relative_executable c.executable)
  validate_cwd c.cwd_policy
  reject (c.timeout == 0 || ltb max_timeout c.timeout) (CommandError.bad_timeout c.timeout)
  reject (c.max_total_bytes == 0 || ltb max_output_bytes c.max_total_bytes)
      (CommandError.output_budget c.max_total_bytes)
  reject (has_no_codes c.success_codes) CommandError.empty_exit_policy

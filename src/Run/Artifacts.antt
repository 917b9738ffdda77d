-- ===== src/Run/Artifacts.antt =====
-- crates/o7-run/src/replay.rs: artifact resolution, the confinement of locators to a record's
-- directory, and the artifacts that an event refers to.
pub mod Confinement
use model_lib.Prelude.{
  ℕ, Bool, true, false, not, ◌&&◌, ◌||◌, Option, none, some, List, [], ◌∷◌, ◌++◌, map, Bytes, Text,
  text_eq, ◌==◌, nat_eq, Eq, is_empty, any, if◌then◌else◌, Result, ok, err, map_err,
}
use model_lib.Run.Ids.{Digest256}
use model_lib.Run.Contract.{ArtifactRef}
use model_lib.Run.Event.{RunEventKind, RunEvent}

-- A resolver's reason is a text of its own or the operating system's.
pub record ArtifactError : Type 0 where
  pub locator : Text
  pub reason : Text

-- The trait `ArtifactResolver`: the current bytes of an artifact.
abbrev pub ArtifactResolver : Type 0
ArtifactResolver = ArtifactRef → Result ArtifactError Bytes

-- `std::path::Component` on Unix.
pub data Component : Type 0 where
  root_dir cur_dir parent_dir : Component
  normal : Text → Component

-- The segments between the slashes of a path.
unfoldable pub split_slash : Text → List Text
split_slash [] = [] ∷ []
split_slash (b ∷ bs) =
    let rest = split_slash bs in
    if b == b'/' then [] ∷ rest else elim rest [ [] ↦ (b ∷ []) ∷ [] | s ∷ ss ↦ (b ∷ s) ∷ ss ]

abbrev pub dot : Text
dot = b'.' ∷ []

abbrev pub dot_dot : Text
dot_dot = b'.' ∷ b'.' ∷ []

-- A segment that is not the first: an empty one and a `.` are skipped.
unfoldable pub later_components : List Text → List Component
later_components [] = []
later_components (s ∷ ss) =
    let rest = later_components ss in
    if is_empty s || s == dot
    then rest
    else if s == dot_dot
    then Component.parent_dir ∷ rest
    else Component.normal s ∷ rest

-- The first segment: empty before a leading slash, and a `.` counts.
unfoldable pub first_components : List Text → List Component
first_components [] = []
first_components (s ∷ []) = if s == dot then Component.cur_dir ∷ [] else later_components (s ∷ [])
first_components (s ∷ t ∷ ts) =
    if is_empty s
    then Component.root_dir ∷ later_components (t ∷ ts)
    else if s == dot
    then Component.cur_dir ∷ later_components (t ∷ ts)
    else later_components (s ∷ t ∷ ts)

-- `Path::new(locator).components()`
unfoldable pub components : Text → List Component
components path = first_components (split_slash path)

unfoldable pub is_normal : Component → Bool
is_normal (Component.normal s) = true
is_normal Component.root_dir = false
is_normal Component.cur_dir = false
is_normal Component.parent_dir = false

unfoldable pub all_normal : List Component → Bool
all_normal [] = true
all_normal (c ∷ cs) = is_normal c && all_normal cs

unfoldable pub confined : Text → Bool
confined locator = not (is_empty locator) && all_normal (components locator)

-- `RecordDirResolver::resolve`. Reading a file below the record's directory is the operating
-- system's: `read` is the content at a locator, or the reason that it cannot be read.
unfoldable pub resolve_in_record : Text → (Text → Result Text Bytes) → ArtifactResolver
resolve_in_record refused read a =
    if confined a.locator
    then map_err (λ reason. record { locator = a.locator; reason = reason }) (read a.locator)
    else err (record { locator = a.locator; reason = refused })

unfoldable pub referenced_artifacts : RunEventKind → List ArtifactRef
referenced_artifacts (RunEventKind.run_started contract task) =
    task ∷ map (λ p. p.policy) contract.policy_obligations
referenced_artifacts (RunEventKind.worktree_created worktree) = worktree ∷ []
referenced_artifacts (RunEventKind.patch_captured patch) = patch ∷ []
referenced_artifacts (RunEventKind.policy_checked policy outcome) = policy ∷ []
referenced_artifacts (RunEventKind.gate_finished gate outcome (some log)) = log ∷ []
referenced_artifacts (RunEventKind.gate_finished gate outcome none) = []
referenced_artifacts (RunEventKind.sandbox_evidence_captured subject digest report outcome) =
    report ∷ []
referenced_artifacts (RunEventKind.provider_session_captured receipt) = receipt ∷ []
referenced_artifacts (RunEventKind.command_binding_captured binding) = binding ∷ []
referenced_artifacts (RunEventKind.candidate_state_captured receipt) = receipt ∷ []
referenced_artifacts (RunEventKind.candidate_state_materialized run receipt patch oid) =
    receipt ∷ patch ∷ []
referenced_artifacts RunEventKind.agent_started = []
referenced_artifacts (RunEventKind.agent_exited outcome) = []
referenced_artifacts (RunEventKind.gate_started gate) = []
referenced_artifacts RunEventKind.run_sealed = []

unfoldable pub same_target : ArtifactRef → ArtifactRef → Bool
same_target a b = a.locator == b.locator && a.digest == b.digest

-- `seen` holds the locator and digest of just what was pushed to `unique`.
unfoldable pub push_unique : List ArtifactRef → List ArtifactRef → List ArtifactRef
push_unique unique [] = unique
push_unique unique (a ∷ more) =
    push_unique (if any (same_target a) unique then unique else unique ++ a ∷ []) more

unfoldable pub collect_unique : List ArtifactRef → List RunEvent → List ArtifactRef
collect_unique unique [] = unique
collect_unique unique (e ∷ es) =
    collect_unique (push_unique unique (referenced_artifacts e.kind)) es

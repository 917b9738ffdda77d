-- ===== src/Run/Replay/Judged.antt =====
-- Verifying a prefix never fails for want of a seal (crates/o7-run/src/replay.rs): just `replay`
-- itself asks for one.
use model_lib.Prelude.{
  Bool, true, false, not, ◌||◌, Option, none, some, List, [], ◌∷◌, is_some, if◌then◌else◌, text_eq,
  ◌==◌, Result, ok, err, reject, map_err, ◌>>=◌, ◌>>◌,
}
use model_lib.Run.Ids.{Digest256, Sha256, of_bytes, genesis}
use model_lib.Run.Encoding.{digest_is_consistent}
use model_lib.Run.Contract.{ArtifactRef, RunContract}
use model_lib.Run.Event.{RunEvent}
use model_lib.Run.State.{RunState}
use model_lib.Run.Reduce.{reduce_all}
use model_lib.Run.Artifacts.{ArtifactResolver, collect_unique}
use model_lib.Run.Candidate.{Json}
use model_lib.Run.Replay.{
  ReplayError, is_nil, some_or, check_chain, check_artifacts, verify_prefix_core, verify_captured,
  verify_materialized, verify_candidates, verify_prefix,
}

-- An error other than the one for a run that is not sealed.
abbrev pub IsOther : ReplayError → Type 0
IsOther ReplayError.not_sealed = ⊥
IsOther _ = Unit

-- A result that, if it fails, fails for another reason than a missing seal.
pub data Judged {ℓ} {A : Type ℓ} : Result ReplayError A → Type ℓ where
  returned : (a : A) → Judged (ok a)
  failed : (e : ReplayError) → IsOther e → Judged (err e)

Judged->>= {ℓ κ} :
    {A : Type ℓ} {B : Type κ} (m : Result ReplayError A) (f : A → Result ReplayError B)
    → Judged m
    → ((a : A) → Judged (f a))
    → Judged (m >>= f)
Judged->>= (ok a) f h k = k a
Judged->>= (err e) f (Judged.failed _ h) k = Judged.failed e h

Judged->> {ℓ} :
    {B : Type ℓ} (m : Result ReplayError (Unit {0})) (k : Result ReplayError B)
    → Judged m
    → Judged k
    → Judged (m >> k)
Judged->> (ok tt) k h j = j
Judged->> (err e) k (Judged.failed _ h) j = Judged.failed e h

Judged-reject : (b : Bool) (e : ReplayError) → IsOther e → Judged (reject b e)
Judged-reject true e h = Judged.failed e h
Judged-reject false e h = Judged.returned tt

Judged-map_err {ℓ} :
    {A : Type ℓ} {E : Type 0} (f : E → ReplayError) (r : Result E A)
    → ((e : E) → IsOther (f e))
    → Judged (map_err f r)
Judged-map_err f (ok a) h = Judged.returned a
Judged-map_err f (err e) h = Judged.failed (f e) (h e)

Judged-if :
    (b : Bool) (r : Result ReplayError (Unit {0})) → Judged r → Judged (if b then r else ok tt)
Judged-if true r h = h
Judged-if false r h = Judged.returned tt

module _ (sha : Sha256) (artifacts : ArtifactResolver) where
  check_chain-Judged : (prev : Digest256) (es : List RunEvent) → Judged (check_chain sha prev es)
  unfolding check_chain
  check_chain-Judged prev [] = Judged.returned tt
  check_chain-Judged prev (e ∷ es) =
      Judged->> _ _
        (Judged-reject (not (digest_is_consistent sha e))
          (ReplayError.event_digest_mismatch e.sequence) tt)
        (Judged->> _ _
          (Judged-reject (not (e.previous_event_digest == prev))
            (ReplayError.chain_broken e.sequence) tt)
          (check_chain-Judged e.event_digest es))

  check_artifacts-Judged : (us : List ArtifactRef) → Judged (check_artifacts sha artifacts us)
  unfolding check_artifacts
  check_artifacts-Judged [] = Judged.returned tt
  check_artifacts-Judged (u ∷ us) =
      Judged->>= (map_err ReplayError.artifact_unresolved (artifacts u)) _
        (Judged-map_err _ (artifacts u) (λ e. tt))
        λ bytes.
          Judged->> _ _
            (Judged-reject (not (of_bytes sha bytes == u.digest))
              (ReplayError.artifact_digest_mismatch u.locator) tt)
            (check_artifacts-Judged us)

  verify_prefix_core-Judged : (es : List RunEvent) → Judged (verify_prefix_core sha artifacts es)
  unfolding verify_prefix_core
  verify_prefix_core-Judged es =
      Judged->> _ _ (Judged-reject (is_nil es) ReplayError.legacy_non_replayable tt) (
        Judged->> _ _ (check_chain-Judged genesis es) (
          Judged->>= (map_err ReplayError.reduce (reduce_all sha es)) _
            (Judged-map_err _ (reduce_all sha es) (λ e. tt))
            λ s. Judged->> _ _ (check_artifacts-Judged (collect_unique [] es)) (Judged.returned _)))

module _ (sha : Sha256) (json : Json) (artifacts : ArtifactResolver) where
  verify_captured-Judged :
      (s : RunState) (c : RunContract) → Judged (verify_captured sha json artifacts s c)
  unfolding verify_captured
  verify_captured-Judged s c =
      Judged-if (is_some s.candidate_state) _ (Judged-map_err _ _ (λ e. tt))

  verify_materialized-Judged :
      (s : RunState) (c : RunContract) → Judged (verify_materialized sha json artifacts s c)
  unfolding verify_materialized
  verify_materialized-Judged s c =
      Judged-if (is_some s.candidate_materialized) _ (Judged-map_err _ _ (λ e. tt))

  some_or-Judged : {A : Type 0} (o : Option A) (e : ReplayError) → IsOther e → Judged (some_or o e)
  some_or-Judged none e h = Judged.failed e h
  some_or-Judged (some a) e h = Judged.returned a

  verify_candidates-Judged : (s : RunState) → Judged (verify_candidates sha json artifacts s)
  unfolding verify_candidates
  verify_candidates-Judged s =
      Judged-if (is_some s.candidate_state || is_some s.candidate_materialized) _ (
        Judged->>= (some_or s.contract _) _ (some_or-Judged s.contract _ tt)
          λ c. Judged->> _ _ (verify_captured-Judged s c) (verify_materialized-Judged s c))

  pub verify_prefix-Judged : (es : List RunEvent) → Judged (verify_prefix sha json artifacts es)
  unfolding verify_prefix
  verify_prefix-Judged es =
      Judged->>= (verify_prefix_core sha artifacts es) _
        (verify_prefix_core-Judged sha artifacts es)
        λ (s, n). Judged->> _ _ (verify_candidates-Judged s) (Judged.returned _)

-- ===== src/Run/Replay/Content.antt =====
-- Replay proves the content of every artifact that a stream refers to
-- (crates/o7-run/src/replay.rs, `verify_prefix_core`).
use model_lib.Prelude.{
  ℕ, Bool, true, false, not, List, [], ◌∷◌, ◌++◌, Bytes, All, Any, All-impl, any, length,
  if◌then◌else◌, text_eq, text_beq_iff, Result, ok, err, ok_injective, map_err, >>=-eq-ok, >>-eq-ok,
  reject->>-eq-ok, ◌≡◌, ◌⊎◌, inl, inr, refl, sym, ap, ◌∙◌, arith, Bool-cases,
}
use model_lib.Run.Ids.{Sha256, of_bytes, genesis}
use model_lib.Run.Contract.{ArtifactRef}
use model_lib.Run.Event.{RunEvent}
use model_lib.Run.State.{RunState}
use model_lib.Run.Errors.{ReduceError}
use model_lib.Run.Reduce.{reduce_all}
use model_lib.Run.Artifacts.{
  ArtifactError, ArtifactResolver, referenced_artifacts, same_target, push_unique, collect_unique,
}
use model_lib.Run.Replay.{ReplayError, check_chain, check_artifacts, verify_prefix_core}

-- An artifact of the list stands at the same locator, with the same digest.
abbrev Covers : List ArtifactRef → ArtifactRef → Type 0
Covers us a = Any (λ u. (u.locator ≡ a.locator) × (u.digest ≡ a.digest)) us

-- The bytes at the artifact's locator are resolved, and their hash is the digest.
abbrev pub IsProven : Sha256 → ArtifactResolver → ArtifactRef → Type 0
IsProven sha artifacts a =
    (u : ArtifactRef) × (u.locator ≡ a.locator)
    × (bytes : Bytes) × (artifacts u ≡ ok bytes)
    × (of_bytes sha bytes ≡ a.digest)

same_target-Covers :
    (a : ArtifactRef) (us : List ArtifactRef) → any (same_target a) us ≡ true → Covers us a
unfolding any same_target
same_target-Covers a [] h = cc
same_target-Covers a (u ∷ us) h =
    let l = text_beq_iff a.locator u.locator in
    let d = text_beq_iff a.digest u.digest in ground (arith, l.0, d.0, same_target-Covers a us)

Covers-append :
    (us vs : List ArtifactRef) (a : ArtifactRef) → Covers us a ⊎ Covers vs a → Covers (us ++ vs) a
Covers-append [] vs a (inl h) = absurd h
Covers-append [] vs a (inr h) = h
Covers-append (u ∷ us) vs a (inl (inl h)) = inl h
Covers-append (u ∷ us) vs a (inl (inr h)) = inr (Covers-append us vs a (inl h))
Covers-append (u ∷ us) vs a (inr h) = inr (Covers-append us vs a (inr h))

-- One more reference, if its target is new.
abbrev add_unique : List ArtifactRef → ArtifactRef → List ArtifactRef
add_unique us a = if any (same_target a) us then us else us ++ a ∷ []

add_unique-keeps :
    (us : List ArtifactRef) (a b : ArtifactRef) → Covers us b → Covers (add_unique us a) b
add_unique-keeps us a b h = elim (Bool-cases (any (same_target a) us)) [
  | inl old ↦ rw old h
  | inr new ↦ rw new (Covers-append us (a ∷ []) b (inl h))
]

add_unique-Covers : (us : List ArtifactRef) (a : ArtifactRef) → Covers (add_unique us a) a
add_unique-Covers us a = elim (Bool-cases (any (same_target a) us)) [
  | inl old ↦ rw old (same_target-Covers a us old)
  | inr new ↦ rw new (Covers-append us (a ∷ []) a (inr (inl (refl, refl))))
]

push_unique-keeps :
    (us more : List ArtifactRef) (b : ArtifactRef) → Covers us b → Covers (push_unique us more) b
unfolding push_unique
push_unique-keeps us [] b h = h
push_unique-keeps us (a ∷ more) b h =
    push_unique-keeps (add_unique us a) more b (add_unique-keeps us a b h)

push_unique-Covers : (us more : List ArtifactRef) → All (Covers (push_unique us more)) more
unfolding push_unique
push_unique-Covers us [] = tt
push_unique-Covers us (a ∷ more) = (
  push_unique-keeps (add_unique us a) more a (add_unique-Covers us a),
  push_unique-Covers (add_unique us a) more,
)

collect_unique-keeps :
    (us : List ArtifactRef) (es : List RunEvent) (b : ArtifactRef)
    → Covers us b
    → Covers (collect_unique us es) b
unfolding collect_unique
collect_unique-keeps us [] b h = h
collect_unique-keeps us (e ∷ es) b h =
    collect_unique-keeps (push_unique us (referenced_artifacts e.kind)) es b
      (push_unique-keeps us (referenced_artifacts e.kind) b h)

collect_unique-Covers :
    (us : List ArtifactRef) (es : List RunEvent)
    → All (λ e. All (Covers (collect_unique us es)) (referenced_artifacts e.kind)) es
unfolding collect_unique
collect_unique-Covers us [] = tt
collect_unique-Covers us (e ∷ es) =
    let next = push_unique us (referenced_artifacts e.kind) in
    (
      All-impl (referenced_artifacts e.kind) (collect_unique-keeps next es)
          (push_unique-Covers us (referenced_artifacts e.kind)),
      collect_unique-Covers next es,
    )

module _ (sha : Sha256) (artifacts : ArtifactResolver) where
  check_artifacts-proves :
      (us : List ArtifactRef) (a : ArtifactRef)
      → check_artifacts sha artifacts us ≡ ok tt
      → Covers us a
      → IsProven sha artifacts a
  unfolding check_artifacts
  check_artifacts-proves (u ∷ us) a h c =
      let (bytes, r, h1) = >>=-eq-ok (map_err ReplayError.artifact_unresolved (artifacts u)) _ h in
      let (d, h2) = reject->>-eq-ok _ _ _ h1 in
      elim c [
        | inl (l, same) ↦ (
          u,
          l,
          bytes,
          resolved (artifacts u) bytes r,
          (text_beq_iff (of_bytes sha bytes) u.digest).0 (not-false _ d) ∙ same,
        )
        | inr later ↦ check_artifacts-proves us a h2 later
      ]
    where
      not-false : (b : Bool) → not b ≡ false → b ≡ true
      not-false true h = refl
      not-false false h = cc

      resolved :
          (r : Result ArtifactError Bytes) (bytes : Bytes)
          → map_err ReplayError.artifact_unresolved r ≡ ok bytes
          → r ≡ ok bytes
      resolved (ok x) bytes h = ap ok (ok_injective h)
      resolved (err e) bytes h = cc
  check_artifacts-proves [] a h c = absurd c

  -- The parts of a prefix that is verified.
  pub verify_prefix_core-parts :
      (es : List RunEvent) {t : RunState} {n : ℕ}
      → verify_prefix_core sha artifacts es ≡ ok (t, n)
      → (check_chain sha genesis es ≡ ok tt)
        × (reduce_all sha es ≡ ok t)
        × (check_artifacts sha artifacts (collect_unique [] es) ≡ ok tt)
        × (n ≡ length (collect_unique [] es))
  unfolding verify_prefix_core
  verify_prefix_core-parts es {t} {n} h =
      let (z, h1) = reject->>-eq-ok _ _ _ h in
      let (c, h2) = >>-eq-ok (check_chain sha genesis es) _ h1 in
      let (s, r, h3) = >>=-eq-ok (map_err ReplayError.reduce (reduce_all sha es)) _ h2 in
      let (a, h4) = >>-eq-ok (check_artifacts sha artifacts (collect_unique [] es)) _ h3 in
      let p = ok_injective h4 in
      (c, reduced (reduce_all sha es) r ∙ ap (λ x. ok x.0) p, a, sym (ap (λ x. x.1) p))
    where
      reduced :
          {s : RunState} (r : Result ReduceError RunState)
          → map_err ReplayError.reduce r ≡ ok s
          → r ≡ ok s
      reduced (ok x) h = ap ok (ok_injective h)
      reduced (err e) h = cc

  -- When the prefix of a record is verified, every artifact that one of its events refers to was
  -- resolved at its locator, and the resolved bytes hash to the digest that the event states.
  pub verify_prefix_core-IsProven :
      (es : List RunEvent) {t : RunState} {n : ℕ}
      → verify_prefix_core sha artifacts es ≡ ok (t, n)
      → All (λ e. All (IsProven sha artifacts) (referenced_artifacts e.kind)) es
  verify_prefix_core-IsProven es h =
      All-impl es
        (λ e.
          All-impl (referenced_artifacts e.kind) (λ a.
            check_artifacts-proves (collect_unique [] es) a (verify_prefix_core-parts es h).2))
        (collect_unique-Covers [] es)

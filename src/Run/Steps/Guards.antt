-- ===== src/Run/Steps/Guards.antt =====
-- The guards of the transition relation as propositions, and that the Boolean tests of
-- crates/o7-run/src/reduce.rs decide them.
use model_lib.Prelude.{
  ℕ, Bool, true, false, ◌&&◌, List, [], ◌∷◌, All, Any, any, find, text_eq, ◌==◌, text_beq_iff,
  is_empty, is_some, Result, ok, ◌>>◌, >>-eq-ok, ◌≡◌, ◌↔◌, inl, inr, refl, arith, any→Any, Any→any,
  Bool-cases,
}
use model_lib.Run.Ids.{GateId, Digest256}
use model_lib.Run.Contract.{
  ArtifactKind, ArtifactRef, PolicyOutcome, ExecutionSubject, PolicyRequirement,
  PolicyProtectedSubject, PolicyObligation, RunContract, artifact_kind_beq_iff,
  execution_subject_beq_iff, protected_subject_beq_iff, protected_subject_eq, execution_subject_eq,
}
use model_lib.Run.State.{RunState, PolicyResult, SandboxEvidenceKey, SandboxEvidenceEntry}
use model_lib.Run.Errors.{ReduceError}
use model_lib.Run.Admission.{
  gate_obligation, is_required_policy, is_allowed, validate_artifact, was_allowed, check_protectors,
}
use model_lib.Run.Handlers.{key_beq}

-- A reference has a locator and the kind that its slot asks for.
abbrev pub IsArtifact : ArtifactKind → ArtifactRef → Type 0
IsArtifact k a = (is_empty a.locator ≡ false) × (a.kind ≡ k)

abbrev pub IsDeclaredGate : RunContract → GateId → Type 0
IsDeclaredGate c g = Any (λ o. o.gate ≡ g) c.gate_obligations

abbrev pub IsDeclaredPolicy : RunContract → Digest256 → Type 0
IsDeclaredPolicy c d = Any (λ p. p.policy.digest ≡ d) c.policy_obligations

abbrev pub IsRequiredEvidence : RunContract → ExecutionSubject → Digest256 → Type 0
IsRequiredEvidence c x d = Any (λ r. (r.subject ≡ x) × (r.policy_digest ≡ d)) c.sandbox_requirements

abbrev pub IsChecked : List PolicyResult → Digest256 → Type 0
IsChecked rs d = Any (λ r. r.policy.digest ≡ d) rs

abbrev pub IsAllowed : List PolicyResult → Digest256 → Type 0
IsAllowed rs d = Any (λ r. (r.policy.digest ≡ d) × (r.outcome ≡ PolicyOutcome.allowed)) rs

abbrev pub HasEvidence : List SandboxEvidenceEntry → SandboxEvidenceKey → Type 0
HasEvidence es k = Any (λ e. e.key ≡ k) es

-- Every required policy that protects the subject has been allowed.
abbrev pub IsUnprotected :
    List PolicyResult → PolicyProtectedSubject → List PolicyObligation → Type 0
IsUnprotected rs x = All λ p.
    p.requirement ≡ PolicyRequirement.required
    → Any (λ y. y ≡ x) p.protects
    → IsAllowed rs p.policy.digest

pub Any-impl {ℓ} :
    {A : Type ℓ} {P Q : A → Type 0} (xs : List A) → ((x : A) → P x → Q x) → Any P xs → Any Q xs
Any-impl [] f h = absurd h
Any-impl (x ∷ xs) f (inl p) = inl (f x p)
Any-impl (x ∷ xs) f (inr h) = inr (Any-impl xs f h)

-- A test that holds of each element as its proposition does decides the existence of one.
pub any_iff {ℓ} :
    {A : Type ℓ} {P : A → Type 0} (p : A → Bool) (xs : List A)
    → ((x : A) → (p x ≡ true) ↔ P x)
    → (any p xs ≡ true) ↔ Any P xs
any_iff p xs f = (
  λ h. Any-impl xs (λ x. (f x).0) (any→Any p xs h),
  λ h. Any→any p xs (Any-impl xs (λ x. (f x).1) h),
)

pub false_iff : {P : Type 0} (b : Bool) → (b ≡ true) ↔ P → (b ≡ false) ↔ (¬ P)
false_iff true e = (λ h. cc, λ n. absurd (n (e.0 refl)))
false_iff false e = (λ h p. absurd (false_not_true (e.1 p)), λ n. refl)
  where
    false_not_true : false ≡ true → ⊥
    false_not_true h = cc

pub validate_artifact_iff :
    (a : ArtifactRef) (k : ArtifactKind) (seq : ℕ)
    → (validate_artifact a k seq ≡ ok tt) ↔ IsArtifact k a
unfolding validate_artifact
validate_artifact_iff a k seq =
    ground (arith, (artifact_kind_beq_iff a.kind k).0, (artifact_kind_beq_iff a.kind k).1)

find-some_iff {ℓ} : {A : Type ℓ} (p : A → Bool) (xs : List A) → is_some (find p xs) ≡ any p xs
unfolding find any
find-some_iff p [] = refl
find-some_iff p (x ∷ xs) = ground (arith, find-some_iff p xs)

pub gate_obligation_iff :
    (c : RunContract) (g : GateId) → (is_some (gate_obligation c g) ≡ true) ↔ IsDeclaredGate c g
unfolding gate_obligation
gate_obligation_iff c g =
    rw (find-some_iff (λ o. o.gate == g) c.gate_obligations)
      (any_iff (λ o. o.gate == g) c.gate_obligations (λ o. text_beq_iff o.gate g))

pub validate_artifact->> {ℓ} :
    {A : Type ℓ} (a : ArtifactRef) (k : ArtifactKind) (seq : ℕ) (r : Result ReduceError A) {x : A}
    → (validate_artifact a k seq >> r) ≡ ok x
    → IsArtifact k a × (r ≡ ok x)
validate_artifact->> a k seq r h =
    let (v, g) = >>-eq-ok (validate_artifact a k seq) r h in
    ((validate_artifact_iff a k seq).0 v, g)

pub any-digest_iff :
    (c : RunContract) (d : Digest256)
    → (any (λ o. o.policy.digest == d) c.policy_obligations ≡ true) ↔ IsDeclaredPolicy c d
any-digest_iff c d = any_iff _ c.policy_obligations (λ p. text_beq_iff p.policy.digest d)

pub any-IsChecked_iff :
    (rs : List PolicyResult) (d : Digest256)
    → (any (λ r. r.policy.digest == d) rs ≡ true) ↔ IsChecked rs d
any-IsChecked_iff rs d = any_iff _ rs (λ r. text_beq_iff r.policy.digest d)

pub any-requirement_iff :
    (c : RunContract) (x : ExecutionSubject) (d : Digest256)
    → (any (λ r. r.subject == x && r.policy_digest == d) c.sandbox_requirements ≡ true)
      ↔ IsRequiredEvidence c x d
any-requirement_iff c x d = any_iff _ c.sandbox_requirements λ r.
    let s = execution_subject_beq_iff r.subject x in
    let t = text_beq_iff r.policy_digest d in
    (λ h. (s.0 (ground arith), t.0 (ground arith)), λ h. ground (arith, s.1 h.0, t.1 h.1))

pub key_beq_iff : (a b : SandboxEvidenceKey) → (key_beq a b ≡ true) ↔ (a ≡ b)
unfolding key_beq
key_beq_iff a b =
    let s = execution_subject_beq_iff a.subject b.subject in
    let t = text_beq_iff a.policy_digest b.policy_digest in ground (arith, s.0, s.1, t.0, t.1)

pub any-key_iff :
    (es : List SandboxEvidenceEntry) (k : SandboxEvidenceKey)
    → (any (λ e. key_beq e.key k) es ≡ true) ↔ HasEvidence es k
any-key_iff es k = any_iff _ es (λ e. key_beq_iff e.key k)

pub was_allowed_iff :
    (rs : List PolicyResult) (d : Digest256) → (was_allowed rs d ≡ true) ↔ IsAllowed rs d
unfolding was_allowed is_allowed
was_allowed_iff rs d = any_iff _ rs λ r.
    let t = text_beq_iff r.policy.digest d in
    (λ h. (t.0 (ground arith), ground arith), λ h. ground (arith, t.1 h.0))

pub protects_iff :
    (ys : List PolicyProtectedSubject) (x : PolicyProtectedSubject)
    → (any (λ y. y == x) ys ≡ true) ↔ Any (λ y. y ≡ x) ys
protects_iff ys x = any_iff _ ys (λ y. protected_subject_beq_iff y x)

pub check_protectors_iff :
    (s : RunState) (x : PolicyProtectedSubject) (seq : ℕ) (ps : List PolicyObligation)
    → (check_protectors s x seq ps ≡ ok tt) ↔ IsUnprotected s.policy_results x ps
unfolding check_protectors is_required_policy
check_protectors_iff s x seq [] = (λ h. tt, λ h. refl)
check_protectors_iff s x seq (p ∷ ps) =
    let w = was_allowed_iff s.policy_results p.policy.digest in
    let v = protects_iff p.protects x in
    let ih = check_protectors_iff s x seq ps in
    (
      λ h. (λ q y. w.0 (ground (arith, v.1 y)), ih.0 (ground arith)),
      λ h. elim (Bool-cases (any (λ y. y == x) p.protects)) [
        | inr other ↦ ground (arith, ih.1 h.1)
        | inl y ↦ ground (
          arith,
          ih.1 h.1,
          λ (q : p.requirement ≡ PolicyRequirement.required). w.1 (h.0 q (v.0 y)),
        )
      ],
    )

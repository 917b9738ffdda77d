-- ===== src/Verifier/Verdicts.antt =====
-- crates/o7-verifier/src/verdict.rs: the decision over evidence, which the daemon makes.
use model_lib.Prelude.{
  ℕ, nat_eq, ◌≡◌, refl, sym, ap, ◌∙◌, text_beq_iff, Any, contains_iff, ◌↔◌, Bool, true, false, not,
  Option, none, some, text_eq, ◌==◌, arith, if◌then◌else◌,
}
use model_lib.Run.Ids.{Sha256}
use model_lib.Verifier.Command.{RequiredBoundary, TrustedCommand, is_success}
use model_lib.Verifier.Trust.{
  ExecutableIdentity, CommandDigest, TrustStore, command_digest, is_trusted,
}
use model_lib.Verifier.Evidence.{AttestedEnforcement, VerifierOutcome, VerifierEvidence}

-- `Verdict`, a reason told by what it is about.
pub data Adjudication : Type 0 where
  accepted : Adjudication
  no_binding inconsistent_digest untrusted boundary_unmet bad_exit no_completion : Adjudication

-- Under `RequireFullyEnforced` only full enforcement will do.
unfoldable pub boundary_met : RequiredBoundary → Option AttestedEnforcement → Bool
boundary_met RequiredBoundary.allow_unconfined attested = true
boundary_met RequiredBoundary.require_fully_enforced (some AttestedEnforcement.fully_enforced) =
    true
boundary_met RequiredBoundary.require_fully_enforced _ = false

unfoldable pub judge_outcome : TrustedCommand → VerifierOutcome → Adjudication
judge_outcome command (VerifierOutcome.completed code) =
    if is_success command code then Adjudication.accepted else Adjudication.bad_exit
judge_outcome command _ = Adjudication.no_completion

judge_outcome-completed :
    (command : TrustedCommand) (o : VerifierOutcome)
    → judge_outcome command o ≡ Adjudication.accepted
    → (code : ℕ) × (o ≡ VerifierOutcome.completed code) × (is_success command code ≡ true)
unfolding judge_outcome
judge_outcome-completed command (VerifierOutcome.completed code) h = (code, refl, ground arith)
judge_outcome-completed command (VerifierOutcome.signalled n) h = cc
judge_outcome-completed command VerifierOutcome.timed_out h = cc
judge_outcome-completed command (VerifierOutcome.not_run r) h = cc
judge_outcome-completed command (VerifierOutcome.spawn_failed r) h = cc
judge_outcome-completed command (VerifierOutcome.output_lost r) h = cc
judge_outcome-completed command (VerifierOutcome.boundary_unavailable r) h = cc
judge_outcome-completed command (VerifierOutcome.faulted r) h = cc

judge_completed :
    (command : TrustedCommand) (o : VerifierOutcome) (code : ℕ)
    → o ≡ VerifierOutcome.completed code
    → is_success command code ≡ true
    → judge_outcome command o ≡ Adjudication.accepted
unfolding judge_outcome
judge_completed command o code e h = rw e (ground arith)

boundary_met_iff :
    (r : RequiredBoundary) (o : Option AttestedEnforcement)
    → (boundary_met r o ≡ true)
      ↔ (r ≡ RequiredBoundary.require_fully_enforced → o ≡ some AttestedEnforcement.fully_enforced)
unfolding boundary_met
boundary_met_iff RequiredBoundary.allow_unconfined o = (λ h e. cc, λ h. refl)
boundary_met_iff RequiredBoundary.require_fully_enforced none =
    (λ h e. cc, λ h. let q = h refl in cc)
boundary_met_iff RequiredBoundary.require_fully_enforced (some AttestedEnforcement.fully_enforced) =
    (λ h e. refl, λ h. refl)
boundary_met_iff RequiredBoundary.require_fully_enforced (some o) =
    (λ h e. ground arith, λ h. let q = h refl in ground arith)

is_trusted_iff :
    (digest : CommandDigest) (store : TrustStore)
    → (is_trusted digest store ≡ true) ↔ Any (λ d. d ≡ digest) store
unfolding is_trusted
is_trusted_iff digest store = contains_iff store digest

is_success_iff :
    (command : TrustedCommand) (code : ℕ)
    → (is_success command code ≡ true) ↔ Any (λ c. c ≡ code) command.success_codes
unfolding is_success
is_success_iff command code = contains_iff command.success_codes code

module _ (sha : Sha256) where
  unfoldable pub judge_bound :
      VerifierEvidence → TrustStore → ExecutableIdentity → CommandDigest → Adjudication
  unfolding boundary_met judge_outcome
  judge_bound e store identity claimed =
      let digest = command_digest sha e.repo e.command identity in
      if not (digest == claimed)
      then Adjudication.inconsistent_digest
      else if not (is_trusted digest store)
      then Adjudication.untrusted
      else if not (boundary_met e.command.boundary_requirement e.boundary_enforcement)
      then Adjudication.boundary_unmet
      else judge_outcome e.command e.outcome

  unfoldable pub judge_parts :
      VerifierEvidence
      → TrustStore
      → Option ExecutableIdentity
      → Option CommandDigest
      → Adjudication
  unfolding judge_bound
  judge_parts e store (some identity) (some claimed) = judge_bound e store identity claimed
  judge_parts e store (some identity) none = Adjudication.no_binding
  judge_parts e store none claimed = Adjudication.no_binding

  unfoldable pub adjudicate : VerifierEvidence → TrustStore → Adjudication
  unfolding judge_parts
  adjudicate e store = judge_parts e store e.executable_identity e.trust_digest

  -- What acceptance takes: a binding to an executable, a digest of the command and that executable
  -- which is the one claimed and is one of the store, full enforcement attested when the command
  -- requires it, and a completion with an exit code that the command's own policy lists.
  abbrev pub IsAccepted : VerifierEvidence → TrustStore → Type 0
  IsAccepted e store =
      (identity : ExecutableIdentity) × (code : ℕ) × (e.executable_identity ≡ some identity)
      × (e.trust_digest ≡ some (command_digest sha e.repo e.command identity))
      × Any (λ d. d ≡ command_digest sha e.repo e.command identity) store
      × (e.command.boundary_requirement ≡ RequiredBoundary.require_fully_enforced
          → e.boundary_enforcement ≡ some AttestedEnforcement.fully_enforced)
      × (e.outcome ≡ VerifierOutcome.completed code)
      × Any (λ c. c ≡ code) e.command.success_codes

  judge_bound-accepted_iff :
      (e : VerifierEvidence) (store : TrustStore) (identity : ExecutableIdentity)
      (claimed : CommandDigest)
      → (judge_bound e store identity claimed ≡ Adjudication.accepted) ↔ (
          (command_digest sha e.repo e.command identity == claimed ≡ true)
          × (is_trusted (command_digest sha e.repo e.command identity) store ≡ true)
          × (boundary_met e.command.boundary_requirement e.boundary_enforcement ≡ true)
          × (judge_outcome e.command e.outcome ≡ Adjudication.accepted))
  unfolding judge_bound
  judge_bound-accepted_iff e store identity claimed = (λ h. ground arith, λ h. ground arith)

  judge_parts-accepted :
      (e : VerifierEvidence) (store : TrustStore) (oi : Option ExecutableIdentity)
      (od : Option CommandDigest)
      → judge_parts e store oi od ≡ Adjudication.accepted
      → (identity : ExecutableIdentity) × (claimed : CommandDigest) × (oi ≡ some identity)
        × (od ≡ some claimed)
        × (judge_bound e store identity claimed ≡ Adjudication.accepted)
  unfolding judge_parts
  judge_parts-accepted e store (some identity) (some claimed) h = (identity, claimed, refl, refl, h)
  judge_parts-accepted e store (some identity) none h = cc
  judge_parts-accepted e store none od h = cc

  judge_parts-bound :
      (e : VerifierEvidence) (store : TrustStore) (oi : Option ExecutableIdentity)
      (od : Option CommandDigest) (identity : ExecutableIdentity) (claimed : CommandDigest)
      → oi ≡ some identity
      → od ≡ some claimed
      → judge_parts e store oi od ≡ judge_bound e store identity claimed
  unfolding judge_parts
  judge_parts-bound e store oi od identity claimed p q = rw p (rw q refl)

  -- Evidence is accepted if and only if all of this holds: it names an executable; the digest that it
  -- claims is that of its own command with this executable, and is one of the digests in the store;
  -- if the command requires full enforcement, then just full enforcement was attested; and the
  -- verifier completed with an exit code that the command's own policy lists.
  pub adjudicate-accepted_iff :
      (e : VerifierEvidence) (store : TrustStore)
      → (adjudicate e store ≡ Adjudication.accepted) ↔ IsAccepted e store
  unfolding adjudicate
  adjudicate-accepted_iff e store = (
    λ h.
        let (identity, claimed, p, q, bound) =
          judge_parts-accepted e store e.executable_identity e.trust_digest h in
        let (same, t, b, o) = (judge_bound-accepted_iff e store identity claimed).0 bound in
        let (code, completes, success) = judge_outcome-completed e.command e.outcome o in
        (
          identity,
          code,
          p,
          q
              ∙ ap some (
                  sym
                    ((text_beq_iff (command_digest sha e.repo e.command identity) claimed).0 same)),
          (is_trusted_iff (command_digest sha e.repo e.command identity) store).0 t,
          (boundary_met_iff e.command.boundary_requirement e.boundary_enforcement).0 b,
          completes,
          (is_success_iff e.command code).0 success,
        ),
    λ (identity, code, p, q, t, b, completes, success).
        let digest = command_digest sha e.repo e.command identity in
        judge_parts-bound e store e.executable_identity e.trust_digest identity digest p q
        ∙ (judge_bound-accepted_iff e store identity digest).1 (
          (text_beq_iff digest digest).1 refl,
          (is_trusted_iff digest store).1 t,
          (boundary_met_iff e.command.boundary_requirement e.boundary_enforcement).1 b,
          judge_completed e.command e.outcome code completes
              ((is_success_iff e.command code).1 success),
        ),
  )

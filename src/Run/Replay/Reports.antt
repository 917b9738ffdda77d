-- ===== src/Run/Replay/Reports.antt =====
-- What the three ways to ask for a run's verdict say of one another and of the stream
-- (crates/o7-run/src/replay.rs: `replay`, `replay_verify` and `classify_record`).
use model_lib.Prelude.{
  ℕ, Bool, true, false, not, Option, none, some, some_injective, List, [], ◌∷◌, length, last?,
  if◌then◌else◌, text_eq, Result, ok, err, ok_injective, ◌>>=◌, >>=-eq-ok, >>-eq-ok,
  reject->>-eq-ok, reject->>-ok, All, ◌≡◌, ◌↔◌, refl, sym, ap, ◌∙◌, subst, arith,
}
use model_lib.Run.Ids.{Digest256, Sha256, genesis}
use model_lib.Run.Contract.{RunContract}
use model_lib.Run.Event.{RunEvent}
use model_lib.Run.State.{Verdict, RunState}
use model_lib.Run.Reduce.{reduce_all}
use model_lib.Run.Artifacts.{ArtifactResolver, referenced_artifacts, collect_unique}
use model_lib.Run.Candidate.{Json}
use model_lib.Run.Replay.{
  ReplayReport, ReplayError, RecordVerdict, verdict_beq, is_nil, some_or, verify_prefix_core,
  normalized_digest, verify_candidates, verify_prefix, report_of, classify_state, classify_prefix,
  classify_record, replay, replay_verify,
}
use model_lib.Run.Replay.Content.{IsProven, verify_prefix_core-parts, verify_prefix_core-IsProven}
use model_lib.Run.Streams.Chain.{end_digest, reduce_all-IsChained}
use model_lib.Run.Streams.Green.{IsDischargedBy, no_false_green}
use model_lib.Run.Replay.Judged.{Judged, verify_prefix-Judged}

verdict_beq_sound : (a b : Verdict) → verdict_beq a b ≡ true → a ≡ b
unfolding verdict_beq
verdict_beq_sound a b h = ground arith

verdict_beq_complete : (a b : Verdict) → a ≡ b → verdict_beq a b ≡ true
unfolding verdict_beq
verdict_beq_complete a b h = subst (λ x. verdict_beq a x ≡ true) h (itself a)
  where
    itself : (a : Verdict) → verdict_beq a a ≡ true
    itself a = ground arith

-- How a record that is not empty is classified, told from the result of its replay.
abbrev pub as_record : Result ReplayError ReplayReport → RecordVerdict
as_record (ok r) = RecordVerdict.valid_sealed r
as_record (err ReplayError.not_sealed) = RecordVerdict.valid_unsealed
as_record (err e) = RecordVerdict.invalid e

module _ (sha : Sha256) (json : Json) (artifacts : ArtifactResolver) where
  -- The result of `replay` once the prefix is verified.
  report_from : List RunEvent → Result ReplayError (RunState × ℕ) → Result ReplayError ReplayReport
  report_from es r = r >>= λ (state, n). some_or state.verdict ReplayError.not_sealed >>= λ verdict.
      some_or (last? es) ReplayError.legacy_non_replayable >>= λ last.
      some_or (normalized_digest sha json state) ReplayError.state_digest_unavailable >>= λ digest.
      ok (report_of sha json artifacts verdict es n last digest)

  classify_prefix-report :
      (es : List RunEvent) (r : Result ReplayError (RunState × ℕ))
      → Judged r
      → classify_prefix sha json artifacts es r ≡ as_record (report_from es r)
  unfolding classify_prefix classify_state report_from
  classify_prefix-report es (ok (s, n)) j = ground arith
  classify_prefix-report es (err ReplayError.not_sealed) (Judged.failed _ h) = absurd h
  classify_prefix-report es (err _) j = refl

  -- The three ways agree: `classify_record` reports a stream without events as no canonical stream,
  -- and any other stream as what `replay` says of it: the report of a sealed run, a run that is not
  -- sealed, or the error that makes the record invalid.
  pub classify_record-replay :
      (es : List RunEvent)
      → classify_record sha json artifacts es ≡ (
          if is_nil es
          then RecordVerdict.no_canonical_stream
          else as_record (replay sha json artifacts es))
  unfolding classify_record replay report_from
  classify_record-replay [] = refl
  classify_record-replay (e ∷ es) =
      classify_prefix-report (e ∷ es) (verify_prefix sha json artifacts (e ∷ es))
        (verify_prefix-Judged sha json artifacts (e ∷ es))

  -- `replay_verify` accepts a record with a stored verdict if and only if `replay` accepts the
  -- record and computes that verdict; both then give the same report.
  pub replay_verify_iff :
      (es : List RunEvent) (stored : Verdict) (r : ReplayReport)
      → (replay_verify sha json artifacts es stored ≡ ok r)
        ↔ ((replay sha json artifacts es ≡ ok r) × (r.verdict ≡ stored))
  unfolding replay_verify
  replay_verify_iff es stored r = (
    λ h.
        let (q, h1, h2) = >>=-eq-ok (replay sha json artifacts es) _ h in
        let (m, h3) = reject->>-eq-ok (not (verdict_beq q.verdict stored)) _ _ h2 in
        let same = ok_injective h3 in
        (
          h1 ∙ ap ok same,
          ap (λ x. x.verdict) (sym same) ∙ verdict_beq_sound q.verdict stored (not-false _ m),
        ),
    λ (h, v). rw h (
        reject->>-ok (not (verdict_beq r.verdict stored)) _ _
          (ap not (verdict_beq_complete r.verdict stored v)) refl),
  )
    where
      not-false : (b : Bool) → not b ≡ false → b ≡ true
      not-false true h = refl
      not-false false h = cc

  -- The parts of an accepted replay.
  replay-parts :
      (es : List RunEvent) {r : ReplayReport}
      → replay sha json artifacts es ≡ ok r
      → (t : RunState) × (n : ℕ) × (verify_prefix_core sha artifacts es ≡ ok (t, n))
        × (verify_candidates sha json artifacts t ≡ ok tt)
        × (verdict : Verdict) × (last : RunEvent) × (digest : Digest256) × (t.verdict
            ≡ some verdict)
        × (last? es ≡ some last)
        × (normalized_digest sha json t ≡ some digest)
        × (report_of sha json artifacts verdict es n last digest ≡ r)
  unfolding replay verify_prefix
  replay-parts es h =
      let ((t, n), h1, h2) = >>=-eq-ok (verify_prefix sha json artifacts es) _ h in
      let ((u, m), k1, k2) = >>=-eq-ok (verify_prefix_core sha artifacts es) _ h1 in
      let (c, k3) = >>-eq-ok (verify_candidates sha json artifacts u) _ k2 in
      let (v, v1, h3) = >>=-eq-ok (some_or t.verdict ReplayError.not_sealed) _ h2 in
      let (l, l1, h4) = >>=-eq-ok (some_or (last? es) ReplayError.legacy_non_replayable) _ h3 in
      let (d, d1, h5) =
        >>=-eq-ok (some_or (normalized_digest sha json t) ReplayError.state_digest_unavailable) _
          h4 in
      let same = ok_injective k3 in
      (
        t,
        n,
        k1 ∙ ap ok same,
        subst (λ p. verify_candidates sha json artifacts p.0 ≡ ok tt) same c,
        v,
        l,
        d,
        some_or-eq-ok _ _ v1,
        some_or-eq-ok _ _ l1,
        some_or-eq-ok _ _ d1,
        ok_injective h5,
      )
    where
      some_or-eq-ok :
          {A : Type 0} {a : A} (o : Option A) (e : ReplayError) → some_or o e ≡ ok a → o ≡ some a
      some_or-eq-ok (some x) e h = ap some (ok_injective h)
      some_or-eq-ok none e h = cc

  last?-end_digest :
      (prev : Digest256) (es : List RunEvent) {last : RunEvent}
      → last? es ≡ some last
      → last.event_digest ≡ end_digest prev es
  last?-end_digest prev [] h = cc
  last?-end_digest prev (e ∷ []) h = ap (λ x. x.event_digest) (sym (some_injective h))
  last?-end_digest prev (e ∷ f ∷ es) h = last?-end_digest e.event_digest (f ∷ es) h

  -- When `replay` accepts a stream, the reducer accepts it, and the report tells of the state that it
  -- leads to: its verdict, its normalized digest and the digest of the last event. It counts all the
  -- events of the stream and the different artifacts that they refer to.
  pub replay-report :
      (es : List RunEvent) {r : ReplayReport}
      → replay sha json artifacts es ≡ ok r
      → (t : RunState) × (reduce_all sha es ≡ ok t)
        × (t.verdict ≡ some r.verdict)
        × (r.events_verified ≡ length es)
        × (r.artifacts_verified ≡ length (collect_unique [] es))
        × (r.final_event_digest ≡ t.last_event_digest)
        × (normalized_digest sha json t ≡ some r.normalized_state_digest)
  unfolding report_of
  replay-report es {r} h =
      let (t, n, core, c, v, l, d, v1, l1, d1, same) = replay-parts es h in
      let (chain, reduced, arts, count) = verify_prefix_core-parts sha artifacts es core in
      subst
        (λ q.
          (u : RunState) × (reduce_all sha es ≡ ok u)
          × (u.verdict ≡ some q.verdict)
          × (q.events_verified ≡ length es)
          × (q.artifacts_verified ≡ length (collect_unique [] es))
          × (q.final_event_digest ≡ u.last_event_digest)
          × (normalized_digest sha json u ≡ some q.normalized_state_digest))
        same
        (
          t,
          reduced,
          v1,
          refl,
          count,
          last?-end_digest genesis es l1 ∙ sym (reduce_all-IsChained sha es reduced).1,
          d1,
        )

  -- A record that `replay` accepts with the verdict pass holds the events that discharge every
  -- obligation of the contract it declares, and each artifact that its events refer to was resolved
  -- to bytes of the stated digest.
  pub replay-no_false_green :
      (es : List RunEvent) {r : ReplayReport}
      → replay sha json artifacts es ≡ ok r
      → r.verdict ≡ Verdict.pass
      → ((c : RunContract) × IsDischargedBy es c)
        × All (λ e. All (IsProven sha artifacts) (referenced_artifacts e.kind)) es
  replay-no_false_green es {r} h p =
      let core = (replay-parts es h).2 in
      let (u, reduced, v, l, a, f, n) = replay-report es h in
      let (c, b, d) = no_false_green sha es reduced (v ∙ ap some p) in
      ((c, d), verify_prefix_core-IsProven sha artifacts es core)

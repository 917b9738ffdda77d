-- ===== src/Run/Streams/Chain.antt =====
-- An accepted stream is a chain: one run, dense sequence numbers, and digests that link.
use model_lib.Prelude.{
  ℕ, suc, ◌%◌, ◌^◌, Option, none, some, some_injective, List, [], ◌∷◌, Any, ok, ok_injective,
  text_eq, ◌≡◌, ◌⊎◌, inl, inr, refl, sym, ap, ◌∙◌, arith, text_ord,
}
use model_lib.Run.Ids.{RunId, Digest256, Sha256, genesis}
use model_lib.Run.Contract.{RunContract}
use model_lib.Run.Event.{RunEventKind, RunEvent}
use model_lib.Run.Encoding.{compute_digest}
use model_lib.Run.State.{RunState, initial}
use model_lib.Run.Reduce.{advance, reduce_from, reduce_all}
use model_lib.Run.Steps.{Step}
use model_lib.Run.Streams.{IsNext, IsRun, Applies, IsFolded, reduce-IsFolded, reduce_from-cons}

-- From a position in the stream on: each event has the schema of this build, its own digest, the
-- next number on u64, the digest of the event before it, and the run's id.
abbrev pub Linked : Sha256 → RunId → Digest256 → ℕ → List RunEvent → Type 0
Linked sha run prev n [] = Unit
Linked sha run prev n (e ∷ es) =
    (e.schema_version ≡ 1)
    × (e.event_digest ≡ compute_digest sha e)
    × (e.sequence ≡ n % 2 ^ 64)
    × (e.previous_event_digest ≡ prev)
    × (e.run_id ≡ run)
    × Linked sha run e.event_digest (suc n) es

abbrev pub IsChained : Sha256 → List RunEvent → Type 0
IsChained sha [] = Unit
IsChained sha (e ∷ es) = Linked sha e.run_id genesis 0 (e ∷ es)

-- No event id occurs twice.
abbrev pub AllDistinct : List RunEvent → Type 0
AllDistinct [] = Unit
AllDistinct (e ∷ es) = (¬ Any (λ d. d.event_id ≡ e.event_id) es) × AllDistinct es

-- The digest that the next event has to link to.
abbrev pub end_digest : Digest256 → List RunEvent → Digest256
end_digest prev [] = prev
end_digest prev (e ∷ es) = end_digest e.event_digest es

-- What the state remembers of the events so far, the last of them with number `n`.
record Remembers (s : RunState) (run : RunId) (prev : Digest256) (n : ℕ) : Type 0 where
  number : s.last_sequence ≡ some (n % 2 ^ 64)
  digest : s.last_event_digest ≡ prev
  same_run : s.run_id ≡ some run

Step-run_id :
    {s : RunState} {c : RunContract} {k : RunEventKind} {u : RunState}
    → Step s c k u
    → u.run_id ≡ s.run_id
Step-run_id (Step.worktree _ _) = refl
Step-run_id _ = refl

-- The run's id is bound by the first event.
Applies-run_id :
    {s : RunState} {run : RunId} {seq : ℕ} {k : RunEventKind} {u : RunState}
    → Applies s run seq k u
    → (u.run_id ≡ some run) ⊎ (u.run_id ≡ s.run_id)
Applies-run_id (Applies.start _ _ _) = inl refl
Applies-run_id (Applies.later _ st) = inr (Step-run_id st)

IsNext-suc :
    (last : Option ℕ) (seq n : ℕ)
    → last ≡ some (n % 2 ^ 64)
    → IsNext last seq
    → seq ≡ suc n % 2 ^ 64
IsNext-suc none seq n e h = cc
IsNext-suc (some last) seq n e h = let m : last ≡ n % 2 ^ 64 = some_injective e in omega arith

IsRun-same : (id : Option RunId) (r run : RunId) → id ≡ some run → IsRun id r → r ≡ run
IsRun-same none r run e h = cc
IsRun-same (some x) r run e h = h ∙ some_injective e

Applies-bound :
    {s : RunState} {r run : RunId} {seq : ℕ} {k : RunEventKind} {u : RunState}
    → Applies s r seq k u
    → s.run_id ≡ some run
    → r ≡ run
    → u.run_id ≡ some run
Applies-bound a h e = elim (Applies-run_id a) [ inl p ↦ p ∙ ap some e | inr q ↦ q ∙ h ]

module _ (sha : Sha256) where
  Remembers-next :
      (s t : RunState) (e : RunEvent) (run : RunId) (prev : Digest256) (n : ℕ)
      → IsFolded sha s e t
      → Remembers s run prev n
      → Remembers t run e.event_digest (suc n)
  unfolding advance
  Remembers-next s t e run prev n f m =
      let same = IsRun-same s.run_id e.run_id run m.same_run f.envelope.run in
      let q = IsNext-suc s.last_sequence e.sequence n m.number f.envelope.sequence in
      record {
        number = ap (λ u. u.last_sequence) f.result ∙ ap some q;
        digest = ap (λ u. u.last_event_digest) f.result;
        same_run = ap (λ u. u.run_id) f.result ∙ Applies-bound f.applies m.same_run same;
      }

  reduce_from-Linked :
      (s : RunState) (run : RunId) (prev : Digest256) (n : ℕ) (es : List RunEvent) {t : RunState}
      → Remembers s run prev n
      → reduce_from sha s es ≡ ok t
      → Linked sha run prev (suc n) es × (t.last_event_digest ≡ end_digest prev es)
  unfolding reduce_from
  reduce_from-Linked s run prev n [] m h =
      (tt, ap (λ u. u.last_event_digest) (sym (ok_injective h)) ∙ m.digest)
  reduce_from-Linked s run prev n (e ∷ es) m h =
      let (u, a, b) = reduce_from-cons sha s e es h in
      let f = reduce-IsFolded sha s e a in
      let (l, d) =
        reduce_from-Linked u run e.event_digest (suc n) es (Remembers-next s u e run prev n f m)
          b in
      (
        (
          f.envelope.schema,
          f.envelope.digest,
          IsNext-suc s.last_sequence e.sequence n m.number f.envelope.sequence,
          f.envelope.link ∙ m.digest,
          IsRun-same s.run_id e.run_id run m.same_run f.envelope.run,
          l,
        ),
        d,
      )

  -- The first event binds the run.
  Remembers-first :
      (t : RunState) (e : RunEvent)
      → IsFolded sha initial e t
      → Remembers t e.run_id e.event_digest 0
  unfolding advance initial
  Remembers-first t e f = record {
    number = ap (λ u. u.last_sequence) f.result ∙ ap some f.envelope.sequence;
    digest = ap (λ u. u.last_event_digest) f.result;
    same_run = ap (λ u. u.run_id) f.result ∙ first_run f.applies;
  }
    where
      first_run :
          {k : RunEventKind} {u : RunState}
          → Applies initial e.run_id e.sequence k u
          → u.run_id ≡ some e.run_id
      first_run (Applies.start _ _ _) = refl
      first_run (Applies.later c st) = cc c

  -- A stream that the reducer accepts is chained: every event has the schema of this build, its
  -- own recomputed digest, its position as its sequence number (on u64), the digest of the event
  -- before it (the genesis digest at first) and one run id; and the final state holds the digest
  -- of the last event.
  pub reduce_all-IsChained :
      (es : List RunEvent) {t : RunState}
      → reduce_all sha es ≡ ok t
      → IsChained sha es × (t.last_event_digest ≡ end_digest genesis es)
  unfolding reduce_all initial reduce_from
  reduce_all-IsChained [] h = (tt, ap (λ u. u.last_event_digest) (sym (ok_injective h)))
  reduce_all-IsChained (e ∷ es) h =
      let (u, a, b) = reduce_from-cons sha initial e es h in
      let f = reduce-IsFolded sha initial e a in
      let (l, d) = reduce_from-Linked u e.run_id e.event_digest 0 es (Remembers-first u e f) b in
      ((f.envelope.schema, f.envelope.digest, f.envelope.sequence, f.envelope.link, refl, l), d)

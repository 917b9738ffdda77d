-- ===== src/Run/Streams/Tamper.antt =====
-- The last digest of an accepted stream stands for the whole of it (crates/o7-run/src/reduce.rs and
-- event.rs).
use model_lib.Prelude.{
  ℕ, suc, true, false, List, [], ◌∷◌, All, text_beq, text_beq_iff, Bool-cases, length, ok, ◌≡◌, ◌≢◌,
  ◌⊎◌, inl, inr, refl, sym, ap, ◌∙◌, arith,
}
use model_lib.Run.Ids.{RunId, Digest256, Sha256, of_bytes, genesis}
use model_lib.Run.Ids.Hex.{hex_lower-injective}
use model_lib.Run.Event.{RunEvent}
use model_lib.Run.Encoding.{preimage, compute_digest}
use model_lib.Run.Encoding.Framing.{IsInRange, IsSameEvent, preimage-IsSameEvent}
use model_lib.Run.Encoding.Payloads.Kinds.{IsKindInRange, fold_kind-injective}
use model_lib.Run.State.{RunState}
use model_lib.Run.Reduce.{reduce_all}
use model_lib.Run.Streams.Chain.{Linked, end_digest, reduce_all-IsChained}

-- The digests of two events are the same hash of different bytes.
abbrev pub Collides : Sha256 → RunEvent → RunEvent → Type 0
Collides sha a b =
    (preimage a ≢ preimage b) × (sha.finalize (preimage a) ≡ sha.finalize (preimage b))

-- Two events at the same place of the two streams collide.
abbrev pub SomeCollide : Sha256 → List RunEvent → List RunEvent → Type 0
SomeCollide sha (a ∷ xs) (b ∷ ys) = Collides sha a b ⊎ SomeCollide sha xs ys
SomeCollide sha _ _ = ⊥

-- Every field of an event is in the range of its type, down to those of its payload.
abbrev pub IsEventInRange : RunEvent → Type 0
IsEventInRange e = IsInRange e × IsKindInRange e.kind

event_eq :
    (a b : RunEvent) → IsSameEvent a b → a.kind ≡ b.kind → a.event_digest ≡ b.event_digest → a ≡ b
event_eq a b s k d =
    fields s.event_id s.schema_version s.run_id s.sequence s.previous_event_digest
      s.timestamp_millis
  where
    fields :
        a.event_id ≡ b.event_id
        → a.schema_version ≡ b.schema_version
        → a.run_id ≡ b.run_id
        → a.sequence ≡ b.sequence
        → a.previous_event_digest ≡ b.previous_event_digest
        → a.timestamp_millis ≡ b.timestamp_millis
        → a ≡ b
    fields i v r n p m = cc

cons_eq : {a b : RunEvent} {xs ys : List RunEvent} → a ≡ b → xs ≡ ys → a ∷ xs ≡ b ∷ ys
cons_eq e es = cc

module _ (sha : Sha256) where
  same_or_collision :
      (a b : RunEvent)
      → IsEventInRange a
      → IsEventInRange b
      → compute_digest sha a ≡ compute_digest sha b
      → a.event_digest ≡ b.event_digest
      → Collides sha a b ⊎ (a ≡ b)
  unfolding compute_digest of_bytes
  same_or_collision a b p q h d = elim (Bool-cases (text_beq (preimage a) (preimage b))) [
    | inl bytes ↦
        let same =
          preimage-IsSameEvent a b p.0 q.0 ((text_beq_iff (preimage a) (preimage b)).0 bytes) in
        inr (event_eq a b same (fold_kind-injective a.kind b.kind p.1 q.1 same.tag same.payload) d)
    | inr other ↦ inl (
      λ e. differ (sym other ∙ (text_beq_iff (preimage a) (preimage b)).1 e),
      hex_lower-injective (sha.finalize (preimage a)) (sha.finalize (preimage b))
          (sha.finalize_bytes (preimage a)) (sha.finalize_bytes (preimage b)) h,
    )
  ]
    where
      differ : false ≡ true → ⊥
      differ e = cc

  Linked-injective :
      (r1 r2 : RunId) (p1 p2 : Digest256) (n1 n2 : ℕ) (es fs : List RunEvent)
      → length es ≡ length fs
      → All IsEventInRange es
      → All IsEventInRange fs
      → Linked sha r1 p1 n1 es
      → Linked sha r2 p2 n2 fs
      → end_digest p1 es ≡ end_digest p2 fs
      → SomeCollide sha es fs ⊎ ((p1 ≡ p2) × (es ≡ fs))
  Linked-injective r1 r2 p1 p2 n1 n2 [] [] l p q a b h = inr (h, refl)
  Linked-injective r1 r2 p1 p2 n1 n2 [] (f ∷ fs) l p q a b h = cc
  Linked-injective r1 r2 p1 p2 n1 n2 (e ∷ es) [] l p q a b h = cc
  Linked-injective r1 r2 p1 p2 n1 n2 (e ∷ es) (f ∷ fs) l p q a b h =
      elim (Linked-injective r1 r2 e.event_digest f.event_digest (suc n1) (suc n2) es fs
        (omega arith) p.1 q.1 a.5 b.5 h) [
          | inl later ↦ inl (inr later)
          | inr (d, more) ↦ elim (same_or_collision e f p.0 q.0 (sym a.1 ∙ d ∙ b.1) d) [
            | inl here ↦ inl (inl here)
            | inr same ↦
                inr (sym a.3 ∙ ap (λ x. x.previous_event_digest) same ∙ b.3, cons_eq same more)
          ]
        ]

  -- Two streams of the same length, with the fields of their events and payloads in the ranges of
  -- their types, that the reducer accepts with the same last digest are the same stream: the same
  -- events, field by field, payloads included. Else two events at the same place of the streams
  -- have the same hash of different bytes.
  pub reduce_all-injective :
      (es fs : List RunEvent) {s t : RunState}
      → reduce_all sha es ≡ ok s
      → reduce_all sha fs ≡ ok t
      → length es ≡ length fs
      → All IsEventInRange es
      → All IsEventInRange fs
      → s.last_event_digest ≡ t.last_event_digest
      → SomeCollide sha es fs ⊎ (es ≡ fs)
  reduce_all-injective [] [] h k l p q d = inr refl
  reduce_all-injective [] (f ∷ fs) h k l p q d = cc
  reduce_all-injective (e ∷ es) [] h k l p q d = cc
  reduce_all-injective (e ∷ es) (f ∷ fs) h k l p q d =
      let (c1, d1) = reduce_all-IsChained sha (e ∷ es) h in
      let (c2, d2) = reduce_all-IsChained sha (f ∷ fs) k in
      elim (Linked-injective e.run_id f.run_id genesis genesis 0 0 (e ∷ es) (f ∷ fs) l p q c1 c2
        (sym d1 ∙ d ∙ d2)) [ inl collision ↦ inl collision | inr (z, same) ↦ inr same ]

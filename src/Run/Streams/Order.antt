-- ===== src/Run/Streams/Order.antt =====
-- Where the first and the last event of an accepted stream stand, and that ids do not repeat.
use model_lib.Prelude.{
  ℕ, true, false, not, ◌&&◌, List, [], ◌∷◌, ◌++◌, All, Any, ok, ok_injective, Text, ◌≡◌, ◌⊎◌, ◌↔◌,
  inl, inr, refl, sym, ap, ◌∙◌, subst, arith, text_ord, text_cmp_sound, set_insert,
}
use model_lib.Run.Ids.{RunEventId, Sha256}
use model_lib.Run.Contract.{RunContract}
use model_lib.Run.Event.{RunEventKind, RunEvent}
use model_lib.Run.State.{RunPhase, RunState, initial, is_sealed}
use model_lib.Run.Errors.{ReduceError}
use model_lib.Run.Reduce.{is_not_started, is_run_started, advance, reduce_from, reduce_all}
use model_lib.Run.Steps.{Step}
use model_lib.Run.Streams.{Applies, IsFolded, reduce-IsFolded, reduce_from-cons, reduce_from-append}
use model_lib.Run.Streams.Chain.{AllDistinct}

-- Membership in a set after an insertion.
Any-set_insert :
    (k i : RunEventId) (js : List RunEventId)
    → (i ≡ k) ⊎ Any (λ j. j ≡ i) js
    → Any (λ j. j ≡ i) (set_insert k js)
unfolding set_insert
Any-set_insert k i [] h = ground arith
Any-set_insert k i (j ∷ js) h = ground (arith, Any-set_insert k i js, text_cmp_sound k j)

Step-seen :
    {s : RunState} {c : RunContract} {k : RunEventKind} {u : RunState}
    → Step s c k u
    → u.seen_event_ids ≡ s.seen_event_ids
Step-seen (Step.worktree _ _) = refl
Step-seen _ = refl

Applies-seen :
    {s : RunState} {run : Text} {seq : ℕ} {k : RunEventKind} {u : RunState}
    → Applies s run seq k u
    → u.seen_event_ids ≡ s.seen_event_ids
Applies-seen (Applies.start _ _ _) = refl
Applies-seen (Applies.later _ st) = Step-seen st

-- Only the seal seals, and a start is in a run that has not started.
Step-phase :
    {s : RunState} {c : RunContract} {k : RunEventKind} {u : RunState}
    → Step s c k u
    → (u.phase ≡ s.phase) ⊎ ((k ≡ RunEventKind.run_sealed) × (u.phase ≡ RunPhase.sealed))
Step-phase Step.seal = inr (refl, refl)
Step-phase _ = inl refl

Step-kind :
    {s : RunState} {c : RunContract} {k : RunEventKind} {u : RunState}
    → Step s c k u
    → is_run_started k ≡ false
unfolding is_run_started
Step-kind (Step.worktree _ _) = refl
Step-kind _ = refl

-- What an event does to the phase.
abbrev PhaseMove : RunState → RunEventKind → RunState → Type 0
PhaseMove s k t =
    (is_not_started t.phase ≡ false)
    × ((is_sealed t ≡ true) ↔ (k ≡ RunEventKind.run_sealed))
    × (is_run_started k ≡ true → is_not_started s.phase ≡ true)

Step-seals :
    {s : RunState} {c : RunContract} {k : RunEventKind} {u : RunState}
    → Step s c k u
    → is_sealed s ≡ false
    → (is_sealed u ≡ true) ↔ (k ≡ RunEventKind.run_sealed)
unfolding is_sealed
Step-seals Step.seal h = (λ e. refl, λ e. refl)
Step-seals _ h = (λ e. cc, λ e. cc)

Applies-phase :
    {s : RunState} {run : Text} {seq : ℕ} {k : RunEventKind} {u : RunState}
    → Applies s run seq k u
    → is_sealed s ≡ false
    → is_not_started s.phase && not (is_run_started k) ≡ false
    → PhaseMove s k u
unfolding is_not_started is_sealed
Applies-phase (Applies.start p v w) h n = (refl, (λ e. cc, λ e. cc), λ e. rw p)
Applies-phase {s} {k} (Applies.later {u} c st) h n =
    let j = Step-kind st in
    (still s k u (Step-phase st) j n, Step-seals st h, λ e. absurd (differ (sym e ∙ j)))
  where
    differ : true ≡ false → ⊥
    differ e = cc

    still :
        (s : RunState) (k : RunEventKind) (u : RunState)
        → (u.phase ≡ s.phase) ⊎ ((k ≡ RunEventKind.run_sealed) × (u.phase ≡ RunPhase.sealed))
        → is_run_started k ≡ false
        → is_not_started s.phase && not (is_run_started k) ≡ false
        → is_not_started u.phase ≡ false
    still s k u p j n = ground arith

module _ (sha : Sha256) where
  folded_seen :
      (s t : RunState) (e : RunEvent)
      → IsFolded sha s e t
      → t.seen_event_ids ≡ set_insert e.event_id s.seen_event_ids
  unfolding advance
  folded_seen s t e f =
      ap (λ u. u.seen_event_ids) f.result ∙ ap (set_insert e.event_id) (Applies-seen f.applies)

  Unseen : RunState → List RunEvent → Type 0
  Unseen s = All (λ d. ¬ Any (λ i. i ≡ d.event_id) s.seen_event_ids)

  reduce_from-AllDistinct :
      (s : RunState) (es : List RunEvent) {t : RunState}
      → reduce_from sha s es ≡ ok t
      → AllDistinct es × Unseen s es
  unfolding Unseen
  reduce_from-AllDistinct s [] h = (tt, tt)
  reduce_from-AllDistinct s (e ∷ es) h =
      let (u, a, b) = reduce_from-cons sha s e es h in
      let f = reduce-IsFolded sha s e a in
      let (d, n) = reduce_from-AllDistinct u es b in
      let seen = folded_seen s u e f in
      ((not_again s u e es seen n, d), (f.envelope.fresh, still_unseen s u e es seen n))
    where
      member :
          (s u : RunState) (e d : RunEvent)
          → u.seen_event_ids ≡ set_insert e.event_id s.seen_event_ids
          → (d.event_id ≡ e.event_id) ⊎ Any (λ i. i ≡ d.event_id) s.seen_event_ids
          → Any (λ i. i ≡ d.event_id) u.seen_event_ids
      member s u e d seen h = rw seen (Any-set_insert e.event_id d.event_id s.seen_event_ids h)

      not_again :
          (s u : RunState) (e : RunEvent) (ds : List RunEvent)
          → u.seen_event_ids ≡ set_insert e.event_id s.seen_event_ids
          → All (λ d. ¬ Any (λ i. i ≡ d.event_id) u.seen_event_ids) ds
          → ¬ Any (λ d. d.event_id ≡ e.event_id) ds
      not_again s u e [] seen n h = h
      not_again s u e (d ∷ ds) seen n (inl p) = n.0 (member s u e d seen (inl p))
      not_again s u e (d ∷ ds) seen n (inr h) = not_again s u e ds seen n.1 h

      still_unseen :
          (s u : RunState) (e : RunEvent) (ds : List RunEvent)
          → u.seen_event_ids ≡ set_insert e.event_id s.seen_event_ids
          → All (λ d. ¬ Any (λ i. i ≡ d.event_id) u.seen_event_ids) ds
          → All (λ d. ¬ Any (λ i. i ≡ d.event_id) s.seen_event_ids) ds
      still_unseen s u e [] seen n = tt
      still_unseen s u e (d ∷ ds) seen n =
          (λ m. n.0 (member s u e d seen (inr m)), still_unseen s u e ds seen n.1)

  -- In a stream that the reducer accepts no event id occurs twice.
  pub reduce_all-AllDistinct :
      (es : List RunEvent) {t : RunState} → reduce_all sha es ≡ ok t → AllDistinct es
  unfolding reduce_all
  reduce_all-AllDistinct es h = (reduce_from-AllDistinct initial es h).0

  folded_phase : (s t : RunState) (e : RunEvent) → IsFolded sha s e t → PhaseMove s e.kind t
  unfolding advance is_sealed
  folded_phase s t e f =
      rw (f.result, PhaseMove) (Applies-phase f.applies f.envelope.unsealed f.envelope.started)

  -- Once a run has started it has started for good.
  reduce_from-started :
      (s : RunState) (es : List RunEvent) {t : RunState}
      → is_not_started s.phase ≡ false
      → reduce_from sha s es ≡ ok t
      → is_not_started t.phase ≡ false
  unfolding reduce_from
  reduce_from-started s [] n h = subst (λ u. is_not_started u.phase ≡ false) (ok_injective h) n
  reduce_from-started s (e ∷ es) n h =
      let (u, a, b) = reduce_from-cons sha s e es h in
      reduce_from-started u es (folded_phase s u e (reduce-IsFolded sha s e a)).0 b

  -- Nothing follows a seal.
  reduce_from-sealed :
      (s : RunState) (es : List RunEvent) {t : RunState}
      → is_sealed s ≡ true
      → reduce_from sha s es ≡ ok t
      → (es ≡ []) × (s ≡ t)
  unfolding reduce_from
  reduce_from-sealed s [] n h = (refl, ok_injective h)
  reduce_from-sealed s (e ∷ es) n h =
      let (u, a, b) = reduce_from-cons sha s e es h in
      absurd (true_is_false (sym n ∙ (reduce-IsFolded sha s e a).envelope.unsealed))
    where
      true_is_false : true ≡ false → ⊥
      true_is_false e = cc

  nothing_before :
      (xs : List RunEvent) {s : RunState}
      → reduce_all sha xs ≡ ok s
      → (is_not_started s.phase ≡ true) ↔ (xs ≡ [])
  unfolding reduce_all reduce_from
  nothing_before [] h = (
    λ n. refl,
    λ n.
        subst (λ u. is_not_started u.phase ≡ true) (ok_injective h)
          (unfold initial is_not_started in refl),
  )
  nothing_before (x ∷ xs) h =
      let (u, a, b) = reduce_from-cons sha initial x xs h in
      let n =
        reduce_from-started u xs (folded_phase initial u x (reduce-IsFolded sha initial x a)).0 b in
      (λ m. cc, λ m. cc)

  -- In a stream that the reducer accepts, an event is the first one exactly when it is
  -- `RunStarted`, an event is the last one if it is `RunSealed`, and the final state is sealed
  -- exactly when the last event is `RunSealed`.
  pub reduce_all-brackets :
      (xs ys : List RunEvent) (e : RunEvent) {t : RunState}
      → reduce_all sha (xs ++ e ∷ ys) ≡ ok t
      → ((is_run_started e.kind ≡ true) ↔ (xs ≡ []))
        × (e.kind ≡ RunEventKind.run_sealed → ys ≡ [])
        × (ys ≡ [] → (is_sealed t ≡ true) ↔ (e.kind ≡ RunEventKind.run_sealed))
  unfolding reduce_all
  reduce_all-brackets xs ys e {t} h =
      let (s, a, b) = reduce_from-append sha initial xs (e ∷ ys) h in
      let (u, c, d) = reduce_from-cons sha s e ys b in
      let f = reduce-IsFolded sha s e c in
      let (p, q, r) = folded_phase s u e f in
      let before = nothing_before xs a in
      (
        (λ k. before.0 (r k), λ n. starts s e f (before.1 n)),
        λ k. (reduce_from-sealed u ys (q.1 k) d).0,
        λ n.
            let e2 = same_end u t ys n d in
            (
              λ k. q.0 (subst (λ v. is_sealed v ≡ true) (sym e2) k),
              λ k. subst (λ v. is_sealed v ≡ true) e2 (q.1 k),
            ),
      )
    where
      starts :
          (s : RunState) (e : RunEvent) {v : RunState}
          → IsFolded sha s e v
          → is_not_started s.phase ≡ true
          → is_run_started e.kind ≡ true
      starts s e f n = let g = f.envelope.started in ground arith

      same_end :
          (u t : RunState) (ys : List RunEvent) → ys ≡ [] → reduce_from sha u ys ≡ ok t → u ≡ t
      same_end u t ys n d =
          ok_injective {E = ReduceError}
            (unfold reduce_from in (ap (reduce_from sha u) (sym n) ∙ d))

-- ===== src/Ledger/Steps/Rows.antt =====
-- What the statements on runs, attempts and commands do, as steps of the specification.
use model_lib.Prelude.{
  ℕ, suc, ◌≤◌, ◌≡◌, refl, sym, ap, ◌∙◌, subst, ◌⊎◌, inl, inr, Bool, true, false, ◌&&◌, Option, none,
  some, List, [], ◌∷◌, ◌++◌, text_eq, ◌==◌, ltb, arith, find, find-holds, Bool-cases, Option-cases,
  if◌then◌else◌, text_beq_iff, ok, is_some,
}
use model_lib.Run.Ids.{RunId}
use model_lib.Ledger.Models.{RunStatus, AttemptStatus, RunRow, RunAttempt}
use model_lib.Ledger.Tables.{
  Db, update_where, attempt_is_running, load_run, has_run_id, running_count, insert_run,
  insert_attempt,
}
use model_lib.Ledger.Queries.{map_option, find-update_where, count_where-append, find-append}
use model_lib.Ledger.Commands.{in_flight}
use model_lib.Ledger.Machine.{view, at, RunMove, RunMoves, RunMoves-one, Grown, Steps}
use model_lib.Ledger.Steps.{insert_run-eq-ok, insert_attempt-eq-ok, Flight-refl}

abbrev pub with_rows : Db → List RunRow → List RunAttempt → Db
with_rows db runs attempts = record db { runs = runs; attempts = attempts }

abbrev pub update_run : RunId → (RunRow → RunRow) → List RunRow → List RunRow
update_run id = update_where (λ r. r.run_id == id)

module _ (id : RunId) (f : RunRow → RunRow) (keeps : (r : RunRow) → (f r).run_id ≡ r.run_id) where
  pub find-update_run :
      (j : RunId) (runs : List RunRow)
      → find (λ r. r.run_id == j) (update_run id f runs)
        ≡ map_option (λ x. if x.run_id == id then f x else x) (find (λ r. r.run_id == j) runs)
  find-update_run j runs =
      find-update_where (λ r. r.run_id == j) (λ r. r.run_id == id) f runs
        (λ r. ap (λ x. x == j) (keeps r))

  find-update_run_other :
      (j : RunId) (runs : List RunRow)
      → j == id ≡ false
      → find (λ r. r.run_id == j) (update_run id f runs) ≡ find (λ r. r.run_id == j) runs
  find-update_run_other j runs other = elim (Option-cases (find (λ r. r.run_id == j) runs)) [
    | inl absent ↦
        (find-update_run j runs ∙ ap (map_option (λ x. if x.run_id == id then f x else x)) absent)
        ∙ sym absent
    | inr (r, found) ↦
        let e = (text_beq_iff r.run_id j).0 (find-holds (λ r. r.run_id == j) runs found) in
        (find-update_run j runs ∙ ap (map_option (λ x. if x.run_id == id then f x else x)) found)
        ∙ (ap (λ b. some (if b then f r else r)) (ap (λ x. x == id) e ∙ other) ∙ sym found)
  ]

  -- The row that the UPDATE was about.
  pub find-update_run_same :
      (runs : List RunRow) (r : RunRow)
      → find (λ r. r.run_id == id) runs ≡ some r
      → find (λ r. r.run_id == id) (update_run id f runs) ≡ some (f r)
  find-update_run_same runs r found =
      (find-update_run id runs ∙ ap (map_option (λ x. if x.run_id == id then f x else x)) found)
      ∙ ap (λ b. some (if b then f r else r)) (find-holds (λ r. r.run_id == id) runs found)

-- The status that a run has after the insertion of a queued run.
appended_status :
    (before after : Option RunRow) (b : Bool) (r : RunRow)
    → after ≡ (if is_some before then before else if b then some r else none)
    → r.status ≡ RunStatus.queued
    → (map_option (λ r. r.status) after ≡ map_option (λ r. r.status) before)
      ⊎ ((map_option (λ r. r.status) before ≡ none)
          × (map_option (λ r. r.status) after ≡ some RunStatus.queued))
appended_status (some x) after b r e q = inl (ap (map_option (λ r. r.status)) e)
appended_status none after true r e q = inr (refl, ap (map_option (λ r. r.status)) e ∙ ap some q)
appended_status none after false r e q = inl (ap (map_option (λ r. r.status)) e)

attempted-at :
    (s : Option RunStatus) (m n : ℕ)
    → s ≡ some RunStatus.running
    → m ≡ 0
    → n ≡ 1
    → RunMove (at s m) (at s n)
attempted-at s m n p q r = rw p (rw q (rw r RunMove.attempted))

lone_count : (b : Bool) (n : ℕ) → b ≡ true → (b && ltb 0 n) ≡ false → n ≡ 0
lone_count b n h k = ground arith

attempted-if :
    (s : Option RunStatus) (m n : ℕ) (a b : Bool)
    → n ≡ (if a && b then suc m else m)
    → b ≡ true
    → (a ≡ true → (s ≡ some RunStatus.running) × (m ≡ 0))
    → RunMoves (at s m) (at s n)
attempted-if s m n true b e h k =
    let (p, q) = k refl in RunMoves-one (attempted-at s m n p q (ground arith))
attempted-if s m n false b e h k = rw e (RunMoves.done (at s m))

created-at :
    (s t : Option RunStatus) (n : ℕ)
    → (t ≡ s) ⊎ ((s ≡ none) × (t ≡ some RunStatus.queued))
    → RunMoves (at s n) (at t n)
created-at s t n (inl same) = rw same (RunMoves.done (at s n))
created-at s t n (inr (p, q)) = rw p (rw q (RunMoves-one (RunMove.created n)))

module _ {P : Type 0} where
  -- A change of the row of one run, and of the attempts, of which no more are running.
  pub change_run :
      (db : Db) (id : RunId) (f : RunRow → RunRow) (attempts : List RunAttempt)
      → ((r : RunRow) → (f r).run_id ≡ r.run_id)
      → ((j : RunId) → running_count j attempts ≤ running_count j db.attempts)
      → RunMoves (view id db) (view id (with_rows db (update_run id f db.runs) attempts))
      → Steps P db (with_rows db (update_run id f db.runs) attempts)
  unfolding view load_run
  change_run db id f attempts keeps fewer move = record {
    events = Grown.same db.events;
    runs = λ j. elim (Bool-cases (j == id)) [
      | inl same ↦
          subst
            (λ k. RunMoves (view k db) (view k (with_rows db (update_run id f db.runs) attempts)))
            (sym ((text_beq_iff j id).0 same)) move
      | inr other ↦
          subst (λ s. RunMoves (view j db) (at s (running_count j attempts)))
            (sym
              (ap (map_option (λ r. r.status)) (find-update_run_other id f keeps j db.runs other)))
            (RunMoves-one (RunMove.attempts_close _ _ _ (fewer j)))
    ];
    commands = λ id. Flight-refl (in_flight id db.commands);
  }

  pub change_attempts :
      (db : Db) (attempts : List RunAttempt)
      → ((j : RunId) → running_count j attempts ≤ running_count j db.attempts)
      → Steps P db (record db { attempts = attempts })
  unfolding view load_run
  change_attempts db attempts fewer = record {
    events = Grown.same db.events;
    runs = λ j. RunMoves-one (RunMove.attempts_close _ _ _ (fewer j));
    commands = λ id. Flight-refl (in_flight id db.commands);
  }

  pub insert_run-Steps :
      (db : Db) (r : RunRow) {after : Db}
      → r.status ≡ RunStatus.queued
      → insert_run db r ≡ ok after
      → Steps P db after
  unfolding view load_run has_run_id
  insert_run-Steps db r queued h =
      let (fresh, e) = insert_run-eq-ok db r h in
      subst (Steps P db) e (record {
        events = Grown.same db.events;
        runs = λ j.
            created-at _ _ (running_count j db.attempts)
              (appended_status _ _ _ r (find-append (λ r. r.run_id == j) db.runs r) queued);
        commands = λ id. Flight-refl (in_flight id db.commands);
      })

  pub insert_attempt-Steps :
      (db : Db) (r : RunAttempt) {after : Db}
      → r.status ≡ AttemptStatus.running
      → (view r.run_id db).status ≡ some RunStatus.running
      → insert_attempt db r ≡ ok after
      → Steps P db after
  unfolding view load_run attempt_is_running running_count
  insert_attempt-Steps db r running status h =
      let (alone, e) = insert_attempt-eq-ok db r h in
      let is_running = ap attempt_is_running running in
      subst (Steps P db) e (record {
        events = Grown.same db.events;
        runs = λ j.
            attempted-if (map_option (λ r. r.status) (load_run db j)) (running_count j db.attempts)
              (running_count j (db.attempts ++ r ∷ [])) (r.run_id == j)
              (attempt_is_running r.status)
              (count_where-append (λ a. a.run_id == j && attempt_is_running a.status) db.attempts r)
              is_running
              (λ same.
                subst
                  (λ k.
                    (map_option (λ r. r.status) (load_run db k) ≡ some RunStatus.running)
                    × (running_count k db.attempts ≡ 0))
                  ((text_beq_iff r.run_id j).0 same)
                  (
                    status,
                    lone_count (attempt_is_running r.status) (running_count r.run_id db.attempts)
                        is_running alone,
                  ));
        commands = λ id. Flight-refl (in_flight id db.commands);
      })

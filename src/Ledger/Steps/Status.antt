-- ===== src/Ledger/Steps/Status.antt =====
-- What a change of the status of a run does, with that of its attempts, as steps of the specification.
use model_lib.Prelude.{
  ℕ, ◌≤◌, ◌≡◌, refl, sym, subst, ap, ◌∙◌, inl, inr, Bool, true, false, ◌&&◌, Option, none, some,
  List, text_eq, ◌==◌, arith, find, Bool-cases, Option-cases, if◌then◌else◌,
}
use model_lib.Run.Ids.{RunId}
use model_lib.Ledger.Models.{Millis, RunStatus, is_terminal, AttemptStatus, RunRow, RunAttempt}
use model_lib.Ledger.Transitions.{run_transition_allowed}
use model_lib.Ledger.Tables.{
  Db, update_where, is_interrupted, attempt_is_running, load_run, running_count,
}
use model_lib.Ledger.Queries.{map_option, count_where-update_where, count_where-update_where_zero}
use model_lib.Ledger.Runs.{with_status, close_attempts, leaves_running, terminal_attempt_status}
use model_lib.Ledger.Machine.{view, at, RunMove, RunMoves, RunMoves-one, Steps}
use model_lib.Ledger.Steps.Rows.{
  with_rows, change_run, update_run, find-update_run, find-update_run_same,
}

-- Closing attempts leaves none of the run's running, and makes none of another's running.
pub close_attempts-running_count :
    (target : AttemptStatus) (now : Millis) (id : RunId) (attempts : List RunAttempt)
    → attempt_is_running target ≡ false
    → running_count id (close_attempts target now id attempts) ≡ 0
unfolding running_count close_attempts
close_attempts-running_count target now id attempts stops =
    count_where-update_where_zero (λ a. a.run_id == id && attempt_is_running a.status)
      (λ a. a.run_id == id && attempt_is_running a.status)
      (λ a. record a { status = target; finished_at = some now }) attempts (λ a q. ground arith)
      (λ a q. q)

-- An UPDATE that stops attempts makes none running.
pub update_where-fewer :
    (q : RunAttempt → Bool) (target : AttemptStatus) (finished : Option Millis)
    (attempts : List RunAttempt)
    → attempt_is_running target ≡ false
    → (j : RunId)
    → running_count j
        (update_where q (λ a. record a { status = target; finished_at = finished }) attempts)
      ≤ running_count j attempts
unfolding running_count
update_where-fewer q target finished attempts stops j =
    count_where-update_where (λ a. a.run_id == j && attempt_is_running a.status) q
      (λ a. record a { status = target; finished_at = finished }) attempts (λ a p t. ground arith)

pub close_attempts-fewer :
    (target : AttemptStatus) (now : Millis) (id : RunId) (attempts : List RunAttempt)
    → attempt_is_running target ≡ false
    → (j : RunId)
    → running_count j (close_attempts target now id attempts) ≤ running_count j attempts
unfolding close_attempts
close_attempts-fewer target now id =
    update_where-fewer (λ a. a.run_id == id && attempt_is_running a.status) target (some now)

-- The status that a change of a run leaves.
pub update_run-view :
    (db : Db) (id : RunId) (f : RunRow → RunRow) (attempts : List RunAttempt)
    (from target : RunStatus)
    → ((r : RunRow) → (f r).run_id ≡ r.run_id)
    → ((r : RunRow) → (f r).status ≡ target)
    → (view id db).status ≡ some from
    → (view id (with_rows db (update_run id f db.runs) attempts)).status ≡ some target
unfolding view load_run
update_run-view db id f attempts from target keeps sets h =
    elim (Option-cases (find (λ r. r.run_id == id) db.runs)) [
      | inl absent ↦ ground arith
      | inr (r, found) ↦
          ap (map_option (λ r. r.status)) (find-update_run_same id f keeps db.runs r found)
          ∙ ap some (sets r)
    ]

stops :
    (target : RunStatus)
    → leaves_running target ≡ true
    → attempt_is_running (terminal_attempt_status target) ≡ false
unfolding leaves_running terminal_attempt_status attempt_is_running is_terminal is_interrupted
stops target h = ground arith

leaves_from :
    (s t : RunStatus)
    → run_transition_allowed s t ≡ true
    → leaves_running t ≡ true
    → s ≡ RunStatus.running
unfolding run_transition_allowed leaves_running is_terminal is_interrupted
leaves_from s t a l = ground arith

starts_from :
    (s t : RunStatus)
    → run_transition_allowed s t ≡ true
    → leaves_running t ≡ false
    → (s ≡ RunStatus.queued) × (t ≡ RunStatus.running)
unfolding run_transition_allowed leaves_running is_terminal is_interrupted
starts_from s t a l = ground arith

left-at :
    (u v : Option RunStatus) (s t : RunStatus) (m n : ℕ)
    → u ≡ some s
    → v ≡ some t
    → run_transition_allowed s t ≡ true
    → leaves_running t ≡ true
    → n ≡ 0
    → RunMoves (at u m) (at v n)
left-at u v s t m n p q a l z =
    let r = leaves_from s t a l in
    rw (p ∙ ap some r) (rw q (rw z (RunMoves-one (RunMove.left t m (rw (← r) a)))))

started-at :
    (u v : Option RunStatus) (s t : RunStatus) (m : ℕ)
    → u ≡ some s
    → v ≡ some t
    → run_transition_allowed s t ≡ true
    → leaves_running t ≡ false
    → RunMoves (at u m) (at v m)
started-at u v s t m p q a l =
    let (r, r') = starts_from s t a l in
    rw (p ∙ ap some r) (rw (q ∙ ap some r') (RunMoves-one (RunMove.started m)))

-- The attempts after a run went to a status.
abbrev pub attempts_after : RunStatus → Millis → RunId → List RunAttempt → List RunAttempt
attempts_after target now id attempts =
    if leaves_running target
    then close_attempts (terminal_attempt_status target) now id attempts
    else attempts

resumed-at :
    (u v : Option RunStatus) (m n : ℕ)
    → u ≡ some RunStatus.interrupted
    → v ≡ some RunStatus.running
    → n ≡ 0
    → RunMoves (at u m) (at v n)
resumed-at u v m n p q z = rw p (rw q (rw z (RunMoves-one (RunMove.resumed m))))

repaired-at :
    (u v : Option RunStatus) (t : RunStatus) (m n : ℕ)
    → u ≡ some RunStatus.interrupted
    → v ≡ some t
    → is_terminal t ≡ true
    → n ≤ m
    → RunMoves (at u m) (at v n)
repaired-at u v t m n p q a le = rw p (rw q (RunMoves-one (RunMove.repaired t m n a le)))

module _ {P : Type 0} where
  -- A change of a run that keeps its status.
  pub keep-Steps :
      (db : Db) (id : RunId) (f : RunRow → RunRow)
      → ((r : RunRow) → (f r).run_id ≡ r.run_id)
      → ((r : RunRow) → (f r).status ≡ r.status)
      → Steps P db (with_rows db (update_run id f db.runs) db.attempts)
  unfolding view load_run
  keep-Steps db id f keeps same =
      let stays : map_option (λ r. r.status) (find (λ r. r.run_id == id) (update_run id f db.runs))
          ≡ map_option (λ r. r.status) (find (λ r. r.run_id == id) db.runs) =
        elim (Option-cases (find (λ r. r.run_id == id) db.runs)) [
          | inl absent ↦ ap (map_option (λ r. r.status)) (
              (find-update_run id f keeps id db.runs
                ∙ ap (map_option (λ x. if x.run_id == id then f x else x)) absent)
              ∙ sym absent)
          | inr (r, found) ↦
              ap (map_option (λ r. r.status)) (find-update_run_same id f keeps db.runs r found)
              ∙ (ap some (same r) ∙ sym (ap (map_option (λ r. r.status)) found))
        ] in
      change_run db id f db.attempts keeps (λ j. omega arith)
        (subst (λ s. RunMoves (view id db) (at s (running_count id db.attempts))) (sym stays)
          (RunMoves.done (view id db)))

  -- A run leaves `running`, and its attempts are closed.
  pub leave-Steps :
      (db : Db) (id : RunId) (f : RunRow → RunRow) (from target : RunStatus) (now : Millis)
      → ((r : RunRow) → (f r).run_id ≡ r.run_id)
      → ((r : RunRow) → (f r).status ≡ target)
      → (view id db).status ≡ some from
      → run_transition_allowed from target ≡ true
      → leaves_running target ≡ true
      → Steps P db (
          with_rows db
            (update_run id f db.runs)
            (close_attempts (terminal_attempt_status target) now id db.attempts))
  unfolding view
  leave-Steps db id f from target now keeps sets status allowed leaves =
      let closed = stops target leaves in
      change_run db id f (close_attempts (terminal_attempt_status target) now id db.attempts) keeps
        (close_attempts-fewer (terminal_attempt_status target) now id db.attempts closed)
        (left-at _ _ from target _ _ status
          (update_run-view db id f _ from target keeps sets status) allowed leaves
          (close_attempts-running_count (terminal_attempt_status target) now id db.attempts closed))

  pub transition-Steps :
      (db : Db) (id : RunId) (from target : RunStatus) (finished : Option Millis) (now : Millis)
      → (view id db).status ≡ some from
      → run_transition_allowed from target ≡ true
      → Steps P db (
          with_rows db
            (with_status target finished id db.runs)
            (attempts_after target now id db.attempts))
  unfolding view with_status
  transition-Steps db id from target finished now status allowed =
      let f = λ (r : RunRow). record r { status = target; finished_at = finished } in
      elim (Bool-cases (leaves_running target)) [
        | inl leaves ↦
            rw leaves
              (leave-Steps db id f from target now (λ r. refl) (λ r. refl) status allowed leaves)
        | inr stays ↦ rw stays (
            change_run db id f db.attempts (λ r. refl) (λ j. omega arith)
              (started-at _ _ from target _ status
                (update_run-view db id f db.attempts from target (λ r. refl) (λ r. refl) status)
                allowed stays))
      ]

  pub resume-Steps :
      (db : Db) (id : RunId) (now : Millis)
      → (view id db).status ≡ some RunStatus.interrupted
      → Steps P db (
          with_rows db
            (with_status RunStatus.running none id db.runs)
            (close_attempts AttemptStatus.interrupted now id db.attempts))
  unfolding view with_status attempt_is_running
  resume-Steps db id now status =
      let f = λ (r : RunRow). record r { status = RunStatus.running; finished_at = none } in
      change_run db id f (close_attempts AttemptStatus.interrupted now id db.attempts) (λ r. refl)
        (close_attempts-fewer AttemptStatus.interrupted now id db.attempts refl)
        (resumed-at _ _ _ _ status
          (update_run-view db id f _ RunStatus.interrupted RunStatus.running (λ r. refl) (λ r. refl)
            status)
          (close_attempts-running_count AttemptStatus.interrupted now id db.attempts refl))

  pub repair-Steps :
      (db : Db) (id : RunId) (target : RunStatus) (finished : Option Millis)
      (attempts : List RunAttempt)
      → ((j : RunId) → running_count j attempts ≤ running_count j db.attempts)
      → (view id db).status ≡ some RunStatus.interrupted
      → is_terminal target ≡ true
      → Steps P db (with_rows db (with_status target finished id db.runs) attempts)
  unfolding view with_status
  repair-Steps db id target finished attempts fewer status terminal =
      let f = λ (r : RunRow). record r { status = target; finished_at = finished } in
      change_run db id f attempts (λ r. refl) fewer
        (repaired-at _ _ target _ _ status
          (update_run-view db id f attempts RunStatus.interrupted target (λ r. refl) (λ r. refl)
            status)
          terminal (fewer id))

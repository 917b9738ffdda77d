-- ===== src/Ledger/Refinement.antt =====
-- Each operation of the ledger, when it succeeds, makes steps of the specification.
pub mod Runs
pub mod Recovery
pub mod Commands
pub mod Outcomes
pub mod Operations
use model_lib.Prelude.{
  ◌≡◌, refl, ap, ◌∙◌, Bool, not, Option, none, some, Text, arith, true, false, if◌then◌else◌,
  Result, ok, err, reject, ◌>>=◌, Ensures, Ensures-ok, >>=-eq-ok, ok_injective,
}
use model_lib.Run.Ids.{RunId}
use model_lib.Ledger.Models.{
  Millis, RunStatus, AttemptStatus, Conversation, RunRow, RunAttempt, Command, NewEvent,
  PersistedEvent, IdempotencyRecord,
}
use model_lib.Ledger.Errors.{LedgerError}
use model_lib.Ledger.Tables.{
  Db, is_running, load_run, insert_conversation, insert_run, insert_attempt, insert_idempotency,
  insert_command,
}
use model_lib.Ledger.Idempotency.{IdemOutcome, replay_or, record_key, record_optional}
use model_lib.Ledger.Events.{or_else, emit_event, read_back}
use model_lib.Ledger.Runs.{require_run}
use model_lib.Ledger.Commands.{in_flight}
use model_lib.Ledger.Machine.{view, Steps, Steps-trans}
use model_lib.Ledger.Steps.{
  Steps-refl, insert_conversation-Steps, insert_idempotency-Steps, emit_event-Steps,
  emit_event-eq-ok,
}
use model_lib.Ledger.Steps.Rows.{insert_run-Steps, insert_attempt-Steps}
use model_lib.Ledger.Steps.Commands.{insert_command-Steps}

-- A success leaves a database that the specification reaches.
abbrev pub Advances {ℓ} : (P : Type 0) {A : Type ℓ} → Db → Result LedgerError (A × Db) → Type ℓ
Advances P db m = Ensures (λ r. Steps P db r.1) m

module _ {ℓ} {A : Type ℓ} {P : Type 0} where
  -- A statement, and what comes after it.
  pub Advances-insert :
      {db : Db} {m : Result LedgerError Db} {k : Db → Result LedgerError (A × Db)}
      → Ensures (λ after. Steps P db after) m
      → ((after : Db) → Advances P after (k after))
      → Advances P db (m >>= k)
  Advances-insert {db} {m} {k} s h = record {
    holds = λ b e. let (a, p, q) = >>=-eq-ok m k e in Steps-trans (s.holds a p) ((h a).holds b q);
  }

  pub Advances-emit {κ} :
      {B : Type κ} {db : Db} {m : Result LedgerError (B × Db)}
      {k : B × Db → Result LedgerError (A × Db)}
      → Advances P db m
      → ((r : B × Db) → m ≡ ok r → Advances P r.1 (k r))
      → Advances P db (m >>= k)
  Advances-emit {db} {m} {k} s h = record {
    holds = λ b e. let (a, p, q) = >>=-eq-ok m k e in Steps-trans (s.holds a p) ((h a p).holds b q);
  }

  -- An UPDATE, and what comes after it.
  pub Advances-update :
      {db after : Db} {m : Result LedgerError (A × Db)}
      → Steps P db after
      → Advances P after m
      → Advances P db m
  Advances-update s h = record { holds = λ b e. Steps-trans s (h.holds b e) }

  pub Advances-done : (db : Db) (a : A) → Advances P db (ok (a, db))
  Advances-done db a = Ensures-ok (a, db) (Steps-refl db)

  pub Advances-if :
      {db : Db} (b : Bool) {m n : Result LedgerError (A × Db)}
      → (b ≡ true → Advances P db m)
      → (b ≡ false → Advances P db n)
      → Advances P db (if b then m else n)
  Advances-if true h k = h refl
  Advances-if false h k = k refl

  pub read_back-Advances :
      (db : Db) (o : Option A) (e : LedgerError) → Advances P db (read_back db o e)
  unfolding read_back
  read_back-Advances db none e = record { holds = λ b h. cc }
  read_back-Advances db (some a) e = Advances-done db a

  pub replay_or-Advances :
      {db : Db} (o : IdemOutcome) {f : Text → Result LedgerError (A × Db)}
      {m : Result LedgerError (A × Db)}
      → ((t : Text) → Advances P db (f t))
      → Advances P db m
      → Advances P db (replay_or o f m)
  unfolding replay_or
  replay_or-Advances IdemOutcome.fresh h k = k
  replay_or-Advances (IdemOutcome.replayed t) h k = h t

module _ {P : Type 0} where
  pub emit_event-Advances :
      (db : Db) (event : NewEvent) (now : Millis) → Advances P db (emit_event db event now)
  emit_event-Advances db event now = record {
    holds = λ (stored, after) h. emit_event-Steps db event now h;
  }

  pub insert_conversation-Ensures :
      (db : Db) (r : Conversation) → Ensures (λ after. Steps P db after) (insert_conversation db r)
  insert_conversation-Ensures db r = record { holds = λ after h. insert_conversation-Steps db r h }

  pub record_key-Ensures :
      (db : Db) (scope key digest result : Text) (now : Millis)
      → Ensures (λ after. Steps P db after) (record_key db scope key digest result now)
  unfolding record_key
  record_key-Ensures db scope key digest result now = record {
    holds = λ after h. insert_idempotency-Steps db _ h;
  }

  pub record_optional-Ensures :
      (db : Db) (scope : Text) (key : Option Text) (digest result : Text) (now : Millis)
      → Ensures (λ after. Steps P db after) (record_optional db scope key digest result now)
  unfolding record_optional
  record_optional-Ensures db scope none digest result now = Ensures-ok db (Steps-refl db)
  record_optional-Ensures db scope (some key) digest result now =
      record_key-Ensures db scope key digest result now

  pub insert_run-Ensures :
      (db : Db) (r : RunRow)
      → r.status ≡ RunStatus.queued
      → Ensures (λ after. Steps P db after) (insert_run db r)
  insert_run-Ensures db r q = record { holds = λ after h. insert_run-Steps db r q h }

  pub insert_attempt-Ensures :
      (db : Db) (r : RunAttempt)
      → r.status ≡ AttemptStatus.running
      → (view r.run_id db).status ≡ some RunStatus.running
      → Ensures (λ after. Steps P db after) (insert_attempt db r)
  insert_attempt-Ensures db r q s = record { holds = λ after h. insert_attempt-Steps db r q s h }

  pub insert_command-Ensures :
      (db : Db) (r : Command)
      → in_flight r.conversation_id db.commands ≡ 0
      → Ensures (λ after. Steps P db after) (insert_command db r)
  insert_command-Ensures db r z = record { holds = λ after h. insert_command-Steps db r z h }

pub require_run-status :
    (db : Db) (id : RunId) (run : RunRow)
    → require_run db id ≡ ok run
    → (view id db).status ≡ some run.status
unfolding require_run or_else view
require_run-status db id run h = ground arith

is_running-status : (s : RunStatus) → is_running s ≡ true → s ≡ RunStatus.running
unfolding is_running
is_running-status s h = ground arith

-- The status that a guard has let pass.
pub running_view :
    (db : Db) (id : RunId) (run : RunRow) (e : LedgerError)
    → require_run db id ≡ ok run
    → reject (not (is_running run.status)) e ≡ ok tt
    → (view id db).status ≡ some RunStatus.running
running_view db id run e p g =
    require_run-status db id run p ∙ ap some (is_running-status run.status (ground arith))

-- An event changes no run.
pub emit_event-view :
    (db : Db) (event : NewEvent) (now : Millis) (r : PersistedEvent × Db) (id : RunId)
    → emit_event db event now ≡ ok r
    → view id db ≡ view id r.1
unfolding view load_run
emit_event-view db event now r id h =
    ap (view id) (emit_event-eq-ok db event now {stored = r.0} {after = r.1} h)

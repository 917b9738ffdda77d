-- ===== src/Ledger/Steps.antt =====
-- What each statement of an operation does, as steps of the specification.
pub mod Rows
pub mod Commands
pub mod Status
use model_lib.Prelude.{
  ℕ, suc, ◌+◌, ◌≤◌, ◌≡◌, refl, sym, ap, ◌∙◌, subst, ◌⊎◌, inl, inr, Bool, true, false, not, ◌&&◌,
  Option, none, some, List, [], ◌∷◌, ◌++◌, Text, text_eq, ◌==◌, leb, ltb, arith, find, find-holds,
  any, Bool-cases, Option-cases, if◌then◌else◌, text_beq_iff, Result, ok, err, >>=-eq-ok, >>-eq-ok,
  reject->>-eq-ok, ok_injective, is_some, ◌>>=◌, ◌>>◌, reject,
}
use model_lib.Run.Ids.{RunId}
use model_lib.Ledger.Models.{
  ConversationId, Millis, RunStatus, AttemptStatus, Conversation, RunRow, RunAttempt, Command,
  NewEvent, PersistedEvent, IdempotencyRecord,
}
use model_lib.Ledger.Errors.{LedgerError}
use model_lib.Ledger.Tables.{
  Db, update_where, count_where, is_in_flight, attempt_is_running, load_run, has_run_id,
  running_count, insert_conversation, insert_run, insert_attempt, max_i64, insert_event,
  insert_idempotency, insert_command,
}
use model_lib.Ledger.Queries.{
  map_option, find-update_where, count_where-update_where, count_where-append, find-append,
  find-any,
}
use model_lib.Ledger.Commands.{in_flight, update_commands}
use model_lib.Ledger.Events.{emit_event, numbered, last_sequence}
use model_lib.Ledger.Machine.{View, view, at, RunMove, RunMoves, RunMoves-one, Grown, Flight, Steps}

insert_conversation-eq-ok :
    (db : Db) (r : Conversation) {after : Db}
    → insert_conversation db r ≡ ok after
    → record db { conversations = db.conversations ++ r ∷ [] } ≡ after
unfolding insert_conversation
insert_conversation-eq-ok db r h = ground arith

pub insert_idempotency-eq-ok :
    (db : Db) (r : IdempotencyRecord) {after : Db}
    → insert_idempotency db r ≡ ok after
    → record db { idempotency = db.idempotency ++ r ∷ [] } ≡ after
unfolding insert_idempotency
insert_idempotency-eq-ok db r h = ground arith

insert_event-eq-ok :
    (db : Db) (r : PersistedEvent) {after : Db}
    → insert_event db r ≡ ok after
    → record db { events = db.events ++ r ∷ [] } ≡ after
unfolding insert_event
insert_event-eq-ok db r h = ground arith

pub insert_run-eq-ok :
    (db : Db) (r : RunRow) {after : Db}
    → insert_run db r ≡ ok after
    → (has_run_id db r.run_id ≡ false) × (record db { runs = db.runs ++ r ∷ [] } ≡ after)
unfolding insert_run
insert_run-eq-ok db r h = ground arith

pub insert_attempt-eq-ok :
    (db : Db) (r : RunAttempt) {after : Db}
    → insert_attempt db r ≡ ok after
    → ((attempt_is_running r.status && ltb 0 (running_count r.run_id db.attempts)) ≡ false)
      × (record db { attempts = db.attempts ++ r ∷ [] } ≡ after)
unfolding insert_attempt
insert_attempt-eq-ok db r h = ground arith

pub insert_command-eq-ok :
    (db : Db) (r : Command) {after : Db}
    → insert_command db r ≡ ok after
    → record db { commands = db.commands ++ r ∷ [] } ≡ after
unfolding insert_command
insert_command-eq-ok db r h = ground arith

pub emit_event-eq-ok :
    (db : Db) (event : NewEvent) (now : Millis) {stored : PersistedEvent} {after : Db}
    → emit_event db event now ≡ ok (stored, after)
    → record db {
      events = db.events ++ numbered event (suc (last_sequence db event.conversation_id)) now ∷ [];
    }
      ≡ after
unfolding emit_event
emit_event-eq-ok db event now h =
    let row = numbered event (suc (last_sequence db event.conversation_id)) now in
    let (_, rest) =
      reject->>-eq-ok (leb max_i64 (last_sequence db event.conversation_id))
        (LedgerError.integrity event.conversation_id)
        (insert_event db row >>= (λ db1. ok (row, db1))) h in
    let (db1, inserted, e) = >>=-eq-ok (insert_event db row) (λ db1. ok (row, db1)) rest in
    insert_event-eq-ok db row inserted ∙ ap (λ r. r.1) (ok_injective e)

pub Flight-refl : {P : Type 0} (n : ℕ) → Flight P n n
Flight-refl n = inr (inr (omega arith))

module _ {P : Type 0} where
  pub Steps-refl : (db : Db) → Steps P db db
  Steps-refl db = record {
    events = Grown.same db.events;
    runs = λ id. RunMoves.done (view id db);
    commands = λ id. Flight-refl (in_flight id db.commands);
  }

  pub insert_conversation-Steps :
      (db : Db) (r : Conversation) {after : Db}
      → insert_conversation db r ≡ ok after
      → Steps P db after
  unfolding insert_conversation view load_run
  insert_conversation-Steps db r h = subst (Steps P db) (insert_conversation-eq-ok db r h) (record {
    events = Grown.same db.events;
    runs = λ id. RunMoves.done (view id db);
    commands = λ id. Flight-refl (in_flight id db.commands);
  })

  pub insert_idempotency-Steps :
      (db : Db) (r : IdempotencyRecord) {after : Db}
      → insert_idempotency db r ≡ ok after
      → Steps P db after
  unfolding insert_idempotency view load_run
  insert_idempotency-Steps db r h = subst (Steps P db) (insert_idempotency-eq-ok db r h) (record {
    events = Grown.same db.events;
    runs = λ id. RunMoves.done (view id db);
    commands = λ id. Flight-refl (in_flight id db.commands);
  })

  pub emit_event-Steps :
      (db : Db) (event : NewEvent) (now : Millis) {stored : PersistedEvent} {after : Db}
      → emit_event db event now ≡ ok (stored, after)
      → Steps P db after
  unfolding emit_event view load_run last_sequence numbered
  emit_event-Steps db event now h = subst (Steps P db) (emit_event-eq-ok db event now h) (record {
    events =
        Grown.added (numbered event (suc (last_sequence db event.conversation_id)) now) refl
          (Grown.same _);
    runs = λ id. RunMoves.done (view id db);
    commands = λ id. Flight-refl (in_flight id db.commands);
  })

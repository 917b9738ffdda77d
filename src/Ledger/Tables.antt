-- ===== src/Ledger/Tables.antt =====
-- The database of crates/o7-ledger/src/sqlite.rs: the tables of migrations.rs, and the statements on
-- them. A table is the list of its rows in the order of their `rowid`. An INSERT is refused by the
-- constraints of the schema (keys, foreign keys, CHECK), each written out; an UPDATE changes the rows
-- that its WHERE selects.
use model_lib.Prelude.{
  ℕ, suc, ◌-◌, ◌^◌, Bool, true, false, not, ◌&&◌, Option, none, some, List, [], ◌∷◌, ◌++◌, text_eq,
  nat_eq, ◌==◌, leb, ltb, is_some, is_none, any, find, if◌then◌else◌, Result, ok, reject, ◌>>◌,
}
use model_lib.Run.Ids.{RunId}
use model_lib.Ledger.Models.{
  ConversationId, AttemptId, EventId, CommandId, RunStatus, AttemptStatus, CommandStatus,
  Conversation, RunRow, RunAttempt, Command, PersistedEvent, IdempotencyRecord,
}
use model_lib.Ledger.Errors.{LedgerError}

pub record Db : Type 0 where
  pub conversations : List Conversation
  pub runs : List RunRow
  pub attempts : List RunAttempt
  pub events : List PersistedEvent
  pub idempotency : List IdempotencyRecord
  pub commands : List Command

abbrev pub empty_db : Db
empty_db = record {
  conversations = [];
  runs = [];
  attempts = [];
  events = [];
  idempotency = [];
  commands = [];
}

module _ {ℓ} {A : Type ℓ} where
  -- `UPDATE t SET .. WHERE ..`
  unfoldable pub update_where : (A → Bool) → (A → A) → List A → List A
  update_where p f [] = []
  update_where p f (x ∷ xs) = (if p x then f x else x) ∷ update_where p f xs

  -- `SELECT count(*) .. WHERE ..`
  unfoldable pub count_where : (A → Bool) → List A → ℕ
  count_where p [] = 0
  count_where p (x ∷ xs) = if p x then suc (count_where p xs) else count_where p xs

  -- `SELECT COALESCE(MAX(n), 0) .. WHERE ..`
  unfoldable pub max_where : (A → Bool) → (A → ℕ) → List A → ℕ
  max_where p n [] = 0
  max_where p n (x ∷ xs) =
      let m = max_where p n xs in if p x then (if leb m (n x) then n x else m) else m

  -- `SELECT .. WHERE .. ORDER BY n DESC, rowid DESC LIMIT 1`
  unfoldable pub latest_from : (A → Bool) → (A → ℕ) → Option A → List A → Option A
  latest_from p n best [] = best
  latest_from p n none (x ∷ xs) = latest_from p n (if p x then some x else none) xs
  latest_from p n (some b) (x ∷ xs) =
      latest_from p n (some (if p x && leb (n b) (n x) then x else b)) xs

-- The largest INTEGER of the database.
abbrev pub max_i64 : ℕ
max_i64 = 2 ^ 63 - 1

unfoldable pub is_running : RunStatus → Bool
is_running RunStatus.running = true
is_running _ = false

unfoldable pub is_interrupted : RunStatus → Bool
is_interrupted RunStatus.interrupted = true
is_interrupted _ = false

unfoldable pub attempt_is_running : AttemptStatus → Bool
attempt_is_running AttemptStatus.running = true
attempt_is_running _ = false

unfoldable pub attempt_is_interrupted : AttemptStatus → Bool
attempt_is_interrupted AttemptStatus.interrupted = true
attempt_is_interrupted _ = false

-- `status IN ('accepted','started')`
unfoldable pub is_in_flight : CommandStatus → Bool
is_in_flight CommandStatus.accepted = true
is_in_flight CommandStatus.started = true
is_in_flight CommandStatus.completed = false
is_in_flight CommandStatus.rejected = false

-- `load_conversation` and its likes: the row of a primary key.
unfoldable pub load_conversation : Db → ConversationId → Option Conversation
load_conversation db id = find (λ r. r.conversation_id == id) db.conversations

unfoldable pub load_run : Db → RunId → Option RunRow
load_run db id = find (λ r. r.run_id == id) db.runs

unfoldable pub load_attempt : Db → AttemptId → Option RunAttempt
load_attempt db id = find (λ r. r.attempt_id == id) db.attempts

unfoldable pub load_event : Db → EventId → Option PersistedEvent
load_event db id = find (λ r. r.event_id == id) db.events

unfoldable pub load_command : Db → CommandId → Option Command
load_command db id = find (λ r. r.command_id == id) db.commands

unfoldable pub has_conversation : Db → ConversationId → Bool
has_conversation db id = any (λ r. r.conversation_id == id) db.conversations

-- The pair of a conversation and a run, to which foreign keys refer.
unfoldable pub has_run : Db → ConversationId → RunId → Bool
has_run db conversation id = any (λ r. r.conversation_id == conversation && r.run_id == id) db.runs

unfoldable pub has_run_id : Db → RunId → Bool
has_run_id db id = any (λ r. r.run_id == id) db.runs

-- A foreign key with a NULL is not checked.
unfoldable pub has_run_or_null : Db → ConversationId → Option RunId → Bool
has_run_or_null db conversation none = true
has_run_or_null db conversation (some id) = has_run db conversation id

unfoldable pub insert_conversation : Db → Conversation → Result LedgerError Db
insert_conversation db r = do
  reject (has_conversation db r.conversation_id) LedgerError.sqlite
  ok (record db { conversations = db.conversations ++ r ∷ [] })

-- A run may name itself as its parent: the foreign key is checked on the table with the new row.
unfoldable pub insert_run : Db → RunRow → Result LedgerError Db
insert_run db r =
    let after = record db { runs = db.runs ++ r ∷ [] } in
    do
      reject (has_run_id db r.run_id) LedgerError.sqlite
      reject (not (has_conversation db r.conversation_id)) LedgerError.sqlite
      reject (not (has_run_or_null after r.conversation_id r.parent_run_id)) LedgerError.sqlite
      ok after

-- `SELECT count(*) FROM run_attempt WHERE run_id = ?1 AND status = 'running'`
unfoldable pub running_count : RunId → List RunAttempt → ℕ
running_count id = count_where (λ a. a.run_id == id && attempt_is_running a.status)

-- With the partial index `idx_one_running_attempt`.
unfoldable pub insert_attempt : Db → RunAttempt → Result LedgerError Db
insert_attempt db r = do
  reject (any (λ a. a.attempt_id == r.attempt_id) db.attempts) LedgerError.sqlite
  reject (any (λ a. a.run_id == r.run_id && a.attempt_number == r.attempt_number) db.attempts)
      LedgerError.sqlite
  reject (attempt_is_running r.status && ltb 0 (running_count r.run_id db.attempts))
      LedgerError.sqlite
  reject (not (has_run_id db r.run_id)) LedgerError.sqlite
  ok (record db { attempts = db.attempts ++ r ∷ [] })

unfoldable pub has_attempt_or_null : Db → Option RunId → Option AttemptId → Bool
has_attempt_or_null db none attempt = true
has_attempt_or_null db (some run) none = true
has_attempt_or_null db (some run) (some attempt) =
    any (λ a. a.run_id == run && a.attempt_id == attempt) db.attempts

unfoldable pub insert_event : Db → PersistedEvent → Result LedgerError Db
insert_event db r = do
  reject (any (λ e. e.event_id == r.event_id) db.events) LedgerError.sqlite
  reject (any (λ e. e.conversation_id == r.conversation_id && e.sequence == r.sequence) db.events)
      LedgerError.sqlite
  reject (is_some r.attempt_id && is_none r.run_id) LedgerError.sqlite
  reject (not (has_conversation db r.conversation_id)) LedgerError.sqlite
  reject (not (has_run_or_null db r.conversation_id r.run_id)) LedgerError.sqlite
  reject (not (has_attempt_or_null db r.run_id r.attempt_id)) LedgerError.sqlite
  ok (record db { events = db.events ++ r ∷ [] })

unfoldable pub insert_idempotency : Db → IdempotencyRecord → Result LedgerError Db
insert_idempotency db r = do
  reject (any (λ i. i.scope == r.scope && i.key == r.key) db.idempotency) LedgerError.sqlite
  ok (record db { idempotency = db.idempotency ++ r ∷ [] })

unfoldable pub insert_command : Db → Command → Result LedgerError Db
insert_command db r = do
  reject (any (λ c. c.command_id == r.command_id) db.commands) LedgerError.sqlite
  reject (not (has_conversation db r.conversation_id)) LedgerError.sqlite
  reject (not (has_run db r.conversation_id r.parent_run_id)) LedgerError.sqlite
  ok (record db { commands = db.commands ++ r ∷ [] })

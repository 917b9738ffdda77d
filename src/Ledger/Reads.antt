-- ===== src/Ledger/Reads.antt =====
-- crates/o7-ledger/src/sqlite.rs: the queries of the ledger that order and page their rows. The
-- `rowid` of a row is its place in the table, from 1.
pub mod Lists
pub mod Pages
pub mod Rows
use model_lib.Prelude.{
  ℕ, suc, ◌-◌, ◌^◌, Bool, true, false, ◌&&◌, ◌||◌, Option, none, some, List, [], ◌∷◌, text_eq,
  nat_eq, ◌==◌, leb, ltb, map, filter, find, any, last?, take, sort_by, if◌then◌else◌,
}
use model_lib.Run.Ids.{RunId}
use model_lib.Ledger.Models.{
  ConversationId, AttemptId, Millis, RunStatus, run_as_str, Conversation, RunRow, RunAttempt,
  PersistedEvent,
}
use model_lib.Ledger.Tables.{Db, max_i64, attempt_is_running, latest_from, load_attempt}

abbrev pub max_read_limit : ℕ
max_read_limit = 1000

abbrev pub max_list_limit : ℕ
max_list_limit = 200

pub record ListCursor : Type 0 where
  pub created_at : Millis
  pub tiebreak : ℕ

pub record Page (A : Type 0) : Type 0 where
  pub items : List A
  pub next_before : Option ListCursor

-- A row with what it is ordered by.
pub record Keyed (A : Type 0) : Type 0 where
  pub rowid : ℕ
  pub created_at : Millis
  pub row : A

unfoldable pub keyed : {A : Type 0} → (A → Millis) → ℕ → List A → List (Keyed A)
keyed time n [] = []
keyed time n (x ∷ xs) = record { rowid = n; created_at = time x; row = x } ∷ keyed time (suc n) xs

-- `limit.min(cap)`
unfoldable pub min_limit : ℕ → ℕ → ℕ
min_limit limit cap = if leb limit cap then limit else cap

module _ {A : Type 0} where
  -- `ORDER BY created_at DESC, rowid DESC`
  unfoldable pub newer : Keyed A → Keyed A → Bool
  newer x y = ltb y.created_at x.created_at || x.created_at == y.created_at && leb y.rowid x.rowid

  -- `?1 IS NULL OR created_at < ?1 OR (created_at = ?1 AND rowid < ?2)`
  unfoldable pub is_before : Option ListCursor → Keyed A → Bool
  is_before none x = true
  is_before (some c) x =
      ltb x.created_at c.created_at || x.created_at == c.created_at && ltb x.rowid c.tiebreak

  unfoldable pub cursor_of : Option (Keyed A) → Option ListCursor
  cursor_of none = none
  cursor_of (some x) = some (record { created_at = x.created_at; tiebreak = x.rowid })

  -- `WHERE .. ORDER BY created_at DESC, rowid DESC LIMIT ?`
  unfoldable pub page_rows :
      (Keyed A → Bool) → Option ListCursor → ℕ → List (Keyed A) → List (Keyed A)
  unfolding newer is_before min_limit
  page_rows p before limit rows =
      take (min_limit limit max_list_limit)
        (sort_by newer (filter (λ x. p x && is_before before x) rows))

  unfoldable pub page_of : List (Keyed A) → Page A
  unfolding cursor_of
  page_of rows = record { items = map (λ x. x.row) rows; next_before = cursor_of (last? rows) }

unfoldable pub list_conversations : Db → Option ListCursor → ℕ → Page Conversation
unfolding page_of page_rows keyed
list_conversations db before limit =
    page_of (page_rows (λ x. true) before limit (keyed (λ c. c.created_at) 1 db.conversations))

-- `AND conversation_id = ?`, when it is asked for.
unfoldable pub in_conversation : Option ConversationId → RunRow → Bool
in_conversation none r = true
in_conversation (some id) r = r.conversation_id == id

-- `AND status IN (..)`, when it is asked for; an empty set has no row.
unfoldable pub in_statuses : Option (List RunStatus) → RunRow → Bool
in_statuses none r = true
in_statuses (some l) r = any (λ s. run_as_str r.status == run_as_str s) l

unfoldable pub is_listed : Option ConversationId → Option (List RunStatus) → Keyed RunRow → Bool
unfolding in_conversation in_statuses
is_listed conversation statuses x = in_conversation conversation x.row && in_statuses statuses x.row

unfoldable pub list_runs :
    Db → Option ConversationId → Option (List RunStatus) → Option ListCursor → ℕ → Page RunRow
unfolding page_of page_rows keyed is_listed
list_runs db conversation statuses before limit =
    page_of (
      page_rows (is_listed conversation statuses) before limit
        (keyed (λ r. r.created_at) 1 db.runs))

-- `i64::try_from(after_sequence.unwrap_or(0)).unwrap_or(i64::MAX)`
unfoldable pub after_of : Option ℕ → ℕ
after_of none = 0
after_of (some n) = if leb n max_i64 then n else max_i64

unfoldable pub read_events : Db → ConversationId → Option ℕ → ℕ → List PersistedEvent
unfolding after_of min_limit
read_events db id after limit = take (min_limit limit max_read_limit) (
    sort_by (λ a b. leb a.sequence b.sequence)
      (filter (λ e. e.conversation_id == id && ltb (after_of after) e.sequence) db.events))

-- The row of an id that a query found.
unfoldable pub reload : Db → Option RunAttempt → Option RunAttempt
reload db none = none
reload db (some a) = load_attempt db a.attempt_id

-- `SELECT attempt_id .. WHERE run_id = ?1 AND status = 'running'`, and the row of that id.
unfoldable pub running_attempt : Db → RunId → Option RunAttempt
unfolding reload
running_attempt db id =
    reload db (find (λ a. a.run_id == id && attempt_is_running a.status) db.attempts)

unfoldable pub latest_attempt : Db → RunId → Option RunAttempt
unfolding latest_from reload
latest_attempt db id =
    reload db (latest_from (λ a. a.run_id == id) (λ a. a.attempt_number) none db.attempts)

-- ===== src/Ledger/Reads/Lists.antt =====
-- The paged queries of the ledger: list_runs and list_conversations.
use model_lib.Prelude.{
  ℕ, ◌≡◌, ◌↔◌, refl, sym, ap, ◌∙◌, some_injective, true, Option, none, some, List, [], ◌∷◌, text_eq,
  text_beq_iff, ◌==◌, arith, Any, any,
}
use model_lib.Ledger.Models.{ConversationId, RunStatus, run_as_str, run_parse, RunRow}
use model_lib.Ledger.Statuses.{run_parse-as_str}
use model_lib.Ledger.Tables.{Db}
use model_lib.Ledger.Reads.{
  Keyed, ListCursor, list_conversations, in_conversation, in_statuses, is_listed, list_runs,
}
use model_lib.Ledger.Reads.Pages.{IsListing, page_of-IsListing}

abbrev IsOf : Option ConversationId → RunRow → Type 0
IsOf none r = Unit
IsOf (some id) r = r.conversation_id ≡ id

abbrev HasStatusIn : Option (List RunStatus) → RunRow → Type 0
HasStatusIn none r = Unit
HasStatusIn (some l) r = Any (λ s. r.status ≡ s) l

-- A run of the conversation, when one is asked for, with one of the statuses, when some are.
abbrev pub IsAskedFor : Option ConversationId → Option (List RunStatus) → RunRow → Type 0
IsAskedFor conversation statuses r = IsOf conversation r × HasStatusIn statuses r

in_conversation_iff :
    (conversation : Option ConversationId) (r : RunRow)
    → (in_conversation conversation r ≡ true) ↔ IsOf conversation r
unfolding in_conversation
in_conversation_iff none r = (λ h. tt, λ h. refl)
in_conversation_iff (some id) r = text_beq_iff r.conversation_id id

same_status : (s t : RunStatus) → (run_as_str s == run_as_str t ≡ true) ↔ (s ≡ t)
same_status s t = (
  λ h. some_injective (
      sym (run_parse-as_str s)
      ∙ ap run_parse ((text_beq_iff (run_as_str s) (run_as_str t)).0 h)
      ∙ run_parse-as_str t),
  λ e. (text_beq_iff (run_as_str s) (run_as_str t)).1 (ap run_as_str e),
)

any_status :
    (s : RunStatus) (l : List RunStatus)
    → (any (λ t. run_as_str s == run_as_str t) l ≡ true) ↔ Any (λ t. s ≡ t) l
unfolding any
any_status s [] = (λ h. cc, λ h. absurd h)
any_status s (t ∷ ts) = ground (arith, any_status s ts, same_status s t)

in_statuses_iff :
    (statuses : Option (List RunStatus)) (r : RunRow)
    → (in_statuses statuses r ≡ true) ↔ HasStatusIn statuses r
unfolding in_statuses
in_statuses_iff none r = (λ h. tt, λ h. refl)
in_statuses_iff (some l) r = any_status r.status l

is_listed_iff :
    (conversation : Option ConversationId) (statuses : Option (List RunStatus)) (x : Keyed RunRow)
    → (is_listed conversation statuses x ≡ true) ↔ IsAskedFor conversation statuses x.row
unfolding is_listed
is_listed_iff conversation statuses x =
    let c = in_conversation_iff conversation x.row in
    let s = in_statuses_iff statuses x.row in
    (
      λ h. (c.0 (ground arith), s.0 (ground arith)),
      λ h. let a = c.1 h.0 in let b = s.1 h.1 in ground arith,
    )

-- A page of list_runs shows runs of the table that are of the conversation and have one of the
-- statuses that are asked for, and that are behind the cursor: at most as many as asked for and at
-- most 200, strictly newest first (of one time the last inserted first). A run of the table that
-- belongs on the page and is not shown is behind the cursor of the next page, and then the page is
-- full; no run that is shown is behind that cursor.
pub list_runs-IsListing :
    (db : Db) (conversation : Option ConversationId) (statuses : Option (List RunStatus))
    (before : Option ListCursor) (limit : ℕ)
    → IsListing
        (λ r. r.created_at)
        (IsAskedFor conversation statuses)
        before
        limit
        db.runs
        (list_runs db conversation statuses before limit)
unfolding list_runs
list_runs-IsListing db conversation statuses before limit =
    page_of-IsListing (λ r. r.created_at) (IsAskedFor conversation statuses)
      (is_listed conversation statuses) before limit db.runs (is_listed_iff conversation statuses)

-- A page of list_conversations shows conversations of the table that are behind the cursor: at most
-- as many as asked for and at most 200, strictly newest first. One that is behind the cursor and is
-- not shown is behind the cursor of the next page, and then the page is full; none that is shown is
-- behind that cursor.
pub list_conversations-IsListing :
    (db : Db) (before : Option ListCursor) (limit : ℕ)
    → IsListing
        (λ c. c.created_at)
        (λ c. Unit)
        before
        limit
        db.conversations
        (list_conversations db before limit)
unfolding list_conversations
list_conversations-IsListing db before limit =
    page_of-IsListing (λ c. c.created_at) (λ c. Unit) (λ x. true) before limit db.conversations
      (λ x. (λ h. tt, λ h. refl))

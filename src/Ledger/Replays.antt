-- ===== src/Ledger/Replays.antt =====
-- What an idempotency key does to a repeated request of the ledger.
use model_lib.Prelude.{
  ◌≡◌, ◌≢◌, refl, sym, ap, ◌∙◌, Bool, true, false, ◌&&◌, Option, none, some, List, [], ◌∷◌, ◌++◌,
  Text, text_eq, ◌==◌, text_beq_iff, arith, find, any, is_some, Result, ok, err, Ensures,
  Ensures->>=, Ensures-ok,
}
use model_lib.Run.Ids.{RunId}
use model_lib.Ledger.Models.{
  RunRow, NewRun, PersistedEvent, EventType, Payload, IdempotencyRecord, Millis,
}
use model_lib.Ledger.Errors.{LedgerError}
use model_lib.Ledger.Tables.{Db, load_run, has_run_id, insert_run, insert_idempotency}
use model_lib.Ledger.Queries.{find-append, find-any}
use model_lib.Ledger.Idempotency.{
  IdemOutcome, find_record, check, check_optional, record_key, record_optional, replay_or,
}
use model_lib.Ledger.Events.{Supply, with_tx, emit_event, run_event, read_back}
use model_lib.Ledger.Runs.{create_run_inner, add_run, new_run, chosen_id}
use model_lib.Ledger.Steps.{insert_run-eq-ok, insert_idempotency-eq-ok, emit_event-eq-ok}

abbrev key_record : Text → Text → Text → Text → Millis → IdempotencyRecord
key_record scope key digest reference now = record {
  scope = scope;
  key = key;
  request_digest = digest;
  result_reference = reference;
  created_at = now;
}

-- What a first request with a key leaves: the row of the run, and the key bound to the request.
IsCreated : Db → RunRow → IdempotencyRecord → RunRow × Db → Type 0
IsCreated db row bound r =
    (r.0 ≡ row)
    × (has_run_id db row.run_id ≡ false)
    × (r.1.runs ≡ db.runs ++ row ∷ [])
    × (r.1.idempotency ≡ db.idempotency ++ bound ∷ [])

add_run-IsCreated :
    (db : Db) (supply : Supply) (request : NewRun) (id : RunId) (scope key digest : Text)
    → Ensures
        (IsCreated db (new_run supply request id) (key_record scope key digest id supply.now))
        (add_run db supply request id scope (some key) digest)
unfolding add_run record_optional record_key new_run IsCreated
add_run-IsCreated db supply request id scope key digest =
    Ensures->>= (λ (db1 : Db) (inserted : insert_run db (new_run supply request id) ≡ ok db1).
      Ensures->>=
        (λ (p : PersistedEvent × Db)
            (emitted : emit_event db1
                (run_event supply.event_id request.conversation_id id EventType.run_created
                  (Payload.agent_role request.agent request.role))
                supply.now
              ≡ ok p).
          Ensures->>=
            (λ (db3 : Db)
                (recorded : insert_idempotency p.1 (key_record scope key digest id supply.now)
                  ≡ ok db3).
              let (fresh, e1) = insert_run-eq-ok db (new_run supply request id) inserted in
              let e2 =
                emit_event-eq-ok db1
                  (run_event supply.event_id request.conversation_id id EventType.run_created
                    (Payload.agent_role request.agent request.role))
                  supply.now {stored = p.0} {after = p.1} emitted in
              let e3 =
                insert_idempotency-eq-ok p.1 (key_record scope key digest id supply.now) recorded in
              Ensures-ok _ (
                refl,
                fresh,
                sym (ap (λ d. d.runs) e1 ∙ (ap (λ d. d.runs) e2 ∙ ap (λ d. d.runs) e3)),
                sym (
                    ap (λ i. i ++ key_record scope key digest id supply.now ∷ [])
                      (ap (λ d. d.idempotency) e1 ∙ ap (λ d. d.idempotency) e2)
                    ∙ ap (λ d. d.idempotency) e3),
              ))))

find-last {ℓ} :
    {A : Type ℓ} (p : A → Bool) (xs : List A) (x : A)
    → any p xs ≡ false
    → p x ≡ true
    → find p (xs ++ x ∷ []) ≡ some x
find-last p xs x none_before holds =
    let a = find-append p xs x in let b = find-any p xs in ground arith

check-unused :
    (db : Db) (scope key digest : Text)
    → find_record db scope key ≡ none
    → check db scope key digest ≡ ok IdemOutcome.fresh
unfolding check
check-unused db scope key digest h = ground arith

check-bound :
    (db : Db) (scope key digest : Text) (r : IdempotencyRecord)
    → find_record db scope key ≡ some r
    → r.request_digest == digest ≡ true
    → check db scope key digest ≡ ok (IdemOutcome.replayed r.result_reference)
unfolding check
check-bound db scope key digest r h e = ground arith

read_back-found {ℓ} :
    {A : Type ℓ} (db : Db) (o : Option A) (e : LedgerError) (a : A)
    → o ≡ some a
    → read_back db o e ≡ ok (a, db)
unfolding read_back
read_back-found db o e a h = rw h

with_tx-ok {ℓ} :
    {A : Type ℓ} (work : Db → Result LedgerError (A × Db)) (db after : Db) (a : A)
    → work db ≡ ok (a, after)
    → with_tx work db ≡ (ok a, after)
unfolding with_tx
with_tx-ok work db after a h = rw (h, with_tx)

first_run :
    (db : Db) (supply : Supply) (request : NewRun) (id : Option RunId) (scope key digest : Text)
    → find_record db scope key ≡ none
    → add_run db supply request (chosen_id id supply) scope (some key) digest
      ≡ create_run_inner supply request id scope (some key) digest db
unfolding create_run_inner check_optional replay_or
first_run db supply request id scope key digest unused =
    rw (check-unused db scope key digest unused)

same_text : (t : Text) → t == t ≡ true
same_text t = (text_beq_iff t t).1 refl

-- The key that a first request has bound.
key_bound :
    (db after : Db) (supply : Supply) (request : NewRun) (made : RunId) (scope key digest : Text)
    (run : RunRow)
    → find_record db scope key ≡ none
    → add_run db supply request made scope (some key) digest ≡ ok (run, after)
    → find_record after scope key ≡ some (key_record scope key digest made supply.now)
unfolding find_record IsCreated new_run
key_bound db after supply request made scope key digest run unused added =
    let (is_row, fresh, runs, keys) =
      (add_run-IsCreated db supply request made scope key digest).holds (run, after) added in
    let p = λ (i : IdempotencyRecord). i.scope == scope && i.key == key in
    let a = same_text scope in
    let b = same_text key in
    ap (find p) keys
    ∙ find-last p db.idempotency (key_record scope key digest made supply.now)
        (sym (find-any p db.idempotency) ∙ ap is_some unused) (ground arith)

replay_run :
    (db after : Db) (supply again : Supply) (request : NewRun) (id : Option RunId)
    (scope key digest : Text) (run : RunRow)
    → find_record db scope key ≡ none
    → add_run db supply request (chosen_id id supply) scope (some key) digest ≡ ok (run, after)
    → create_run_inner again request id scope (some key) digest after ≡ ok (run, after)
unfolding create_run_inner check_optional replay_or load_run IsCreated new_run has_run_id
replay_run db after supply again request id scope key digest run unused added =
    let made = chosen_id id supply in
    let (is_row, fresh, runs, keys) =
      (add_run-IsCreated db supply request made scope key digest).holds (run, after) added in
    let q = λ (r : RunRow). r.run_id == made in
    let row =
      ap (find q) runs ∙ find-last q db.runs (new_run supply request made) fresh (same_text made) in
    rw
      (check-bound after scope key digest (key_record scope key digest made supply.now)
        (key_bound db after supply request made scope key digest run unused added)
        (same_text digest))
      (read_back-found after (load_run after made) _ (new_run supply request made) row
        ∙ ap (λ r. ok (r, after)) (sym is_row))

-- A run asked for again with the key and the request of a call that made one is answered with that
-- run, and the ledger stays as it is; the time and the ids of the second call do not matter.
pub create_run_inner-replay :
    (db after : Db) (supply again : Supply) (request : NewRun) (id : Option RunId)
    (scope key digest : Text) (run : RunRow)
    → find_record db scope key ≡ none
    → create_run_inner supply request id scope (some key) digest db ≡ ok (run, after)
    → with_tx (create_run_inner again request id scope (some key) digest) after ≡ (ok run, after)
create_run_inner-replay db after supply again request id scope key digest run unused first =
    with_tx-ok (create_run_inner again request id scope (some key) digest) after after run (
      replay_run db after supply again request id scope key digest run unused
        (first_run db supply request id scope key digest unused ∙ first))

check-other :
    (db : Db) (scope key digest other : Text) (bound : IdempotencyRecord)
    → find_record db scope key ≡ some bound
    → bound.request_digest ≡ digest
    → digest ≢ other
    → check db scope key other ≡ err (LedgerError.idempotency_conflict scope key)
unfolding check
check-other db scope key digest other bound found e differ =
    let d = text_beq_iff bound.request_digest other in
    let apart = λ (h : bound.request_digest == other ≡ true). differ (sym e ∙ d.0 h) in ground arith

with_tx-err {ℓ} :
    {A : Type ℓ} (work : Db → Result LedgerError (A × Db)) (db : Db) (e : LedgerError)
    → work db ≡ err e
    → with_tx work db ≡ (err e, db)
unfolding with_tx
with_tx-err work db e h = rw (h, with_tx)

create_run_inner-err :
    (supply : Supply) (request : NewRun) (id : Option RunId) (scope key digest : Text) (db : Db)
    (e : LedgerError)
    → check db scope key digest ≡ err e
    → create_run_inner supply request id scope (some key) digest db ≡ err e
unfolding create_run_inner check_optional
create_run_inner-err supply request id scope key digest db e h = rw h

-- Once a call has made a run with a key, a call with that key and another request (one with another
-- digest) is refused as a conflict, and the ledger stays as the first call left it; what the other
-- request asks for, the time and the ids of the second call do not matter.
pub create_run_inner-conflict :
    (db after : Db) (supply again : Supply) (request asked : NewRun) (id wanted : Option RunId)
    (scope key digest other : Text) (run : RunRow)
    → find_record db scope key ≡ none
    → create_run_inner supply request id scope (some key) digest db ≡ ok (run, after)
    → digest ≢ other
    → with_tx (create_run_inner again asked wanted scope (some key) other) after
      ≡ (err (LedgerError.idempotency_conflict scope key), after)
create_run_inner-conflict db after supply again request asked id wanted scope key digest other run
      unused first differ =
    let bound =
      key_bound db after supply request (chosen_id id supply) scope key digest run unused
        (first_run db supply request id scope key digest unused ∙ first) in
    with_tx-err (create_run_inner again asked wanted scope (some key) other) after _ (
      create_run_inner-err again asked wanted scope key other after _
        (check-other after scope key digest other _ bound refl differ))

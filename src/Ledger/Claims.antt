-- ===== src/Ledger/Claims.antt =====
-- Claims of a stale command, and the numbers of the ledger within their machine types.
use model_lib.Prelude.{
  suc, ◌^◌, ◌<◌, ◌≡◌, refl, sym, ap, ◌∙◌, Bool, false, text_eq, nat_eq, ◌==◌, leb, arith, ok,
  ok_injective, Ensures, Ensures->>=, Ensures->>, Ensures-ok, reject,
}
use model_lib.Ledger.Models.{CommandId, Millis, NewEvent}
use model_lib.Ledger.Errors.{LedgerError}
use model_lib.Ledger.Tables.{Db, max_i64, count_where, insert_event}
use model_lib.Ledger.Queries.{count_where-update_where_zero}
use model_lib.Ledger.Events.{Supply, emit_event, numbered, last_sequence}
use model_lib.Ledger.Commands.{
  update_commands, later_than, is_stale, claim_stale_command_for_redrive_tx,
}

later_than-differs :
    (now expected : Millis) → expected < max_i64 → later_than now expected == expected ≡ false
unfolding later_than
later_than-differs now expected h = ground arith

none_stale :
    (id : CommandId) (now expected : Millis) (db : Db)
    → expected < max_i64
    → count_where
        (is_stale id expected)
        (update_commands
          (is_stale id expected)
          (λ c. record c { updated_at = later_than now expected })
          db).commands
      ≡ 0
unfolding update_commands is_stale
none_stale id now expected db h =
    let differs = later_than-differs now expected h in
    count_where-update_where_zero (is_stale id expected) (is_stale id expected)
      (λ c. record c { updated_at = later_than now expected }) db.commands (λ c q. ground arith)
      (λ c q. q)

-- Of two claims of a command that expect the same time of its last change, the second fails,
-- whenever each of them runs, also in the same millisecond; the time expected is below the largest
-- that the database holds.
pub claim_stale_command_for_redrive_tx-once :
    (supply again : Supply) (id : CommandId) (expected : Millis) (db after : Db) (claimed : Bool)
    → expected < max_i64
    → claim_stale_command_for_redrive_tx supply id expected db ≡ ok (claimed, after)
    → (last : Db) × (claim_stale_command_for_redrive_tx again id expected after ≡ ok (false, last))
unfolding claim_stale_command_for_redrive_tx
claim_stale_command_for_redrive_tx-once supply again id expected db after claimed h first =
    let e = ap (λ r. r.1) (ok_injective first) in
    let z =
      ap (λ d. count_where (is_stale id expected) d.commands) (sym e)
      ∙ none_stale id supply.now expected db h in
    (
      _,
      ap
          (λ n. ok (
            n == 1,
            update_commands (is_stale id expected)
                (λ c. record c { updated_at = later_than again.now expected }) after,
          ))
          z,
    )

-- An event that is stored has the next number of its conversation, and that fits a signed 64-bit
-- integer; past the largest the operation fails.
pub emit_event-bounds :
    (db : Db) (event : NewEvent) (now : Millis)
    → Ensures
        (λ r.
          (r.0.sequence ≡ suc (last_sequence db event.conversation_id)) × (r.0.sequence < 2 ^ 63))
        (emit_event db event now)
unfolding emit_event numbered
emit_event-bounds db event now =
    Ensures->>
      (λ (fits : reject (leb max_i64 (last_sequence db event.conversation_id))
            (LedgerError.integrity event.conversation_id)
          ≡ ok tt).
        Ensures->>=
          (λ (db1 : Db)
              (inserted : insert_event db
                  (numbered event (suc (last_sequence db event.conversation_id)) now)
                ≡ ok db1).
            Ensures-ok _ (refl, ground arith)))

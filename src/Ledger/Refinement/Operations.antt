-- ===== src/Ledger/Refinement/Operations.antt =====
-- Every operation of the ledger makes steps of the specification.
use model_lib.Prelude.{
  ◌≡◌, refl, ◌⊎◌, inl, inr, Option, Text, Bytes, Result, ok, err, ◌>>=◌, Result-cases, Ensures->>=,
  subst, sym, ap, ok_injective,
}
use model_lib.Run.Ids.{Sha256}
use model_lib.Ledger.Models.{CommandStatus}
use model_lib.Ledger.Errors.{LedgerError}
use model_lib.Ledger.Tables.{Db, is_in_flight}
use model_lib.Ledger.Idempotency.{Request, request_digest}
use model_lib.Ledger.Events.{with_tx}
use model_lib.Ledger.Operations.{Op, forget, transaction, perform}
use model_lib.Ledger.Machine.{Steps}
use model_lib.Ledger.Steps.{Steps-refl}
use model_lib.Ledger.Refinement.{Advances, emit_event-Advances}
use model_lib.Ledger.Refinement.Runs.{
  create_conversation_tx-Advances, create_run_inner-Advances, set_run_status_tx-Advances,
  create_attempt_tx-Advances, set_attempt_status_tx-Advances, append_user_message_tx-Advances,
  append_system_note_tx-Advances, set_provider_session_tx-Advances,
}
use model_lib.Ledger.Refinement.Recovery.{
  mark_interrupted_tx-Advances, resume_interrupted_run_tx-Advances,
  repair_interrupted_run_to_terminal_tx-Advances,
}
use model_lib.Ledger.Refinement.Commands.{
  IsGuarded, create_command_tx-Advances, bind_command_child_run_tx-Advances,
  set_command_status_tx-Advances, rebind_command_child_run_tx-Advances,
  claim_stale_command_for_redrive_tx-Advances, reconcile_completed_commands_tx-Advances,
}
use model_lib.Ledger.Refinement.Outcomes.{
  rebind_command_child_run_if_current_tx-Advances, mark_command_completed_if_bound_tx-Advances,
  mark_command_completed_if_bound_and_terminal_tx-Advances,
  mark_command_rejected_if_unattached_and_bound_tx-Advances,
}

-- The one operation that may bring a settled command back is the first binding of a child.
abbrev pub KeepsSettled : Op → Db → Type 0
KeepsSettled (Op.bind_command_child_run supply id run) db = IsGuarded id db
KeepsSettled _ db = Unit

module _ {ℓ} {A : Type ℓ} {P : Type 0} where
  forget-Advances :
      (db : Db) (m : Result LedgerError (A × Db)) → Advances P db m → Advances P db (forget m)
  unfolding forget
  forget-Advances db (ok r) h = record {
    holds = λ b e. subst (Steps P db) (ap (λ x. x.1) (ok_injective e)) (h.holds r refl);
  }
  forget-Advances db (err e) h = record { holds = λ b q. cc }

  -- A transaction commits what its body did, or nothing.
  with_tx-Steps :
      (work : Db → Result LedgerError (A × Db)) (db : Db)
      → Advances P db (work db)
      → Steps P db (with_tx work db).1
  unfolding with_tx
  with_tx-Steps work db h =
      let committed = λ (m : Result LedgerError (A × Db)).
        Steps P db
          (elim m as (λ _. Result LedgerError A × Db) [
            | ok r ↦ (ok r.0, r.1)
            | err e ↦ (err e, db)
          ]).1 in
      elim (Result-cases (work db)) [
        | inl (r, done) ↦ subst committed (sym done) (h.holds r done)
        | inr (e, failed) ↦ subst committed (sym failed) (Steps-refl db)
      ]

module _ (P : Type 0) (sha : Sha256) (to_vec : Request → Option Bytes) where
  after_digest :
      (db : Db) (request : Request) (k : Text → Result LedgerError (Unit {0} × Db))
      → ((t : Text) → Advances P db (k t))
      → Advances P db (request_digest sha to_vec request >>= k)
  after_digest db request k h =
      Ensures->>= (λ (t : Text) (_ : request_digest sha to_vec request ≡ ok t). h t)

  transaction-Advances :
      (op : Op) (db : Db) → P ⊎ KeepsSettled op db → Advances P db (transaction sha to_vec op db)
  unfolding transaction is_in_flight
  transaction-Advances (Op.create_conversation supply key) db g =
      forget-Advances db _ (create_conversation_tx-Advances P supply key _ db)
  transaction-Advances (Op.create_run supply request key) db g =
      after_digest db _ _
        (λ t. forget-Advances db _ (create_run_inner-Advances P supply request _ _ key t db))
  transaction-Advances (Op.create_run_with_id supply request id key) db g =
      after_digest db _ _
        (λ t. forget-Advances db _ (create_run_inner-Advances P supply request _ _ _ t db))
  transaction-Advances (Op.start_run supply id) db g =
      forget-Advances db _ (set_run_status_tx-Advances P supply id _ _ db)
  transaction-Advances (Op.complete_run supply id) db g =
      forget-Advances db _ (set_run_status_tx-Advances P supply id _ _ db)
  transaction-Advances (Op.fail_run supply id) db g =
      forget-Advances db _ (set_run_status_tx-Advances P supply id _ _ db)
  transaction-Advances (Op.cancel_run supply id) db g =
      forget-Advances db _ (set_run_status_tx-Advances P supply id _ _ db)
  transaction-Advances (Op.interrupt_run supply id) db g =
      forget-Advances db _ (set_run_status_tx-Advances P supply id _ _ db)
  transaction-Advances (Op.block_run supply id) db g =
      forget-Advances db _ (set_run_status_tx-Advances P supply id _ _ db)
  transaction-Advances (Op.error_run supply id) db g =
      forget-Advances db _ (set_run_status_tx-Advances P supply id _ _ db)
  transaction-Advances (Op.create_attempt supply id) db g =
      forget-Advances db _ (create_attempt_tx-Advances P supply id db)
  transaction-Advances (Op.set_attempt_status supply id target) db g =
      forget-Advances db _ (set_attempt_status_tx-Advances P supply id target db)
  transaction-Advances (Op.resume_interrupted_run supply id) db g =
      forget-Advances db _ (resume_interrupted_run_tx-Advances P supply id db)
  transaction-Advances (Op.repair_interrupted_run_to_terminal supply id target) db g =
      forget-Advances db _ (repair_interrupted_run_to_terminal_tx-Advances P supply id target db)
  transaction-Advances (Op.create_command supply request key) db g =
      after_digest db _ _
        (λ t. forget-Advances db _ (create_command_tx-Advances P supply request key t db))
  transaction-Advances (Op.bind_command_child_run supply id run) db g =
      forget-Advances db _ (bind_command_child_run_tx-Advances P supply id run db g)
  transaction-Advances (Op.rebind_command_child_run supply id run) db g =
      forget-Advances db _ (rebind_command_child_run_tx-Advances P supply id run db)
  transaction-Advances (Op.mark_command_completed supply id) db g =
      forget-Advances db _
        (set_command_status_tx-Advances P supply id CommandStatus.completed db refl)
  transaction-Advances (Op.mark_command_rejected supply id) db g =
      forget-Advances db _
        (set_command_status_tx-Advances P supply id CommandStatus.rejected db refl)
  transaction-Advances (Op.claim_stale_command_for_redrive supply id expected) db g =
      forget-Advances db _ (claim_stale_command_for_redrive_tx-Advances P supply id expected db)
  transaction-Advances (Op.rebind_command_child_run_if_current supply id old expected run) db g =
      forget-Advances db _
        (rebind_command_child_run_if_current_tx-Advances P supply id old expected run db)
  transaction-Advances (Op.mark_command_completed_if_bound supply id run) db g =
      forget-Advances db _ (mark_command_completed_if_bound_tx-Advances P supply id run db)
  transaction-Advances (Op.mark_command_completed_if_bound_and_terminal supply id run) db g =
      forget-Advances db _
        (mark_command_completed_if_bound_and_terminal_tx-Advances P supply id run db)
  transaction-Advances (Op.mark_command_rejected_if_unattached_and_bound supply id run) db g =
      forget-Advances db _
        (mark_command_rejected_if_unattached_and_bound_tx-Advances P supply id run db)
  transaction-Advances (Op.reconcile_completed_commands supply) db g =
      forget-Advances db _ (reconcile_completed_commands_tx-Advances P supply db)
  transaction-Advances (Op.set_run_provider_session id session) db g =
      forget-Advances db _ (set_provider_session_tx-Advances P id session db)
  transaction-Advances (Op.append_user_message supply conversation payload run key) db g =
      after_digest db _ _ (λ t.
        forget-Advances db _
          (append_user_message_tx-Advances P supply conversation payload run key t db))
  transaction-Advances (Op.append_system_note supply conversation run attempt payload key) db g =
      after_digest db _ _ (λ t.
        forget-Advances db _
          (append_system_note_tx-Advances P supply conversation run attempt payload key t db))
  transaction-Advances (Op.append_event supply event) db g =
      forget-Advances db _ (emit_event-Advances db event supply.now)
  transaction-Advances (Op.mark_interrupted supply later state) db g =
      forget-Advances db _ (mark_interrupted_tx-Advances P supply later state db)

  pub perform-Steps_unless :
      (op : Op) (db : Db) → P ⊎ KeepsSettled op db → Steps P db (perform sha to_vec op db).1
  unfolding perform
  perform-Steps_unless op db g =
      with_tx-Steps (transaction sha to_vec op) db (transaction-Advances op db g)

-- ===== src/Ledger/Invariants.antt =====
-- What every history of operations of the ledger keeps, by the specification that they refine.
use model_lib.Prelude.{◌≤◌, ◌≡◌, true, inl, inr, Option, some, List, [], ◌∷◌, ◌++◌, Bytes, arith}
use model_lib.Run.Ids.{RunId, Sha256}
use model_lib.Ledger.Models.{ConversationId, RunStatus, is_terminal, PersistedEvent}
use model_lib.Ledger.Tables.{Db}
use model_lib.Ledger.Idempotency.{Request}
use model_lib.Ledger.Commands.{in_flight}
use model_lib.Ledger.Operations.{Op, perform, perform_all}
use model_lib.Ledger.Machine.{
  view, IsSound, RunMoves-IsSound, RunMoves-terminal, Steps, Steps-trans,
}
use model_lib.Ledger.Log.{IsNumbered, Grown-IsNumbered, Grown-prefix}
use model_lib.Ledger.Steps.{Steps-refl}
use model_lib.Ledger.Refinement.Operations.{KeepsSettled, perform-Steps_unless}

module _ (sha : Sha256) (to_vec : Request → Option Bytes) where
  -- A history of operations, whatever each one is called with and whether it fails, changes the
  -- ledger only by moves of its specification: the log of events grows by events numbered next in
  -- their conversation, and every run moves as the machine of a run does.
  pub perform_all-Steps : (ops : List Op) (db : Db) → Steps Unit db (perform_all sha to_vec ops db)
  unfolding perform_all
  perform_all-Steps [] db = Steps-refl db
  perform_all-Steps (op ∷ ops) db =
      Steps-trans (perform-Steps_unless Unit sha to_vec op db (inl tt))
        (perform_all-Steps ops (perform sha to_vec op db).1)

  -- The events of a conversation that are numbered 1, 2, 3, ... without a gap, in the order of
  -- their insertion, are so numbered after every history of operations.
  pub perform_all-IsNumbered :
      (ops : List Op) (db : Db) (id : ConversationId)
      → IsNumbered id db.events
      → IsNumbered id (perform_all sha to_vec ops db).events
  perform_all-IsNumbered ops db id h = Grown-IsNumbered id (perform_all-Steps ops db).events h

  -- Events are append-only: after every history of operations the log is the old one, event for
  -- event, followed by new ones.
  pub perform_all-prefix :
      (ops : List Op) (db : Db)
      → (new : List PersistedEvent) × ((perform_all sha to_vec ops db).events ≡ db.events ++ new)
  perform_all-prefix ops db = Grown-prefix (perform_all-Steps ops db).events

  -- A run that has at most one running attempt, and none unless it is running itself, has so after
  -- every history of operations.
  pub perform_all-IsSound :
      (ops : List Op) (db : Db) (id : RunId)
      → IsSound (view id db)
      → IsSound (view id (perform_all sha to_vec ops db))
  perform_all-IsSound ops db id h = RunMoves-IsSound ((perform_all-Steps ops db).runs id) h

  -- A run that has reached a terminal status has the same status after every history of operations.
  pub perform_all-terminal :
      (ops : List Op) (db : Db) (id : RunId) (s : RunStatus)
      → is_terminal s ≡ true
      → (view id db).status ≡ some s
      → (view id (perform_all sha to_vec ops db)).status ≡ some s
  perform_all-terminal ops db id s terminal h =
      RunMoves-terminal ((perform_all-Steps ops db).runs id) s terminal h

  -- An operation, provided that it does not give a first child to a command that is completed or
  -- rejected, leaves at most one command of a conversation accepted or started when there was at
  -- most one.
  pub perform-in_flight :
      (op : Op) (db : Db) (id : ConversationId)
      → KeepsSettled op db
      → in_flight id db.commands ≤ 1
      → in_flight id (perform sha to_vec op db).1.commands ≤ 1
  perform-in_flight op db id keeps h =
      elim ((perform-Steps_unless ⊥ sha to_vec op db (inr keeps)).commands id) [
        | inl impossible ↦ absurd impossible
        | inr (inl le) ↦ le
        | inr (inr le) ↦ omega arith
      ]

-- ===== src/Ledger/Steps/Commands.antt =====
-- What the statements on commands do, as steps of the specification.
use model_lib.Prelude.{
  ℕ, suc, ◌≡◌, refl, subst, ◌⊎◌, inl, inr, Bool, true, false, ◌&&◌, [], ◌∷◌, ◌++◌, Text, text_eq,
  ◌==◌, arith, All, All-impl, if◌then◌else◌, text_beq_iff, ok,
}
use model_lib.Ledger.Models.{Command}
use model_lib.Ledger.Tables.{Db, is_in_flight, load_run, insert_command}
use model_lib.Ledger.Queries.{
  count_where-update_where, count_where-update_where-All, count_where-append,
}
use model_lib.Ledger.Commands.{in_flight, update_commands}
use model_lib.Ledger.Machine.{view, RunMoves, Grown, Flight, Steps}
use model_lib.Ledger.Steps.{insert_command-eq-ok}

Flight-if :
    {P : Type 0} (m n : ℕ) (a b : Bool)
    → n ≡ (if a && b then suc m else m)
    → (a ≡ true → m ≡ 0)
    → Flight P m n
Flight-if m n true b e k = let z = k refl in inr (inl (ground arith))
Flight-if m n false b e k = inr (inr (ground arith))

both_again :
    (a b id : Text) (p q : Bool)
    → a ≡ b
    → (p ≡ true → q ≡ true)
    → (a == id && p) ≡ true
    → (b == id && q) ≡ true
both_again a b id p q same keeps t = ground arith

module _ {P : Type 0} where
  pub insert_command-Steps :
      (db : Db) (r : Command) {after : Db}
      → in_flight r.conversation_id db.commands ≡ 0
      → insert_command db r ≡ ok after
      → Steps P db after
  unfolding view load_run in_flight
  insert_command-Steps db r none_in_flight h =
      subst (Steps P db) (insert_command-eq-ok db r h) (record {
        events = Grown.same db.events;
        runs = λ id. RunMoves.done (view id db);
        commands = λ id.
            Flight-if (in_flight id db.commands) (in_flight id (db.commands ++ r ∷ []))
              (r.conversation_id == id) (is_in_flight r.status)
              (count_where-append (λ c. c.conversation_id == id && is_in_flight c.status)
                db.commands r)
              (λ same.
                subst (λ k. in_flight k db.commands ≡ 0)
                  ((text_beq_iff r.conversation_id id).0 same) none_in_flight);
      })

  -- An UPDATE of commands that brings none of them in flight.
  pub update_commands-Steps :
      (db : Db) (q : Command → Bool) (f : Command → Command)
      → ((c : Command) → (f c).conversation_id ≡ c.conversation_id)
      → ((c : Command)
          → q c ≡ true
          → is_in_flight (f c).status ≡ true
          → is_in_flight c.status ≡ true)
      → Steps P db (update_commands q f db)
  unfolding view load_run update_commands in_flight
  update_commands-Steps db q f same keeps = record {
    events = Grown.same db.events;
    runs = λ id. RunMoves.done (view id db);
    commands = λ id. inr (
        inr (
          count_where-update_where (λ c. c.conversation_id == id && is_in_flight c.status) q f
            db.commands
            (λ c p t.
              both_again (f c).conversation_id c.conversation_id id (is_in_flight (f c).status)
                (is_in_flight c.status) (same c) (keeps c p) t)));
  }

  -- An UPDATE of the commands of the table that brings none of them in flight, unless `P`.
  pub update_commands-Steps-All :
      (db : Db) (q : Command → Bool) (f : Command → Command)
      → ((c : Command) → (f c).conversation_id ≡ c.conversation_id)
      → P ⊎ All (λ c. q c ≡ true → is_in_flight c.status ≡ true) db.commands
      → Steps P db (update_commands q f db)
  unfolding view load_run update_commands in_flight
  update_commands-Steps-All db q f same (inl p) = record {
    events = Grown.same db.events;
    runs = λ id. RunMoves.done (view id db);
    commands = λ id. inl p;
  }
  update_commands-Steps-All db q f same (inr keeps) = record {
    events = Grown.same db.events;
    runs = λ id. RunMoves.done (view id db);
    commands = λ id. inr (
        inr (
          count_where-update_where-All (λ c. c.conversation_id == id && is_in_flight c.status) q f
            db.commands
            (All-impl db.commands
              (λ c k p t.
                both_again (f c).conversation_id c.conversation_id id (is_in_flight (f c).status)
                  (is_in_flight c.status) (same c) (λ _. k p) t)
              keeps)));
  }

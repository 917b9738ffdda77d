-- ===== src/Ledger/Machine.antt =====
-- What the ledger promises, told apart from its tables: the machine of one run, the log of events,
-- and the commands in flight of a conversation.
use model_lib.Prelude.{
  ℕ, suc, ◌≤◌, ◌≡◌, refl, sym, subst, some_injective, ◌⊎◌, inl, inr, true, false, Option, none,
  some, List, [], ◌∷◌, ◌++◌, text_eq, ◌==◌, arith, filter, map,
}
use model_lib.Run.Ids.{RunId}
use model_lib.Ledger.Models.{ConversationId, RunStatus, is_terminal, PersistedEvent}
use model_lib.Ledger.Transitions.{run_transition_allowed}
use model_lib.Ledger.Tables.{Db, max_where, load_run, running_count}
use model_lib.Ledger.Queries.{map_option}
use model_lib.Ledger.Commands.{in_flight}

-- What a run shows: its status, when it exists, and the number of its running attempts.
pub record View : Type 0 where
  pub status : Option RunStatus
  pub running : ℕ

unfoldable pub view : RunId → Db → View
view id db = record {
  status = map_option (λ r. r.status) (load_run db id);
  running = running_count id db.attempts;
}

abbrev pub at : Option RunStatus → ℕ → View
at status running = record { status = status; running = running }

-- One move of a run.
pub data RunMove : View → View → Type 0 where
  attempts_close : (s : Option RunStatus) (m n : ℕ) → n ≤ m → RunMove (at s m) (at s n)
  created : (n : ℕ) → RunMove (at none n) (at (some RunStatus.queued) n)
  started : (n : ℕ) → RunMove (at (some RunStatus.queued) n) (at (some RunStatus.running) n)
  left :
      (target : RunStatus) (n : ℕ)
      → run_transition_allowed RunStatus.running target ≡ true
      → RunMove (at (some RunStatus.running) n) (at (some target) 0)
  resumed : (n : ℕ) → RunMove (at (some RunStatus.interrupted) n) (at (some RunStatus.running) 0)
  repaired :
      (target : RunStatus) (m n : ℕ)
      → is_terminal target ≡ true
      → n ≤ m
      → RunMove (at (some RunStatus.interrupted) m) (at (some target) n)
  attempted : RunMove (at (some RunStatus.running) 0) (at (some RunStatus.running) 1)

pub data RunMoves : View → View → Type 0 where
  done : (v : View) → RunMoves v v
  next : {u v w : View} → RunMove u v → RunMoves v w → RunMoves u w

pub RunMoves-trans : {u v w : View} → RunMoves u v → RunMoves v w → RunMoves u w
RunMoves-trans (RunMoves.done v) n = n
RunMoves-trans (RunMoves.next a m) n = RunMoves.next a (RunMoves-trans m n)

pub RunMoves-one : {u v : View} → RunMove u v → RunMoves u v
RunMoves-one a = RunMoves.next a (RunMoves.done _)

-- At most one running attempt, and only while the run is running.
abbrev pub IsSound : View → Type 0
IsSound v = (v.running ≤ 1) × ((v.status ≡ some RunStatus.running) ⊎ (v.running ≡ 0))

RunMove-IsSound : {u v : View} → RunMove u v → IsSound u → IsSound v
RunMove-IsSound (RunMove.attempts_close s m n le) h = ground arith
RunMove-IsSound (RunMove.created n) h = ground arith
RunMove-IsSound (RunMove.started n) h = (h.0, inl refl)
RunMove-IsSound (RunMove.left target n ok) h = (omega arith, inr refl)
RunMove-IsSound (RunMove.resumed n) h = (omega arith, inl refl)
RunMove-IsSound (RunMove.repaired target m n t le) h = ground arith
RunMove-IsSound RunMove.attempted h = (omega arith, inl refl)

pub RunMoves-IsSound : {u v : View} → RunMoves u v → IsSound u → IsSound v
RunMoves-IsSound (RunMoves.done v) h = h
RunMoves-IsSound (RunMoves.next a m) h = RunMoves-IsSound m (RunMove-IsSound a h)

no-terminal :
    (r s : RunStatus)
    → is_terminal r ≡ false
    → is_terminal s ≡ true
    → ◌≡◌ {A = Option RunStatus} (some r) (some s)
    → ⊥
no-terminal r s f t h = let e = subst (λ x. is_terminal x ≡ true) (sym (some_injective h)) t in cc

RunMove-terminal :
    {u v : View}
    → RunMove u v
    → (s : RunStatus) → is_terminal s ≡ true
    → u.status ≡ some s
    → v.status ≡ some s
unfolding is_terminal
RunMove-terminal (RunMove.attempts_close _ m n le) s t h = h
RunMove-terminal (RunMove.created n) s t h = cc
RunMove-terminal (RunMove.started n) s t h = absurd (no-terminal _ s refl t h)
RunMove-terminal (RunMove.left target n ok) s t h = absurd (no-terminal _ s refl t h)
RunMove-terminal (RunMove.resumed n) s t h = absurd (no-terminal _ s refl t h)
RunMove-terminal (RunMove.repaired target m n _ le) s t h = absurd (no-terminal _ s refl t h)
RunMove-terminal RunMove.attempted s t h = h

pub RunMoves-terminal :
    {u v : View}
    → RunMoves u v
    → (s : RunStatus) → is_terminal s ≡ true
    → u.status ≡ some s
    → v.status ≡ some s
RunMoves-terminal (RunMoves.done v) s t h = h
RunMoves-terminal (RunMoves.next a m) s t h = RunMoves-terminal m s t (RunMove-terminal a s t h)

-- The numbers of a conversation's events, in the order of their insertion.
unfoldable pub sequences : ConversationId → List PersistedEvent → List ℕ
sequences id events = map (λ e. e.sequence) (filter (λ e. e.conversation_id == id) events)

-- A log that has grown by events that were numbered after the last of their conversation.
pub data Grown : List PersistedEvent → List PersistedEvent → Type 0 where
  same : (es : List PersistedEvent) → Grown es es
  added :
      {es fs : List PersistedEvent}
      → (e : PersistedEvent)
      → e.sequence
        ≡ suc (max_where (λ x. x.conversation_id == e.conversation_id) (λ x. x.sequence) es)
      → Grown (es ++ e ∷ []) fs
      → Grown es fs

pub Grown-trans : {es fs gs : List PersistedEvent} → Grown es fs → Grown fs gs → Grown es gs
Grown-trans (Grown.same es) h = h
Grown-trans (Grown.added e n g) h = Grown.added e n (Grown-trans g h)

-- The commands in flight rise to one at most, unless `P`.
abbrev pub Flight : Type 0 → ℕ → ℕ → Type 0
Flight P m n = P ⊎ ((n ≤ 1) ⊎ (n ≤ m))

Flight-trans : {P : Type 0} (a b c : ℕ) → Flight P a b → Flight P b c → Flight P a c
Flight-trans a b c (inl p) k = inl p
Flight-trans a b c (inr h) (inl p) = inl p
Flight-trans a b c (inr h) (inr k) = inr (ground arith)

-- What every operation does to the ledger.
pub record Steps (P : Type 0) (db after : Db) : Type 0 where
  pub events : Grown db.events after.events
  pub runs : (id : RunId) → RunMoves (view id db) (view id after)
  pub commands :
      (id : ConversationId) → Flight P (in_flight id db.commands) (in_flight id after.commands)

pub Steps-trans : {P : Type 0} {a b c : Db} → Steps P a b → Steps P b c → Steps P a c
Steps-trans {a = a} {b = b} {c = c} s t = record {
  events = Grown-trans s.events t.events;
  runs = λ id. RunMoves-trans (s.runs id) (t.runs id);
  commands = λ id.
      Flight-trans (in_flight id a.commands) (in_flight id b.commands) (in_flight id c.commands)
        (s.commands id) (t.commands id);
}

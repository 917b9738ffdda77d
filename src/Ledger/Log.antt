-- ===== src/Ledger/Log.antt =====
-- The log of events as it grows: its numbers without a gap, and what was there before.
use model_lib.Prelude.{
  ℕ, suc, ◌≡◌, sym, ap, ◌∙◌, subst, inl, inr, Bool, true, false, List, [], ◌∷◌, ◌++◌, text_eq, ◌==◌,
  leb, arith, filter, Bool-cases, if◌then◌else◌, text_beq_iff,
}
use mathlib.Core.List.{append_assoc, append-nil}
use model_lib.Ledger.Models.{ConversationId, PersistedEvent}
use model_lib.Ledger.Tables.{max_where}
use model_lib.Ledger.Machine.{Grown, sequences}

-- The numbers 1, 2, ... up to a number.
unfoldable pub from_one : ℕ → List ℕ
from_one n = elim n [ ℕ.zero ↦ [] | suc (m → rest) ↦ rest ++ suc m ∷ [] ]

abbrev pub last_of : ConversationId → List PersistedEvent → ℕ
last_of id = max_where (λ x. x.conversation_id == id) (λ x. x.sequence)

module _ {ℓ} {A : Type ℓ} (p : A → Bool) (n : A → ℕ) where
  max_where-append :
      (xs : List A) (x : A)
      → max_where p n (xs ++ x ∷ []) ≡ (
          if p x
          then (if leb (max_where p n xs) (n x) then n x else max_where p n xs)
          else max_where p n xs)
  unfolding max_where
  max_where-append [] x = ground arith
  max_where-append (y ∷ xs) x = ground (arith, max_where-append xs x)

sequences-append :
    (id : ConversationId) (es : List PersistedEvent) (e : PersistedEvent)
    → sequences id (es ++ e ∷ [])
      ≡ (if e.conversation_id == id then sequences id es ++ e.sequence ∷ [] else sequences id es)
unfolding sequences filter
sequences-append id [] e = ground arith
sequences-append id (x ∷ es) e = ground (arith, sequences-append id es e)

-- The numbers of a conversation are 1, 2, ..., in this order.
unfoldable pub IsNumbered : ConversationId → List PersistedEvent → Type 0
unfolding max_where sequences from_one
IsNumbered id es = sequences id es ≡ from_one (last_of id es)

from_one_next :
    (l : List ℕ) (s m k : ℕ) → s ≡ suc m → k ≡ s → l ≡ from_one m → l ++ s ∷ [] ≡ from_one k
unfolding from_one
from_one_next l s m k n e h =
    ap (λ x. x ++ s ∷ []) h ∙ (ap (λ x. from_one m ++ x ∷ []) n ∙ sym (ap from_one (e ∙ n)))

last_of-append_same :
    (id : ConversationId) (es : List PersistedEvent) (e : PersistedEvent)
    → e.conversation_id == id ≡ true
    → e.sequence ≡ suc (last_of id es)
    → last_of id (es ++ e ∷ []) ≡ e.sequence
last_of-append_same id es e same n =
    let a = max_where-append (λ x. x.conversation_id == id) (λ x. x.sequence) es e in ground arith

last_of-append_other :
    (id : ConversationId) (es : List PersistedEvent) (e : PersistedEvent)
    → e.conversation_id == id ≡ false
    → last_of id (es ++ e ∷ []) ≡ last_of id es
last_of-append_other id es e other =
    let a = max_where-append (λ x. x.conversation_id == id) (λ x. x.sequence) es e in ground arith

IsNumbered-append :
    (id : ConversationId) (es : List PersistedEvent) (e : PersistedEvent)
    → e.sequence ≡ suc (last_of e.conversation_id es)
    → IsNumbered id es
    → IsNumbered id (es ++ e ∷ [])
unfolding IsNumbered
IsNumbered-append id es e n h =
    let s = sequences-append id es e in
    elim (Bool-cases (e.conversation_id == id)) [
      | inl same ↦
          let next =
            subst (λ c. e.sequence ≡ suc (last_of c es))
              ((text_beq_iff e.conversation_id id).0 same) n in
          (s ∙ ap (λ b. if b then sequences id es ++ e.sequence ∷ [] else sequences id es) same)
          ∙ from_one_next (sequences id es) e.sequence (last_of id es) (last_of id (es ++ e ∷ []))
              next (last_of-append_same id es e same next) h
      | inr other ↦
          (s ∙ ap (λ b. if b then sequences id es ++ e.sequence ∷ [] else sequences id es) other)
          ∙ (h ∙ sym (ap from_one (last_of-append_other id es e other)))
    ]

pub Grown-IsNumbered :
    (id : ConversationId) {es fs : List PersistedEvent}
    → Grown es fs
    → IsNumbered id es
    → IsNumbered id fs
Grown-IsNumbered id (Grown.same es) h = h
Grown-IsNumbered id (Grown.added {es = es} e n g) h =
    Grown-IsNumbered id g (IsNumbered-append id es e n h)

-- Events are never changed nor removed.
pub Grown-prefix :
    {es fs : List PersistedEvent} → Grown es fs → (new : List PersistedEvent) × (fs ≡ es ++ new)
Grown-prefix (Grown.same es) = ([], sym (append-nil es))
Grown-prefix (Grown.added {es = es} e n g) =
    let (new, r) = Grown-prefix g in (e ∷ new, r ∙ append_assoc es (e ∷ []) new)

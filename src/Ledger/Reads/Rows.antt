-- ===== src/Ledger/Reads/Rows.antt =====
-- The order of the queries' rows, and the rows of a table with their numbers.
use model_lib.Prelude.{
  ℕ, zero, suc, ◌≢◌, if_elim, insert_by, insert_by-All, ◌≤◌, ◌<◌, ◌≡◌, ◌⊎◌, ◌↔◌, inl, inr, refl,
  sym, ap, ◌∙◌, Bool, true, false, Option, none, some, List, [], ◌∷◌, text_eq, nat_eq, arith,
  filter, All, Any, take, sort_by, IsOrdered, take-All, sort_by-All, filter-All_kept, All-impl,
  All-at,
}
use model_lib.Ledger.Models.{Millis}
use model_lib.Ledger.Reads.{Keyed, ListCursor, keyed, newer, is_before}

-- One place of a list is after another when it is older, or as old and with a smaller number.
abbrev pub IsAfter : Millis → ℕ → Millis → ℕ → Type 0
IsAfter time rowid created_at tiebreak =
    (time < created_at) ⊎ ((time ≡ created_at) × (rowid < tiebreak))

module _ {A : Type 0} where
  pub newer_total : (x y : Keyed A) → newer x y ≡ false → newer y x ≡ true
  unfolding newer
  newer_total x y h = ground arith

  pub newer_trans : (x y z : Keyed A) → newer x y ≡ true → newer y z ≡ true → newer x z ≡ true
  unfolding newer
  newer_trans x y z h k = ground arith

  -- A row is after a cursor in the order of the list; without a cursor every row is.
  abbrev pub IsBehind : Option ListCursor → Keyed A → Type 0
  IsBehind none x = Unit
  IsBehind (some c) x = IsAfter x.created_at x.rowid c.created_at c.tiebreak

  -- Newest first, and of the rows of one time the last inserted first, strictly.
  abbrev pub IsNewestFirst : List (Keyed A) → Type 0
  IsNewestFirst [] = Unit
  IsNewestFirst (x ∷ xs) =
      All (λ y. IsAfter y.created_at y.rowid x.created_at x.rowid) xs × IsNewestFirst xs

  pub is_before_iff : (c : Option ListCursor) (x : Keyed A) → (is_before c x ≡ true) ↔ IsBehind c x
  unfolding is_before
  is_before_iff none x = (λ h. tt, λ h. refl)
  is_before_iff (some c) x = ground arith

  pub newer-IsAfter :
      (x y : Keyed A)
      → newer x y ≡ true
      → IsAfter y.created_at y.rowid x.created_at x.rowid ⊎ (x.rowid ≡ y.rowid)
  unfolding newer
  newer-IsAfter x y h = ground arith

  -- No two rows of a list have the same number.
  abbrev pub IsDistinct : List (Keyed A) → Type 0
  IsDistinct [] = Unit
  IsDistinct (x ∷ xs) = All (λ y. x.rowid ≢ y.rowid) xs × IsDistinct xs

  pub filter-IsDistinct :
      (p : Keyed A → Bool) (xs : List (Keyed A)) → IsDistinct xs → IsDistinct (filter p xs)
  unfolding filter
  filter-IsDistinct p [] h = tt
  filter-IsDistinct p (x ∷ xs) h =
      if_elim IsDistinct (p x) (x ∷ filter p xs) (filter p xs)
        (λ e. (filter-All_kept (λ y. x.rowid ≢ y.rowid) p xs h.0, filter-IsDistinct p xs h.1))
        (λ e. filter-IsDistinct p xs h.1)

  insert_by-IsDistinct :
      (le : Keyed A → Keyed A → Bool) (x : Keyed A) (xs : List (Keyed A))
      → All (λ y. x.rowid ≢ y.rowid) xs
      → IsDistinct xs
      → IsDistinct (insert_by le x xs)
  unfolding insert_by
  insert_by-IsDistinct le x [] f h = (tt, tt)
  insert_by-IsDistinct le x (y ∷ ys) f h =
      if_elim IsDistinct (le x y) (x ∷ y ∷ ys) (y ∷ insert_by le x ys) (λ e. (f, h))
        (λ e. (
          insert_by-All (λ z. y.rowid ≢ z.rowid) le x ys (λ d. f.0 (sym d)) h.0,
          insert_by-IsDistinct le x ys f.1 h.1,
        ))

  pub sort_by-IsDistinct :
      (le : Keyed A → Keyed A → Bool) (xs : List (Keyed A))
      → IsDistinct xs
      → IsDistinct (sort_by le xs)
  unfolding sort_by
  sort_by-IsDistinct le [] h = tt
  sort_by-IsDistinct le (x ∷ xs) h =
      insert_by-IsDistinct le x (sort_by le xs) (sort_by-All (λ y. x.rowid ≢ y.rowid) le xs h.0)
        (sort_by-IsDistinct le xs h.1)

  -- Rows in order with different numbers are strictly in order.
  pub sorted-IsNewestFirst :
      (xs : List (Keyed A)) → IsOrdered newer xs → IsDistinct xs → IsNewestFirst xs
  sorted-IsNewestFirst [] o d = tt
  sorted-IsNewestFirst (x ∷ xs) o d = (strictly x xs o.0 d.0, sorted-IsNewestFirst xs o.1 d.1)
    where
      strictly :
          (x : Keyed A) (ys : List (Keyed A))
          → All (λ y. newer x y ≡ true) ys
          → All (λ y. x.rowid ≢ y.rowid) ys
          → All (λ y. IsAfter y.created_at y.rowid x.created_at x.rowid) ys
      strictly x [] n d = tt
      strictly x (y ∷ ys) n d = (
        elim (newer-IsAfter x y n.0) [ inl a ↦ a | inr e ↦ absurd (d.0 e) ],
        strictly x ys n.1 d.1,
      )

  pub take-IsNewestFirst :
      (n : ℕ) (xs : List (Keyed A)) → IsNewestFirst xs → IsNewestFirst (take n xs)
  unfolding take
  take-IsNewestFirst zero xs h = tt
  take-IsNewestFirst (suc n) [] h = tt
  take-IsNewestFirst (suc n) (x ∷ xs) h = (
    take-All (λ y. IsAfter y.created_at y.rowid x.created_at x.rowid) n xs h.0,
    take-IsNewestFirst n xs h.1,
  )

  module _ (time : A → Millis) where
    keyed-from : (n : ℕ) (xs : List A) → All (λ x. n ≤ x.rowid) (keyed time n xs)
    unfolding keyed
    keyed-from n [] = tt
    keyed-from n (x ∷ xs) =
        (omega arith, All-impl (keyed time (suc n) xs) (λ y h. omega arith) (keyed-from (suc n) xs))

    -- The number of a row tells which one it is.
    pub keyed-distinct :
        (n : ℕ) (xs : List A) (x y : Keyed A)
        → Any (λ z. z ≡ x) (keyed time n xs)
        → Any (λ z. z ≡ y) (keyed time n xs)
        → x.rowid ≡ y.rowid
        → x ≡ y
    unfolding keyed
    keyed-distinct n [] x y h k e = absurd h
    keyed-distinct n (a ∷ xs) x y (inl h) (inl k) e = sym h ∙ k
    keyed-distinct n (a ∷ xs) x y (inl h) (inr k) e =
        let low =
          All-at (λ z. suc n ≤ z.rowid) (keyed time (suc n) xs) y (keyed-from (suc n) xs) k in
        let same = ap (λ z. z.rowid) h in absurd (omega arith)
    keyed-distinct n (a ∷ xs) x y (inr h) (inl k) e =
        let low =
          All-at (λ z. suc n ≤ z.rowid) (keyed time (suc n) xs) x (keyed-from (suc n) xs) h in
        let same = ap (λ z. z.rowid) k in absurd (omega arith)
    keyed-distinct n (a ∷ xs) x y (inr h) (inr k) e = keyed-distinct (suc n) xs x y h k e

    pub keyed-IsDistinct : (n : ℕ) (xs : List A) → IsDistinct (keyed time n xs)
    unfolding keyed
    keyed-IsDistinct n [] = tt
    keyed-IsDistinct n (x ∷ xs) = (
      All-impl (keyed time (suc n) xs) (λ y h e. omega arith) (keyed-from (suc n) xs),
      keyed-IsDistinct (suc n) xs,
    )

-- ===== src/Ledger/Reads/Pages.antt =====
-- A page of the rows of a table, and the cursor of the next page.
use model_lib.Prelude.{
  ℕ, ◌≤◌, ◌≡◌, ◌⊎◌, ◌↔◌, inl, inr, refl, ◌∙◌, Bool, true, ◌&&◌, Option, List, [], ◌∷◌, text_eq,
  nat_eq, arith, filter, All, Any, length, last?, map, take, sort_by, take-All, sort_by-All,
  filter-All, filter-All_kept, All-impl, All-zip, length-take, sort_by-IsOrdered, sort_by-Any,
  take-Any, filter-Any,
}
use model_lib.Ledger.Models.{Millis}
use model_lib.Ledger.Reads.{
  Keyed, ListCursor, Page, keyed, newer, is_before, min_limit, max_list_limit, page_rows, page_of,
  cursor_of,
}
use model_lib.Ledger.Reads.Rows.{
  IsAfter, IsBehind, IsNewestFirst, newer_total, newer_trans, is_before_iff, newer-IsAfter,
  keyed-distinct, filter-IsDistinct, sort_by-IsDistinct, sorted-IsNewestFirst, take-IsNewestFirst,
  keyed-IsDistinct,
}

min_limit-bounds :
    (limit cap : ℕ)
    → (min_limit limit cap ≤ limit)
      × (min_limit limit cap ≤ cap)
      × ((min_limit limit cap ≡ limit) ⊎ (min_limit limit cap ≡ cap))
unfolding min_limit
min_limit-bounds limit cap = (ground arith, ground arith, ground arith)

module _ {A : Type 0} where
  members : (xs : List (Keyed A)) → All (λ x. Any (λ y. y ≡ x) xs) xs
  members [] = tt
  members (x ∷ xs) = (inl refl, All-impl xs (λ y h. inr h) (members xs))

  -- A row after every row of a page is behind the cursor of the next page.
  IsBehind-last :
      (xs : List (Keyed A)) (r : Keyed A)
      → All (λ x. IsAfter r.created_at r.rowid x.created_at x.rowid) xs
      → IsBehind (cursor_of (last? xs)) r
  unfolding cursor_of
  IsBehind-last [] r h = tt
  IsBehind-last (x ∷ []) r h = h.0
  IsBehind-last (x ∷ y ∷ ys) r h = IsBehind-last (y ∷ ys) r h.1

  -- A row before every row of a page is not behind that cursor.
  ahead_of_last :
      (x y : Keyed A) (ys : List (Keyed A))
      → All (λ z. IsAfter z.created_at z.rowid x.created_at x.rowid) (y ∷ ys)
      → IsBehind (cursor_of (last? (y ∷ ys))) x
      → ⊥
  unfolding cursor_of
  ahead_of_last x y [] h b = let a = h.0 in ground arith
  ahead_of_last x y (z ∷ zs) h b = ahead_of_last x z zs h.1 b

  cursor_follows :
      (xs : List (Keyed A)) → IsNewestFirst xs → All (λ x. IsBehind (cursor_of (last? xs)) x → ⊥) xs
  unfolding cursor_of
  cursor_follows [] h = tt
  cursor_follows (x ∷ []) h = (λ b. ground arith, tt)
  cursor_follows (x ∷ y ∷ ys) h = (ahead_of_last x y ys h.0, cursor_follows (y ∷ ys) h.1)

  shown_or_later :
      (P : Keyed A → Type 0) (xs : List (Keyed A)) (r : Keyed A)
      → All (λ x. P x ⊎ (x ≡ r)) xs
      → Any (λ x. x ≡ r) xs ⊎ All P xs
  shown_or_later P [] r h = inr tt
  shown_or_later P (x ∷ xs) r (inr e, h) = inl (inl e)
  shown_or_later P (x ∷ xs) r (inl p, h) = elim (shown_or_later P xs r h) [
    | inl a ↦ inl (inr a)
    | inr a ↦ inr (p, a)
  ]

  -- What a page of a table is: it shows rows of the table that the filter `P` keeps and that are
  -- behind the cursor, at most `limit` and at most 200 of them, strictly newest first. A row of the
  -- table that belongs on the page and is not shown is behind the cursor of the next page, and the
  -- page is then full; no row that is shown is behind that cursor.
  pub record IsListing (time : A → Millis) (P : A → Type 0) (before : Option ListCursor) (limit : ℕ)
      (table : List A) (page : Page A) : Type 0 where
    pub rows : List (Keyed A)
    pub items : page.items ≡ map (λ x. x.row) rows
    pub short : (length rows ≤ limit) × (length rows ≤ 200)
    pub sound : All (λ x. Any (λ y. y ≡ x) (keyed time 1 table) × P x.row × IsBehind before x) rows
    pub order : IsNewestFirst rows
    pub complete :
        (r : Keyed A)
        → Any (λ y. y ≡ r) (keyed time 1 table)
        → P r.row
        → IsBehind before r
        → Any (λ x. x ≡ r) rows
          ⊎ (IsBehind page.next_before r × ((length rows ≡ limit) ⊎ (length rows ≡ 200)))
    pub fresh : All (λ x. IsBehind page.next_before x → ⊥) rows

  missing :
      (time : A → Millis) (table : List A) (rows : List (Keyed A)) (r : Keyed A)
      → Any (λ y. y ≡ r) (keyed time 1 table)
      → All (λ x. Any (λ y. y ≡ x) (keyed time 1 table)) rows
      → All (λ x. newer x r ≡ true) rows
      → Any (λ x. x ≡ r) rows ⊎ IsBehind (cursor_of (last? rows)) r
  missing time table rows r m inside newers =
      elim (shown_or_later (λ x. IsAfter r.created_at r.rowid x.created_at x.rowid) rows r
        (All-zip rows
          (λ x i k. elim (newer-IsAfter x r k) [
            | inl a ↦ inl a
            | inr e ↦ inr (keyed-distinct time 1 table x r i m e)
          ])
          inside newers)) [ inl shown ↦ inl shown | inr later ↦ inr (IsBehind-last rows r later) ]

  pub page_of-IsListing :
      (time : A → Millis) (P : A → Type 0) (p : Keyed A → Bool) (before : Option ListCursor)
      (limit : ℕ) (table : List A)
      → ((x : Keyed A) → (p x ≡ true) ↔ P x.row)
      → IsListing time P before limit table
          (page_of (page_rows p before limit (keyed time 1 table)))
  unfolding page_of page_rows
  page_of-IsListing time P p before limit table meets =
      let all = keyed time 1 table in
      let q = λ (x : Keyed A). p x && is_before before x in
      let sorted = sort_by newer (filter q all) in
      let n = min_limit limit max_list_limit in
      let (a, b, which) = min_limit-bounds limit max_list_limit in
      let bound = length-take n sorted in
      let ordered = sort_by-IsOrdered newer newer_total newer_trans (filter q all) in
      let distinct =
        sort_by-IsDistinct newer (filter q all)
          (filter-IsDistinct q all (keyed-IsDistinct time 1 table)) in
      let strict = take-IsNewestFirst n sorted (sorted-IsNewestFirst sorted ordered distinct) in
      let In = λ (x : Keyed A). Any (λ y. y ≡ x) all in
      let inside =
        take-All In n sorted
          (sort_by-All In newer (filter q all) (filter-All_kept In q all (members all))) in
      let kept =
        take-All (λ x. q x ≡ true) n sorted
          (sort_by-All (λ x. q x ≡ true) newer (filter q all) (filter-All q all)) in
      record {
        rows = take n sorted;
        items = refl;
        short = (omega arith, omega arith);
        sound =
            All-zip (take n sorted)
              (λ x i k. (i, (meets x).0 (ground arith), (is_before_iff before x).0 (ground arith)))
              inside kept;
        order = strict;
        complete = λ r m h b.
            let passes = (meets r).1 h in
            let earlier = (is_before_iff before r).1 b in
            elim (take-Any newer n sorted r ordered (
              sort_by-Any (λ x. x ≡ r) newer (filter q all)
                (filter-Any q all r (ground arith) m))) [
                  | inl shown ↦ inl shown
                  | inr (newers, full) ↦
                      elim (missing time table (take n sorted) r m inside newers) [
                        | inl shown ↦ inl shown
                        | inr behind ↦
                            inr (
                              behind,
                              elim which [ inl e ↦ inl (full ∙ e) | inr e ↦ inr (full ∙ e) ],
                            )
                      ]
                ];
        fresh = cursor_follows (take n sorted) strict;
      }

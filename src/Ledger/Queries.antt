-- ===== src/Ledger/Queries.antt =====
-- What the statements of the ledger do to the rows that a query finds.
use model_lib.Prelude.{
  suc, ◌+◌, ◌≤◌, ◌≡◌, refl, Bool, true, false, Option, none, some, List, [], ◌∷◌, ◌++◌, find, any,
  is_some, if◌then◌else◌, arith, All,
}
use model_lib.Ledger.Tables.{update_where, count_where}

abbrev pub map_option {ℓ κ} : {A : Type ℓ} {B : Type κ} → (A → B) → Option A → Option B
map_option f none = none
map_option f (some a) = some (f a)

module _ {ℓ} {A : Type ℓ} where
  -- The row that a query finds after an UPDATE that leaves the query's test alone.
  pub find-update_where :
      (p q : A → Bool) (f : A → A) (xs : List A)
      → ((x : A) → p (f x) ≡ p x)
      → find p (update_where q f xs) ≡ map_option (λ x. if q x then f x else x) (find p xs)
  unfolding find update_where
  find-update_where p q f [] h = refl
  find-update_where p q f (x ∷ xs) h = ground (arith, find-update_where p q f xs h, h x)

  pub count_where-update_where :
      (p q : A → Bool) (f : A → A) (xs : List A)
      → ((x : A) → q x ≡ true → p (f x) ≡ true → p x ≡ true)
      → count_where p (update_where q f xs) ≤ count_where p xs
  unfolding count_where update_where
  count_where-update_where p q f [] h = omega arith
  count_where-update_where p q f (x ∷ xs) h =
      ground (arith, count_where-update_where p q f xs h, h x)

  pub count_where-update_where-All :
      (p q : A → Bool) (f : A → A) (xs : List A)
      → All (λ x. q x ≡ true → p (f x) ≡ true → p x ≡ true) xs
      → count_where p (update_where q f xs) ≤ count_where p xs
  unfolding count_where update_where
  count_where-update_where-All p q f [] h = omega arith
  count_where-update_where-All p q f (x ∷ xs) (h, t) =
      ground (arith, count_where-update_where-All p q f xs t, h)

  -- An UPDATE after which no row passes the test.
  pub count_where-update_where_zero :
      (p q : A → Bool) (f : A → A) (xs : List A)
      → ((x : A) → q x ≡ true → p (f x) ≡ false)
      → ((x : A) → q x ≡ false → p x ≡ false)
      → count_where p (update_where q f xs) ≡ 0
  unfolding count_where update_where
  count_where-update_where_zero p q f [] h k = refl
  count_where-update_where_zero p q f (x ∷ xs) h k =
      ground (arith, count_where-update_where_zero p q f xs h k, h x, k x)

  pub count_where-append :
      (p : A → Bool) (xs : List A) (x : A)
      → count_where p (xs ++ x ∷ []) ≡ (if p x then suc (count_where p xs) else count_where p xs)
  unfolding count_where
  count_where-append p [] x = refl
  count_where-append p (y ∷ xs) x = ground (arith, count_where-append p xs x)

  pub find-append :
      (p : A → Bool) (xs : List A) (x : A)
      → find p (xs ++ x ∷ [])
        ≡ (if is_some (find p xs) then find p xs else if p x then some x else none)
  unfolding find
  find-append p [] x = refl
  find-append p (y ∷ xs) x = ground (arith, find-append p xs x)

  pub find-any : (p : A → Bool) (xs : List A) → is_some (find p xs) ≡ any p xs
  unfolding find any
  find-any p [] = refl
  find-any p (x ∷ xs) = ground (arith, find-any p xs)

  count_where-update_where_keeps :
      (p q : A → Bool) (f : A → A) (xs : List A)
      → ((x : A) → q x ≡ true → p x ≡ true → p (f x) ≡ true)
      → count_where p xs ≤ count_where p (update_where q f xs)
  unfolding count_where update_where
  count_where-update_where_keeps p q f [] h = omega arith
  count_where-update_where_keeps p q f (x ∷ xs) h =
      ground (arith, count_where-update_where_keeps p q f xs h, h x)

  -- An UPDATE after which every row that passed the test still does, and one that a query finds
  -- passes it now: the count grows by that row when it did not pass before.
  pub count_where-update_where_rises :
      (p q g : A → Bool) (f : A → A) (xs : List A) {a : A}
      → ((x : A) → q x ≡ true → p x ≡ true → p (f x) ≡ true)
      → find g xs ≡ some a
      → q a ≡ true
      → p (f a) ≡ true
      → count_where p xs + (if p a then 0 else 1) ≤ count_where p (update_where q f xs)
  unfolding count_where update_where find
  count_where-update_where_rises p q g f [] h e s t = cc
  count_where-update_where_rises p q g f (x ∷ xs) {a} h e s t =
      let keeps = count_where-update_where_keeps p q f xs h in
      let rises = λ (later : find g xs ≡ some a).
        count_where-update_where_rises p q g f xs {a = a} h later s t in
      ground (arith, h x)

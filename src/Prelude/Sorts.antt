-- ===== src/Prelude/Sorts.antt =====
-- `ORDER BY` and `LIMIT`: sorting by a Boolean order, and the first rows of a list.
use Prim.Native.Nat.{ℕ, zero, suc, ◌≤◌}
use mathlib.Core.Path.{◌≡◌, refl, ap, subst}
use mathlib.Core.Logic.{◌⊎◌, inl, inr}
use mathlib.Core.Bool.{Bool, true, false}
use mathlib.Core.List.{List, [], ◌∷◌}
use native.Mathlib.Omega.{arith}
use model_lib.Prelude.Tests.{if◌then◌else◌}
use model_lib.Prelude.Lists.{length, All, Any, filter, All-impl}

module _ {ℓ} {A : Type ℓ} where
  pub if_elim :
      (Q : List A → Type 0) (b : Bool) (xs ys : List A)
      → (b ≡ true → Q xs)
      → (b ≡ false → Q ys)
      → Q (if b then xs else ys)
  if_elim Q true xs ys h k = h refl
  if_elim Q false xs ys h k = k refl

  unfoldable pub take : ℕ → List A → List A
  take zero xs = []
  take (suc n) [] = []
  take (suc n) (x ∷ xs) = x ∷ take n xs

  unfoldable pub insert_by : (A → A → Bool) → A → List A → List A
  insert_by le x [] = x ∷ []
  insert_by le x (y ∷ ys) = let rest = insert_by le x ys in if le x y then x ∷ y ∷ ys else y ∷ rest

  unfoldable pub sort_by : (A → A → Bool) → List A → List A
  unfolding insert_by
  sort_by le [] = []
  sort_by le (x ∷ xs) = insert_by le x (sort_by le xs)

  pub length-take : (n : ℕ) (xs : List A) → length (take n xs) ≤ n
  unfolding take
  length-take zero xs = omega arith
  length-take (suc n) [] = omega arith
  length-take (suc n) (x ∷ xs) = omega (arith, length-take n xs)

  pub take-All : (P : A → Type 0) (n : ℕ) (xs : List A) → All P xs → All P (take n xs)
  unfolding take
  take-All P zero xs h = tt
  take-All P (suc n) [] h = tt
  take-All P (suc n) (x ∷ xs) h = (h.0, take-All P n xs h.1)

  pub filter-All : (p : A → Bool) (xs : List A) → All (λ x. p x ≡ true) (filter p xs)
  unfolding filter
  filter-All p [] = tt
  filter-All p (x ∷ xs) =
      if_elim (All (λ x. p x ≡ true)) (p x) (x ∷ filter p xs) (filter p xs)
        (λ e. (e, filter-All p xs)) (λ _. filter-All p xs)

  -- What holds of every row of a table holds of those that a filter keeps.
  pub filter-All_kept :
      (P : A → Type 0) (p : A → Bool) (xs : List A) → All P xs → All P (filter p xs)
  unfolding filter
  filter-All_kept P p [] h = tt
  filter-All_kept P p (x ∷ xs) h =
      if_elim (All P) (p x) (x ∷ filter p xs) (filter p xs) (λ e. (h.0, filter-All_kept P p xs h.1))
        (λ _. filter-All_kept P p xs h.1)

  pub insert_by-All :
      (P : A → Type 0) (le : A → A → Bool) (x : A) (xs : List A)
      → P x
      → All P xs
      → All P (insert_by le x xs)
  unfolding insert_by
  insert_by-All P le x [] p h = (p, tt)
  insert_by-All P le x (y ∷ ys) p h =
      if_elim (All P) (le x y) (x ∷ y ∷ ys) (y ∷ insert_by le x ys) (λ _. (p, h))
        (λ _. (h.0, insert_by-All P le x ys p h.1))

  pub sort_by-All :
      (P : A → Type 0) (le : A → A → Bool) (xs : List A) → All P xs → All P (sort_by le xs)
  unfolding sort_by
  sort_by-All P le [] h = tt
  sort_by-All P le (x ∷ xs) h = insert_by-All P le x (sort_by le xs) h.0 (sort_by-All P le xs h.1)

  insert_by-Any :
      (P : A → Type 0) (le : A → A → Bool) (x : A) (xs : List A)
      → P x ⊎ Any P xs
      → Any P (insert_by le x xs)
  unfolding insert_by
  insert_by-Any P le x [] h = h
  insert_by-Any P le x (y ∷ ys) h =
      if_elim (Any P) (le x y) (x ∷ y ∷ ys) (y ∷ insert_by le x ys) (λ _. h)
        (λ _. elim h [
          | inl p ↦ inr (insert_by-Any P le x ys (inl p))
          | inr (inl q) ↦ inl q
          | inr (inr a) ↦ inr (insert_by-Any P le x ys (inr a))
        ])

  pub sort_by-Any :
      (P : A → Type 0) (le : A → A → Bool) (xs : List A) → Any P xs → Any P (sort_by le xs)
  unfolding sort_by
  sort_by-Any P le [] h = absurd h
  sort_by-Any P le (x ∷ xs) (inl p) = insert_by-Any P le x (sort_by le xs) (inl p)
  sort_by-Any P le (x ∷ xs) (inr a) =
      insert_by-Any P le x (sort_by le xs) (inr (sort_by-Any P le xs a))

  -- Every row comes before all the rows after it.
  abbrev pub IsOrdered : (A → A → Bool) → List A → Type 0
  IsOrdered le [] = Unit
  IsOrdered le (x ∷ xs) = All (λ y. le x y ≡ true) xs × IsOrdered le xs

  pub take-IsOrdered :
      (le : A → A → Bool) (n : ℕ) (xs : List A) → IsOrdered le xs → IsOrdered le (take n xs)
  unfolding take
  take-IsOrdered le zero xs h = tt
  take-IsOrdered le (suc n) [] h = tt
  take-IsOrdered le (suc n) (x ∷ xs) h =
      (take-All (λ y. le x y ≡ true) n xs h.0, take-IsOrdered le n xs h.1)

module _ {A : Type 0} where
  -- What holds of every row holds of one that is there.
  pub All-at : (P : A → Type 0) (xs : List A) (r : A) → All P xs → Any (λ x. x ≡ r) xs → P r
  All-at P [] r h a = absurd a
  All-at P (x ∷ xs) r h (inl e) = subst P e h.0
  All-at P (x ∷ xs) r h (inr a) = All-at P xs r h.1 a

  pub filter-Any :
      (p : A → Bool) (xs : List A) (r : A)
      → p r ≡ true
      → Any (λ x. x ≡ r) xs
      → Any (λ x. x ≡ r) (filter p xs)
  unfolding filter
  filter-Any p [] r h a = absurd a
  filter-Any p (x ∷ xs) r h (inl e) =
      if_elim (Any (λ x. x ≡ r)) (p x) (x ∷ filter p xs) (filter p xs) (λ _. inl e)
        (λ f. absurd (ground arith))
  filter-Any p (x ∷ xs) r h (inr a) =
      if_elim (Any (λ x. x ≡ r)) (p x) (x ∷ filter p xs) (filter p xs)
        (λ _. inr (filter-Any p xs r h a)) (λ _. filter-Any p xs r h a)

  -- A row of a sorted list is among the first rows, or they are all before it and as many as asked.
  pub take-Any :
      (le : A → A → Bool) (n : ℕ) (xs : List A) (r : A)
      → IsOrdered le xs
      → Any (λ x. x ≡ r) xs
      → Any (λ x. x ≡ r) (take n xs)
        ⊎ (All (λ x. le x r ≡ true) (take n xs) × (length (take n xs) ≡ n))
  unfolding take
  take-Any le zero xs r s a = inr (tt, refl)
  take-Any le (suc n) [] r s a = absurd a
  take-Any le (suc n) (x ∷ xs) r s (inl e) = inl (inl e)
  take-Any le (suc n) (x ∷ xs) r s (inr a) = elim (take-Any le n xs r s.1 a) [
    | inl m ↦ inl (inr m)
    | inr (b, l) ↦ inr ((All-at (λ y. le x y ≡ true) xs r s.0 a, b), ap suc l)
  ]

module _ {ℓ} {A : Type ℓ} (le : A → A → Bool) (total : (x y : A) → le x y ≡ false → le y x ≡ true)
    (trans : (x y z : A) → le x y ≡ true → le y z ≡ true → le x z ≡ true) where
  insert_by-IsOrdered : (x : A) (xs : List A) → IsOrdered le xs → IsOrdered le (insert_by le x xs)
  unfolding insert_by
  insert_by-IsOrdered x [] h = (tt, tt)
  insert_by-IsOrdered x (y ∷ ys) h =
      if_elim (IsOrdered le) (le x y) (x ∷ y ∷ ys) (y ∷ insert_by le x ys)
        (λ e. ((e, All-impl ys (λ z k. trans x y z e k) h.0), h))
        (λ e. (
          insert_by-All (λ z. le y z ≡ true) le x ys (total x y e) h.0,
          insert_by-IsOrdered x ys h.1,
        ))

  pub sort_by-IsOrdered : (xs : List A) → IsOrdered le (sort_by le xs)
  unfolding sort_by
  sort_by-IsOrdered [] = tt
  sort_by-IsOrdered (x ∷ xs) = insert_by-IsOrdered x (sort_by le xs) (sort_by-IsOrdered xs)

-- ===== src/Prelude/Ordered.antt =====
-- Total orders as an interface (Rust's `Ord`), and what the program uses of `BTreeSet`,
-- `BTreeMap` and `Vec` kept in the order of their keys.
use Prim.Native.Nat.{compare, Ordering}
use mathlib.Core.Path.{◌≡◌, refl}
use mathlib.Core.Logic.{◌↔◌}
use mathlib.Core.List.{List, [], ◌∷◌}
use mathlib.Core.Option.{Option, none, some}
use native.Mathlib.Omega.{arith}
use model_lib.Prelude.Texts.{Text}

pub record Ord (K : Type 0) : Type 0 where
  pub cmp : K → K → Ordering
  pub cmp_eq : (a b : K) → (cmp a b ≡ Ordering.eq) ↔ (a ≡ b)
  pub cmp_flip : (a b : K) → (cmp a b ≡ Ordering.lt) ↔ (cmp b a ≡ Ordering.gt)
  pub cmp_trans :
      (a b c : K) → cmp a b ≡ Ordering.lt → cmp b c ≡ Ordering.lt → cmp a c ≡ Ordering.lt

-- Byte strings compare lexicographically.
unfoldable pub text_cmp : Text → Text → Ordering
text_cmp [] [] = Ordering.eq
text_cmp [] (y ∷ ys) = Ordering.lt
text_cmp (x ∷ xs) [] = Ordering.gt
text_cmp (x ∷ xs) (y ∷ ys) = elim (compare x y) [
  | Ordering.lt ↦ Ordering.lt
  | Ordering.eq ↦ text_cmp xs ys
  | Ordering.gt ↦ Ordering.gt
]

pub text_cmp_sound : (a b : Text) → text_cmp a b ≡ Ordering.eq → a ≡ b
unfolding text_cmp
text_cmp_sound [] [] h = refl
text_cmp_sound [] (y ∷ ys) h = cc
text_cmp_sound (x ∷ xs) [] h = cc
text_cmp_sound (x ∷ xs) (y ∷ ys) h = ground (arith, text_cmp_sound xs ys)

pub text_cmp_refl : (a : Text) → text_cmp a a ≡ Ordering.eq
unfolding text_cmp
text_cmp_refl [] = refl
text_cmp_refl (x ∷ xs) = ground (arith, text_cmp_refl xs)

pub text_cmp_flip : (a b : Text) → (text_cmp a b ≡ Ordering.lt) ↔ (text_cmp b a ≡ Ordering.gt)
unfolding text_cmp
text_cmp_flip [] [] = ground arith
text_cmp_flip [] (y ∷ ys) = ground arith
text_cmp_flip (x ∷ xs) [] = ground arith
text_cmp_flip (x ∷ xs) (y ∷ ys) = ground (arith, (text_cmp_flip xs ys).0, (text_cmp_flip xs ys).1)

pub text_cmp_trans :
    (a b c : Text)
    → text_cmp a b ≡ Ordering.lt
    → text_cmp b c ≡ Ordering.lt
    → text_cmp a c ≡ Ordering.lt
unfolding text_cmp
text_cmp_trans [] [] c h k = cc
text_cmp_trans [] (y ∷ ys) [] h k = cc
text_cmp_trans [] (y ∷ ys) (z ∷ zs) h k = refl
text_cmp_trans (x ∷ xs) [] c h k = cc
text_cmp_trans (x ∷ xs) (y ∷ ys) [] h k = cc
text_cmp_trans (x ∷ xs) (y ∷ ys) (z ∷ zs) h k = ground (arith, text_cmp_trans xs ys zs)

instance abbrev pub text_ord : Ord Text
text_ord = record {
  cmp = text_cmp;
  cmp_eq = λ a b. (text_cmp_sound a b, λ e. text_cmp_self a b e);
  cmp_flip = text_cmp_flip;
  cmp_trans = text_cmp_trans;
}
  where
    text_cmp_self : (a b : Text) → a ≡ b → text_cmp a b ≡ Ordering.eq
    text_cmp_self a b e = rw e (text_cmp_refl b)

module _ {K : Type 0} ⦃o : Ord K⦄ where
  -- Strictly increasing above a key.
  abbrev pub Above : K → List K → Type 0
  Above k [] = Unit
  Above k (j ∷ js) = (o.cmp k j ≡ Ordering.lt) × Above j js

  abbrev pub IsSorted : List K → Type 0
  IsSorted [] = Unit
  IsSorted (k ∷ ks) = Above k ks

  -- `BTreeSet::insert`.
  unfoldable pub set_insert : K → List K → List K
  set_insert k [] = k ∷ []
  set_insert k (j ∷ js) = elim (o.cmp k j) [
    | Ordering.lt ↦ k ∷ j ∷ js
    | Ordering.eq ↦ j ∷ js
    | Ordering.gt ↦ j ∷ set_insert k js
  ]

  set_insert-Above :
      (i k : K) (js : List K) → o.cmp i k ≡ Ordering.lt → Above i js → Above i (set_insert k js)
  unfolding set_insert
  set_insert-Above i k [] h a = (h, tt)
  set_insert-Above i k (j ∷ js) h a = ground (arith, set_insert-Above j k js, (o.cmp_flip j k).1)

  pub set_insert-IsSorted : (k : K) (js : List K) → IsSorted js → IsSorted (set_insert k js)
  unfolding set_insert
  set_insert-IsSorted k [] s = tt
  set_insert-IsSorted k (j ∷ js) s = ground (arith, set_insert-Above j k js, (o.cmp_flip j k).1)

  module _ {V : Type 0} where
    -- `BTreeMap::get`.
    unfoldable pub map_get : K → List (K × V) → Option V
    map_get k [] = none
    map_get k ((j, v) ∷ m) = elim (o.cmp k j) [ Ordering.eq ↦ some v | _ ↦ map_get k m ]

    -- `BTreeMap::insert`.
    unfoldable pub map_insert : K → V → List (K × V) → List (K × V)
    map_insert k v [] = (k, v) ∷ []
    map_insert k v ((j, w) ∷ m) = elim (o.cmp k j) [
      | Ordering.lt ↦ (k, v) ∷ (j, w) ∷ m
      | Ordering.eq ↦ (k, v) ∷ m
      | Ordering.gt ↦ (j, w) ∷ map_insert k v m
    ]

    pub map_get-map_insert_self :
        (k : K) (v : V) (m : List (K × V)) → map_get k (map_insert k v m) ≡ some v
    unfolding map_get map_insert
    map_get-map_insert_self k v [] = ground (arith, (o.cmp_eq k k).1 refl)
    map_get-map_insert_self k v ((j, w) ∷ m) =
        ground (arith, (o.cmp_eq k k).1 refl, map_get-map_insert_self k v m)

    pub map_get-map_insert_ne :
        (i k : K) (v : V) (m : List (K × V))
        → ¬ (i ≡ k)
        → map_get i (map_insert k v m) ≡ map_get i m
    unfolding map_get map_insert
    map_get-map_insert_ne i k v [] h = ground (arith, (o.cmp_eq i k).0)
    map_get-map_insert_ne i k v ((j, w) ∷ m) h =
        ground (arith, (o.cmp_eq i k).0, (o.cmp_eq k j).0, map_get-map_insert_ne i k v m h)

-- ===== src/Prelude/Lists.antt =====
-- Lists: measures over the native numbers, tests, and predicates by recursion.
use Prim.Native.Nat.{ℕ, suc, ◌+◌}
use mathlib.Core.Path.{◌≡◌}
use mathlib.Core.Logic.{◌⊎◌, inl, inr, ◌↔◌}
use mathlib.Core.Bool.{Bool, true, false, ◌||◌}
use mathlib.Core.List.{List, [], ◌∷◌, ◌++◌}
use mathlib.Core.Option.{Option, none, some}
use native.Mathlib.Omega.{arith}
use model_lib.Prelude.Tests.{Eq, ◌==◌, if◌then◌else◌}

-- Predicates by recursion compute to tuples and sums, which the tactics read and build.
abbrev pub All {ℓ} : {A : Type ℓ} → (A → Type 0) → List A → Type 0
All P [] = Unit
All P (x ∷ xs) = P x × All P xs

abbrev pub Any {ℓ} : {A : Type ℓ} → (A → Type 0) → List A → Type 0
Any P [] = ⊥
Any P (x ∷ xs) = P x ⊎ Any P xs

module _ {ℓ} {A : Type ℓ} where
  abbrev pub length : List A → ℕ
  length [] = 0
  length (x ∷ xs) = suc (length xs)

  abbrev pub last? : List A → Option A
  last? [] = none
  last? (x ∷ []) = some x
  last? (x ∷ y ∷ ys) = last? (y ∷ ys)

  unfoldable pub any : (A → Bool) → List A → Bool
  any p [] = false
  any p (x ∷ xs) = p x || any p xs

  unfoldable pub find : (A → Bool) → List A → Option A
  find p [] = none
  find p (x ∷ xs) = if p x then some x else find p xs

  unfoldable pub filter : (A → Bool) → List A → List A
  filter p [] = []
  filter p (x ∷ xs) = if p x then x ∷ filter p xs else filter p xs

  pub length-append : (xs ys : List A) → length (xs ++ ys) ≡ length xs + length ys
  length-append [] ys = omega arith
  length-append (x ∷ xs) ys = omega (arith, length-append xs ys)

  pub any→Any : (p : A → Bool) (xs : List A) → any p xs ≡ true → Any (λ x. p x ≡ true) xs
  unfolding any
  any→Any p [] h = cc
  any→Any p (x ∷ xs) h = ground (arith, any→Any p xs)

  pub Any→any : (p : A → Bool) (xs : List A) → Any (λ x. p x ≡ true) xs → any p xs ≡ true
  unfolding any
  Any→any p [] h = absurd h
  Any→any p (x ∷ xs) h = ground (arith, Any→any p xs)

  pub find-holds : (p : A → Bool) (xs : List A) {a : A} → find p xs ≡ some a → p a ≡ true
  unfolding find
  find-holds p [] h = cc
  find-holds p (x ∷ xs) {a} h = ground (arith, find-holds p xs {a = a})

  pub All-impl : {P Q : A → Type 0} (xs : List A) → ((x : A) → P x → Q x) → All P xs → All Q xs
  All-impl [] f h = tt
  All-impl (x ∷ xs) f h = (f x h.0, All-impl xs f h.1)

  pub All-zip :
      {P Q R : A → Type 0} (xs : List A)
      → ((x : A) → P x → Q x → R x)
      → All P xs
      → All Q xs
      → All R xs
  All-zip [] f p q = tt
  All-zip (x ∷ xs) f p q = (f x p.0 q.0, All-zip xs f p.1 q.1)

  pub Any-impl : {P Q : A → Type 0} (xs : List A) → ((x : A) → P x → Q x) → Any P xs → Any Q xs
  Any-impl [] f h = absurd h
  Any-impl (x ∷ xs) f (inl p) = inl (f x p)
  Any-impl (x ∷ xs) f (inr a) = inr (Any-impl xs f a)

  pub All-Any :
      {P Q R : A → Type 0} (xs : List A)
      → ((x : A) → P x → Q x → R x)
      → All P xs
      → Any Q xs
      → Any R xs
  All-Any [] f h a = absurd a
  All-Any (x ∷ xs) f h (inl q) = inl (f x h.0 q)
  All-Any (x ∷ xs) f h (inr a) = inr (All-Any xs f h.1 a)

module _ {ℓ} {A : Type ℓ} ⦃e : Eq A⦄ where
  -- `contains`, on slices and sets.
  unfoldable pub contains : List A → A → Bool
  contains [] a = false
  contains (x ∷ xs) a = x == a || contains xs a

module _ {A : Type 0} ⦃e : Eq A⦄ where
  -- A slice contains just its elements.
  pub contains_iff : (xs : List A) (a : A) → (contains xs a ≡ true) ↔ Any (λ x. x ≡ a) xs
  unfolding contains
  contains_iff [] a = (λ h. cc, λ h. absurd h)
  contains_iff (x ∷ xs) a = ground (arith, contains_iff xs a, e.beq_iff x a)

-- ===== src/Prelude/Results.antt =====
-- Rust's `Result`, with `?` as the bind of a do block.
use mathlib.Core.Path.{◌≡◌, refl, subst}
use mathlib.Core.Bool.{Bool, true, false}
use mathlib.Core.Logic.{◌⊎◌, inl, inr}

pub data Result {ℓ} (E : Type 0) (A : Type ℓ) : Type ℓ where
  ok : A → Result E A
  err : E → Result E A

module _ {ℓ κ} {E : Type 0} {A : Type ℓ} {B : Type κ} where
  infixl 5 ◌>>=◌
  -- `?` before the rest of a function.
  abbrev pub ◌>>=◌ : Result E A → (A → Result E B) → Result E B
  err e >>= rest = err e
  ok a >>= rest = rest a

  -- The value that a chain went on with.
  pub >>=-eq-ok :
      (m : Result E A) (rest : A → Result E B) {b : B}
      → (m >>= rest) ≡ ok b
      → (a : A) × (m ≡ ok a) × (rest a ≡ ok b)
  >>=-eq-ok (err e) rest done = cc
  >>=-eq-ok (ok a) rest done = (a, refl, done)

module _ {ℓ} {E : Type 0} {B : Type ℓ} where
  infixl 5 ◌>>◌
  abbrev pub ◌>>◌ : Result E (Unit {0}) → Result E B → Result E B
  err e >> rest = err e
  ok u >> rest = rest

  pub >>-eq-ok :
      (m : Result E (Unit {0})) (rest : Result E B) {b : B}
      → (m >> rest) ≡ ok b
      → (m ≡ ok tt) × (rest ≡ ok b)
  >>-eq-ok (err e) rest done = cc
  >>-eq-ok (ok u) rest done = (refl, done)

-- `if b { return Err(e) }`.
abbrev pub reject : {E : Type 0} → Bool → E → Result E (Unit {0})
reject true e = err e
reject false e = ok tt

-- `map_err`, the conversion of an error on its way out.
abbrev pub map_err {ℓ} : {E F : Type 0} {A : Type ℓ} → (E → F) → Result E A → Result F A
map_err f (ok a) = ok a
map_err f (err e) = err (f e)

pub reject-eq-ok : {E : Type 0} (b : Bool) (e : E) → reject b e ≡ ok tt → b ≡ false
reject-eq-ok true e h = cc
reject-eq-ok false e h = refl

pub Result-cases {ℓ} :
    {E : Type 0} {A : Type ℓ} (r : Result E A) → ((a : A) × (r ≡ ok a)) ⊎ ((e : E) × (r ≡ err e))
Result-cases (ok a) = inl (a, refl)
Result-cases (err e) = inr (e, refl)

module _ {ℓ} {E : Type 0} {A : Type ℓ} where
  pub ok_injective : {a b : A} → ◌≡◌ {A = Result E A} (ok a) (ok b) → a ≡ b
  ok_injective h = cc

  -- A chain that went on past a guard.
  pub reject->>-eq-ok :
      (b : Bool) (e : E) (k : Result E A) {a : A}
      → (reject b e >> k) ≡ ok a
      → (b ≡ false) × (k ≡ ok a)
  reject->>-eq-ok true e k h = cc
  reject->>-eq-ok false e k h = (refl, h)

  -- A chain goes on past a guard that lets it.
  pub reject->>-ok :
      (b : Bool) (e : E) (k : Result E A) {a : A} → b ≡ false → k ≡ ok a → (reject b e >> k) ≡ ok a
  reject->>-ok true e k f h = cc
  reject->>-ok false e k f h = h

  pub >>-ok :
      (m : Result E (Unit {0})) (k : Result E A) {a : A} → m ≡ ok tt → k ≡ ok a → (m >> k) ≡ ok a
  >>-ok (ok tt) k f h = h
  >>-ok (err e) k f h = cc

-- What holds of the value of a chain that ends well, by its links.
pub record Ensures {ℓ} {E : Type 0} {B : Type ℓ} (Q : B → Type 0) (r : Result E B) : Type ℓ where
  pub holds : (b : B) → r ≡ ok b → Q b

module _ {ℓ κ} {E : Type 0} {A : Type κ} {B : Type ℓ} {Q : B → Type 0} where
  pub Ensures->>= :
      {m : Result E A} {k : A → Result E B}
      → ((a : A) → m ≡ ok a → Ensures Q (k a))
      → Ensures Q (m >>= k)
  Ensures->>= {m} {k} h = record {
    holds = λ b e. let (a, p, q) = >>=-eq-ok m k e in (h a p).holds b q;
  }

module _ {ℓ} {E : Type 0} {B : Type ℓ} {Q : B → Type 0} where
  pub Ensures->> :
      {m : Result E (Unit {0})} {k : Result E B} → (m ≡ ok tt → Ensures Q k) → Ensures Q (m >> k)
  Ensures->> {m} {k} h = record { holds = λ b e. let (p, q) = >>-eq-ok m k e in (h p).holds b q }

  pub Ensures-ok : (a : B) → Q a → Ensures {E = E} Q (ok a)
  Ensures-ok a q = record { holds = λ b e. subst Q (ok_injective e) q }

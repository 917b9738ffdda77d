-- ===== src/Run/Encoding/Tells.antt =====
-- How pieces of an event's digest framing are read back one after the other
-- (crates/o7-run/src/event.rs, `frame` and the loops over it).
use model_lib.Prelude.{
  ℕ, ◌^◌, ◌<◌, List, [], ◌∷◌, ◌++◌, All, Bytes, Text, length, ◌≡◌, refl, sym, ◌∙◌, arith,
}
use model_lib.Run.Encoding.{le_bytes, frame, fold_each, fold_list}
use model_lib.Run.Encoding.Framing.{
  Fits-four, Fits-eight, head_of, tail_of, append_assoc, frame_unique, frame-le_bytes_unique,
}

-- Whatever follows them, the bytes `xs` and `ys` are only equal when `P` holds.
pub record Tells (xs ys : Bytes) (P : Type 0) : Type 0 where
  pub read : (r s : Bytes) → xs ++ r ≡ ys ++ s → P × (r ≡ s)

module _ {P : Type 0} where
  pub implies : {Q : Type 0} {xs ys : Bytes} → (P → Q) → Tells xs ys P → Tells xs ys Q
  implies f t = record { read = λ r s h. let (p, e) = t.read r s h in (f p, e) }

  pub then :
      {Q : Type 0} {xs ys us vs : Bytes}
      → Tells xs ys P
      → Tells us vs Q
      → Tells (xs ++ us) (ys ++ vs) (P × Q)
  then {xs} {ys} {us} {vs} t u = record {
    read = λ r s h.
        let (p, e) =
          t.read (us ++ r) (vs ++ s) (sym (append_assoc xs us r) ∙ h ∙ append_assoc ys vs s) in
        let (q, f) = u.read r s e in ((p, q), f);
  }

  pub byte_then : {x y : ℕ} {xs ys : Bytes} → Tells xs ys P → Tells (x ∷ xs) (y ∷ ys) ((x ≡ y) × P)
  byte_then t = record {
    read = λ r s h. let (p, e) = t.read r s (tail_of h) in ((head_of h, p), e);
  }

  pub apart : {x y : ℕ} {xs ys : Bytes} → (x ≡ y → ⊥) → Tells (x ∷ xs) (y ∷ ys) P
  apart f = record { read = λ r s h. absurd (f (head_of h)) }

pub nothing : Tells [] [] Unit
nothing = record { read = λ r s h. (tt, h) }

pub byte : {x y : ℕ} → Tells (x ∷ []) (y ∷ []) (x ≡ y)
byte = record { read = λ r s h. (head_of h, tail_of h) }

-- The length of a string or a slice is a u64.
abbrev pub IsShort : {A : Type 0} → List A → Type 0
IsShort xs = length xs < 2 ^ 64

pub text : {xs ys : Text} → IsShort xs → IsShort ys → Tells (frame xs) (frame ys) (xs ≡ ys)
text {xs} {ys} p q = record { read = λ r s h. frame_unique xs ys r s p q h }

pub word :
    {n m : ℕ}
    → n < 2 ^ 32
    → m < 2 ^ 32
    → Tells (frame (le_bytes 4 n)) (frame (le_bytes 4 m)) (n ≡ m)
word {n} {m} p q = record {
  read = λ r s h. frame-le_bytes_unique 4 n m r s (omega arith) (Fits-four n p) (Fits-four m q) h;
}

pub long :
    {n m : ℕ}
    → n < 2 ^ 64
    → m < 2 ^ 64
    → Tells (frame (le_bytes 8 n)) (frame (le_bytes 8 m)) (n ≡ m)
long {n} {m} p q = record {
  read = λ r s h. frame-le_bytes_unique 8 n m r s (omega arith) (Fits-eight n p) (Fits-eight m q) h;
}

module _ {A : Type 0} (f : A → Bytes) (R : A → Type 0)
    (one : (a b : A) → R a → R b → Tells (f a) (f b) (a ≡ b)) where
  each :
      (xs ys : List A)
      → All R xs
      → All R ys
      → length xs ≡ length ys
      → Tells (fold_each f xs) (fold_each f ys) (xs ≡ ys)
  unfolding fold_each
  each [] [] p q l = record { read = λ r s h. (refl, h) }
  each [] (y ∷ ys) p q l = absurd (omega arith)
  each (x ∷ xs) [] p q l = absurd (omega arith)
  each (x ∷ xs) (y ∷ ys) p q l =
      implies (λ (e, es). cons e es) (then (one x y p.0 q.0) (each xs ys p.1 q.1 (omega arith)))
    where
      cons : x ≡ y → xs ≡ ys → x ∷ xs ≡ y ∷ ys
      cons e es = cc

  pub list :
      (xs ys : List A)
      → IsShort xs × All R xs
      → IsShort ys × All R ys
      → Tells (fold_list f xs) (fold_list f ys) (xs ≡ ys)
  unfolding fold_list
  list xs ys p q = record {
    read = λ r s h.
        let (l, t) = (long p.0 q.0).read (fold_each f xs ++ r) (fold_each f ys ++ s) (
          sym (append_assoc (frame (le_bytes 8 (length xs))) (fold_each f xs) r)
          ∙ h
          ∙ append_assoc (frame (le_bytes 8 (length ys))) (fold_each f ys) s) in
        (each xs ys p.1 q.1 l).read r s t;
  }

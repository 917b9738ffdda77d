-- ===== src/Run/Ids/Hex.antt =====
-- The text of a digest (crates/o7-run/src/event.rs, `Digest256`).
use model_lib.Prelude.{
  ℕ, ◌+◌, ◌*◌, ◌-◌, ◌<◌, ◌/◌, ◌%◌, true, some, [], ◌∷◌, Bytes, Text, ltb, nat_eq, length, All, ok,
  Bool-cases, inl, inr, ◌≡◌, refl, ap, sym, ◌∙◌, subst, arith,
}
use model_lib.Run.Ids.{
  Sha256, IsByte, is_hex_digit, all_hex, is_canonical_hex, parse, hex_digit, push_hex, hex_lower,
  of_bytes,
}

hex_digit-some : (i : ℕ) → i < 16 → (d : ℕ) × (hex_digit i ≡ some d) × (is_hex_digit d ≡ true)
unfolding hex_digit is_hex_digit
hex_digit-some i h = elim (Bool-cases (ltb i 10)) [
  | inl small ↦ (b'0' + i, rw small refl, ground arith)
  | inr large ↦ (b'a' + (i - 10), rw large (ground arith), ground arith)
]

-- The two digits of a byte.
hex_lower-cons :
    (b : ℕ) (bs : Bytes)
    → IsByte b
    → (hi lo : ℕ) × (hex_digit (b / 16) ≡ some hi)
      × (hex_digit (b % 16) ≡ some lo)
      × (is_hex_digit hi ≡ true)
      × (is_hex_digit lo ≡ true)
      × (hex_lower (b ∷ bs) ≡ hi ∷ lo ∷ hex_lower bs)
unfolding hex_lower push_hex
hex_lower-cons b bs h =
    let (hi, e, p) = hex_digit-some (b / 16) (omega arith) in
    let (lo, f, q) = hex_digit-some (b % 16) (omega arith) in (hi, lo, e, f, p, q, rw (e, f) refl)

all_hex-two :
    (hi lo : ℕ) (t : Text)
    → is_hex_digit hi ≡ true
    → is_hex_digit lo ≡ true
    → all_hex t ≡ true
    → all_hex (hi ∷ lo ∷ t) ≡ true
unfolding all_hex is_hex_digit
all_hex-two hi lo t p q r = rw (p, q) r

hex_lower-IsHex :
    (bs : Bytes)
    → All IsByte bs
    → (all_hex (hex_lower bs) ≡ true) × (length (hex_lower bs) ≡ 2 * length bs)
unfolding hex_lower all_hex
hex_lower-IsHex [] h = (refl, refl)
hex_lower-IsHex (b ∷ bs) h =
    let (hi, lo, e, f, p, q, same) = hex_lower-cons b bs h.0 in
    let (r, n) = hex_lower-IsHex bs h.1 in
    (
      subst (λ t. all_hex t ≡ true) (sym same) (all_hex-two hi lo (hex_lower bs) p q r),
      ap length same ∙ omega arith,
    )

module _ (sha : Sha256) where
  -- The digest of any bytes is a text that `parse` accepts: 64 lower-case hexadecimal digits.
  pub of_bytes-canonical : (m : Bytes) → parse (of_bytes sha m) ≡ ok (of_bytes sha m)
  unfolding parse of_bytes is_canonical_hex
  of_bytes-canonical m =
      let (r, n) = hex_lower-IsHex (sha.finalize m) (sha.finalize_bytes m) in
      rw (n ∙ ap (λ k. 2 * k) (sha.finalize_length m), r) refl

hex_digit-injective :
    (i j d : ℕ) → i < 16 → j < 16 → hex_digit i ≡ some d → hex_digit j ≡ some d → i ≡ j
unfolding hex_digit
hex_digit-injective i j d h k e f = ground arith

nil_cons : {x : ℕ} {xs : Bytes} → hex_lower [] ≡ x ∷ xs → ⊥
unfolding hex_lower
nil_cons h = cc

split : {a b c d : ℕ} {xs ys : Bytes} → a ∷ b ∷ xs ≡ c ∷ d ∷ ys → (a ≡ c) × (b ≡ d) × (xs ≡ ys)
split h = (cc, cc, cc)

same_byte : (x y : ℕ) → x / 16 ≡ y / 16 → x % 16 ≡ y % 16 → x ≡ y
same_byte x y h k = omega arith

-- The text of a digest determines its bytes.
pub hex_lower-injective :
    (a b : Bytes) → All IsByte a → All IsByte b → hex_lower a ≡ hex_lower b → a ≡ b
hex_lower-injective [] [] p q h = refl
hex_lower-injective [] (y ∷ ys) p q h = absurd (nil_cons (h ∙ (hex_lower-cons y ys q.0).6))
hex_lower-injective (x ∷ xs) [] p q h = absurd (nil_cons (sym h ∙ (hex_lower-cons x xs p.0).6))
hex_lower-injective (x ∷ xs) (y ∷ ys) p q h =
    let (hi, lo, e, f, a, b, same) = hex_lower-cons x xs p.0 in
    let (ho, lp, g, k, c, d, too) = hex_lower-cons y ys q.0 in
    let both = sym same ∙ h ∙ too in
    let (s, t, rest) = split both in
    let top =
      hex_digit-injective (x / 16) (y / 16) hi (omega arith) (omega arith) e
        (g ∙ ap some (sym s)) in
    let low =
      hex_digit-injective (x % 16) (y % 16) lo (omega arith) (omega arith) f
        (k ∙ ap some (sym t)) in
    let one = same_byte x y top low in
    ap (λ z. z ∷ xs) one ∙ ap (λ zs. y ∷ zs) (hex_lower-injective xs ys p.1 q.1 rest)

-- ===== src/Run/Ids.antt =====
-- crates/o7-run/src/ids.rs and `Digest256` of event.rs: validated newtypes over `String`.
-- A newtype is its text; the constructors that check its form are the functions below.
pub mod Hex
use model_lib.Prelude.{
  ℕ, suc, ◌+◌, ◌-◌, ◌<◌, ◌/◌, ◌%◌, ◌≡◌, Bool, true, false, ◌&&◌, ◌||◌, Option, none, some, List, [],
  ◌∷◌, ◌++◌, Bytes, Text, is_empty, leb, ltb, ◌==◌, nat_eq, if◌then◌else◌, length, All, Result, ok,
  err,
}

abbrev pub RunId : Type 0
RunId = Text

abbrev pub RunEventId : Type 0
RunEventId = Text

abbrev pub GateId : Type 0
GateId = Text

-- `IdError` carries the kind of identifier that was refused.
pub data IdError : Type 0 where
  empty_id : IdError

-- `RunId::new`, and likewise `RunEventId::new` and `GateId::new`: one macro makes all three.
unfoldable pub new_id : Text → Result IdError Text
new_id raw = if is_empty raw then err IdError.empty_id else ok raw

abbrev pub Digest256 : Type 0
Digest256 = Text

pub record DigestFormatError : Type 0 where
  pub value : Text

-- `b.is_ascii_digit() || (b'a'..=b'f').contains(&b)`
unfoldable pub is_hex_digit : ℕ → Bool
is_hex_digit b = leb b'0' b && leb b b'9' || leb b'a' b && leb b b'f'

unfoldable pub all_hex : Text → Bool
unfolding is_hex_digit
all_hex [] = true
all_hex (b ∷ bs) = is_hex_digit b && all_hex bs

unfoldable pub is_canonical_hex : Text → Bool
unfolding all_hex
is_canonical_hex s = length s == 64 && all_hex s

unfoldable pub parse : Text → Result DigestFormatError Digest256
unfolding is_canonical_hex
parse s = if is_canonical_hex s then ok s else err (record { value = s })

unfoldable pub repeat_byte : ℕ → ℕ → Bytes
repeat_byte n b = elim n [ ℕ.zero ↦ [] | suc (m → rest) ↦ b ∷ rest ]

-- The all-zero digest that the first event of a run links to.
unfoldable pub genesis : Digest256
unfolding repeat_byte
genesis = repeat_byte 64 b'0'

-- `HEX.get(i)` with `HEX = b"0123456789abcdef"`.
unfoldable pub hex_digit : ℕ → Option ℕ
hex_digit i =
    if ltb i 10 then some (b'0' + i) else if ltb i 16 then some (b'a' + (i - 10)) else none

unfoldable pub push_hex : Option ℕ → Option ℕ → Text → Text
push_hex (some hi) (some lo) out = hi ∷ lo ∷ out
push_hex (some hi) none out = out
push_hex none lo out = out

unfoldable pub hex_lower : Bytes → Text
unfolding hex_digit push_hex
hex_lower [] = []
hex_lower (b ∷ bs) = push_hex (hex_digit (b / 16)) (hex_digit (b % 16)) (hex_lower bs)

abbrev pub IsByte : ℕ → Type 0
IsByte b = b < 256

-- SHA-256 is the `sha2` crate's: the model takes it as a function on byte strings. What the
-- program relies on is that a digest is 32 bytes.
pub record Sha256 : Type 0 where
  pub finalize : Bytes → Bytes
  pub finalize_length : (m : Bytes) → length (finalize m) ≡ 32
  pub finalize_bytes : (m : Bytes) → All IsByte (finalize m)

unfoldable pub of_bytes : Sha256 → Bytes → Digest256
unfolding hex_lower
of_bytes sha bytes = hex_lower (sha.finalize bytes)

-- ===== src/Run/Encoding/Framing.antt =====
-- The framing of an event's fields can be read back (crates/o7-run/src/event.rs, `frame` and
-- `compute_digest`).
use model_lib.Prelude.{
  ℕ, zero, suc, ◌/◌, ◌^◌, ◌<◌, [], ◌∷◌, ◌++◌, Bytes, length, ◌≡◌, refl, sym, ap, ◌∙◌, arith,
}
use model_lib.Run.Event.{RunEvent, tag}
use model_lib.Run.Encoding.{le_bytes, frame, fold_kind, domain, preimage}

-- A number that fits in so many bytes.
abbrev pub Fits : ℕ → ℕ → Type 0
Fits zero n = n ≡ 0
Fits (suc w) n = Fits w (n / 256)

pub Fits-four : (n : ℕ) → n < 2 ^ 32 → Fits 4 n
Fits-four n h = omega arith

pub Fits-eight : (n : ℕ) → n < 2 ^ 64 → Fits 8 n
Fits-eight n h = omega arith

pub head_of : {x y : ℕ} {xs ys : Bytes} → x ∷ xs ≡ y ∷ ys → x ≡ y
head_of h = cc

pub tail_of : {x y : ℕ} {xs ys : Bytes} → x ∷ xs ≡ y ∷ ys → xs ≡ ys
tail_of h = cc

le_bytes_unique :
    (w n m : ℕ) (r s : Bytes)
    → Fits w n
    → Fits w m
    → le_bytes w n ++ r ≡ le_bytes w m ++ s
    → (n ≡ m) × (r ≡ s)
unfolding le_bytes
le_bytes_unique zero n m r s f g h = (f ∙ sym g, h)
le_bytes_unique (suc w) n m r s f g h =
    let (q, t) = le_bytes_unique w (n / 256) (m / 256) r s f g (tail_of h) in
    let low = head_of h in (omega arith, t)

pub append_unique :
    (xs ys r s : Bytes) → length xs ≡ length ys → xs ++ r ≡ ys ++ s → (xs ≡ ys) × (r ≡ s)
append_unique [] [] r s l h = (refl, h)
append_unique [] (y ∷ ys) r s l h = cc
append_unique (x ∷ xs) [] r s l h = cc
append_unique (x ∷ xs) (y ∷ ys) r s l h =
    let (e, t) = append_unique xs ys r s (omega arith) (tail_of h) in (cc, t)

pub append_assoc : (xs ys zs : Bytes) → (xs ++ ys) ++ zs ≡ xs ++ (ys ++ zs)
append_assoc [] ys zs = refl
append_assoc (x ∷ xs) ys zs = ap (λ l. x ∷ l) (append_assoc xs ys zs)

pub frame_unique :
    (xs ys r s : Bytes)
    → length xs < 2 ^ 64
    → length ys < 2 ^ 64
    → frame xs ++ r ≡ frame ys ++ s
    → (xs ≡ ys) × (r ≡ s)
unfolding frame
frame_unique xs ys r s f g h =
    let (l, t) =
      le_bytes_unique 8 (length xs) (length ys) (xs ++ r) (ys ++ s) (Fits-eight _ f)
        (Fits-eight _ g)
        (sym (append_assoc (le_bytes 8 (length xs)) xs r)
          ∙ h
          ∙ append_assoc (le_bytes 8 (length ys)) ys s) in
    append_unique xs ys r s l t

length-le_bytes : (w n : ℕ) → length (le_bytes w n) ≡ w
unfolding le_bytes
length-le_bytes zero n = refl
length-le_bytes (suc w) n = ap suc (length-le_bytes w (n / 256))

-- A framed integer.
pub frame-le_bytes_unique :
    (w n m : ℕ) (r s : Bytes)
    → w < 256
    → Fits w n
    → Fits w m
    → frame (le_bytes w n) ++ r ≡ frame (le_bytes w m) ++ s
    → (n ≡ m) × (r ≡ s)
frame-le_bytes_unique w n m r s b f g h =
    let (e, t) = frame_unique (le_bytes w n) (le_bytes w m) r s (short w n b) (short w m b) h in
    ((le_bytes_unique w n m [] [] f g (ap (λ x. x ++ []) e)).0, t)
  where
    short : (w n : ℕ) → w < 256 → length (le_bytes w n) < 2 ^ 64
    short w n b = let l = length-le_bytes w n in omega arith

-- The ranges of the source's types: u32, u64, i64, and the length of a string.
pub record IsInRange (e : RunEvent) : Type 0 where
  pub schema_version : e.schema_version < 2 ^ 32
  pub sequence : e.sequence < 2 ^ 64
  pub timestamp_millis : e.timestamp_millis < 2 ^ 64
  pub run_id : length e.run_id < 2 ^ 64
  pub event_id : length e.event_id < 2 ^ 64
  pub previous_event_digest : length e.previous_event_digest < 2 ^ 64

-- Two events agree in every field that the digest is over: the envelope, the tag of the payload
-- and its encoded fields.
pub record IsSameEvent (a b : RunEvent) : Type 0 where
  pub schema_version : a.schema_version ≡ b.schema_version
  pub run_id : a.run_id ≡ b.run_id
  pub sequence : a.sequence ≡ b.sequence
  pub previous_event_digest : a.previous_event_digest ≡ b.previous_event_digest
  pub timestamp_millis : a.timestamp_millis ≡ b.timestamp_millis
  pub event_id : a.event_id ≡ b.event_id
  pub tag : tag a.kind ≡ tag b.kind
  pub payload : fold_kind a.kind ≡ fold_kind b.kind

-- The bytes that an event's digest is over determine its fields: two events in range with the same
-- bytes have the same envelope, the same tag and the same encoded payload.
pub preimage-IsSameEvent :
    (a b : RunEvent) → IsInRange a → IsInRange b → preimage a ≡ preimage b → IsSameEvent a b
unfolding preimage
preimage-IsSameEvent a b p q h =
    let (d, h1) = append_unique domain domain _ _ refl h in
    let (schema, h2) =
      frame-le_bytes_unique 4 a.schema_version b.schema_version _ _ (omega arith)
        (Fits-four _ p.schema_version) (Fits-four _ q.schema_version) h1 in
    let (run, h3) = frame_unique a.run_id b.run_id _ _ p.run_id q.run_id h2 in
    let (seq, h4) =
      frame-le_bytes_unique 8 a.sequence b.sequence _ _ (omega arith) (Fits-eight _ p.sequence)
        (Fits-eight _ q.sequence) h3 in
    let (prev, h5) =
      frame_unique a.previous_event_digest b.previous_event_digest _ _ p.previous_event_digest
        q.previous_event_digest h4 in
    let (time, h6) =
      frame-le_bytes_unique 8 a.timestamp_millis b.timestamp_millis _ _ (omega arith)
        (Fits-eight _ p.timestamp_millis) (Fits-eight _ q.timestamp_millis) h5 in
    let (id, h7) = frame_unique a.event_id b.event_id _ _ p.event_id q.event_id h6 in
    record {
      schema_version = schema;
      run_id = run;
      sequence = seq;
      previous_event_digest = prev;
      timestamp_millis = time;
      event_id = id;
      tag = head_of h7;
      payload = tail_of h7;
    }

-- ===== src/Run/Artifacts/Confinement.antt =====
-- Which locators a record's directory resolves (crates/o7-run/src/replay.rs,
-- `RecordDirResolver::confined`).
use model_lib.Prelude.{
  ℕ, true, false, List, [], ◌∷◌, ◌++◌, Text, text_eq, nat_eq, inl, inr, Bool-cases, ◌∙◌, subst, sym,
  length, suc, ◌==◌, text_beq_iff, All, ◌≡◌, ◌≢◌, ◌↔◌, refl, ap, arith,
}
use model_lib.Run.Artifacts.{
  Component, split_slash, dot, dot_dot, later_components, first_components, components, is_normal,
  all_normal, confined,
}

-- The first segment is a name: a path that starts with a slash has an empty one.
abbrev pub StartsWithName : List Text → Type 0
StartsWithName [] = ⊥
StartsWithName (s ∷ ss) = (s ≢ []) × (s ≢ dot)

abbrev pub HasNoParent : List Text → Type 0
HasNoParent = All λ s. s ≢ dot_dot

later_iff : (ss : List Text) → (all_normal (later_components ss) ≡ true) ↔ HasNoParent ss
unfolding later_components all_normal is_normal
later_iff [] = (λ h. tt, λ h. refl)
later_iff (s ∷ ss) =
    let d = text_beq_iff s dot in
    let p = text_beq_iff s dot_dot in
    let rest = later_iff ss in
    (ground (arith, d.0, p.1, rest.0, rest.1), ground (arith, d.0, p.0, rest.0, rest.1))

first_iff :
    (s : Text) (ss : List Text)
    → s ∷ ss ≢ [] ∷ []
    → (all_normal (first_components (s ∷ ss)) ≡ true)
      ↔ (StartsWithName (s ∷ ss) × HasNoParent (s ∷ ss))
unfolding first_components all_normal is_normal
first_iff s [] n =
    let d = text_beq_iff s dot in
    let rest = later_iff (s ∷ []) in
    (ground (arith, d.1, rest.0, rest.1), ground (arith, d.0, rest.0, rest.1))
first_iff s (t ∷ ts) n =
    let d = text_beq_iff s dot in
    let rest = later_iff (s ∷ t ∷ ts) in
    (ground (arith, d.1, rest.0, rest.1), ground (arith, d.0, rest.0, rest.1))

-- Some segment stands first, and a path that is not empty has more than an empty one.
split_slash-cons : (p : Text) → (s : Text) × (ss : List Text) × (split_slash p ≡ s ∷ ss)
unfolding split_slash
split_slash-cons [] = ([], [], refl)
split_slash-cons (b ∷ bs) =
    let (s, ss, e) = split_slash-cons bs in
    elim (Bool-cases (b == b'/')) [
      | inl slash ↦ ([], s ∷ ss, rw (slash, e) refl)
      | inr other ↦ (b ∷ s, ss, rw (other, e) refl)
    ]

split_slash-nonempty : (b : ℕ) (bs : Text) → split_slash (b ∷ bs) ≢ [] ∷ []
unfolding split_slash
split_slash-nonempty b bs =
    let (s, ss, e) = split_slash-cons bs in
    elim (Bool-cases (b == b'/')) [
      | inl slash ↦ rw (slash, e) λ h. cc
      | inr other ↦ rw (other, e) λ h. cc
    ]

-- A locator is confined exactly when its first segment is a name, neither empty nor `.`, and no
-- segment is `..`: an absolute path and a path to a parent are refused.
pub confined_iff :
    (p : Text)
    → (confined p ≡ true) ↔ (StartsWithName (split_slash p) × HasNoParent (split_slash p))
unfolding confined components split_slash
confined_iff [] = (λ h. cc, λ h. absurd (h.0.0 refl))
confined_iff (b ∷ bs) =
    let (s, ss, e) = split_slash-cons (b ∷ bs) in
    subst (λ l. (all_normal (first_components l) ≡ true) ↔ (StartsWithName l × HasNoParent l))
      (sym e) (first_iff s ss (λ h. split_slash-nonempty b bs (e ∙ h)))

-- The directory above: `..` of the root is the root.
unfoldable pub parent : List Text → List Text
parent [] = []
parent (d ∷ []) = []
parent (d ∷ e ∷ ds) = d ∷ parent (e ∷ ds)

-- Where a path leads from a directory by its components alone.
unfoldable pub walk : List Text → List Component → List Text
walk dir [] = dir
walk dir (Component.root_dir ∷ cs) = walk [] cs
walk dir (Component.cur_dir ∷ cs) = walk dir cs
walk dir (Component.parent_dir ∷ cs) = walk (parent dir) cs
walk dir (Component.normal s ∷ cs) = walk (dir ++ s ∷ []) cs

append_assoc : (xs ys zs : List Text) → (xs ++ ys) ++ zs ≡ xs ++ (ys ++ zs)
append_assoc [] ys zs = refl
append_assoc (x ∷ xs) ys zs = ap (λ l. x ∷ l) (append_assoc xs ys zs)

append_nil : (xs : List Text) → xs ≡ xs ++ []
append_nil [] = refl
append_nil (x ∷ xs) = ap (λ l. x ∷ l) (append_nil xs)

walk-normal :
    (dir : List Text) (cs : List Component)
    → all_normal cs ≡ true
    → (names : List Text) × (walk dir cs ≡ dir ++ names) × (length names ≡ length cs)
unfolding walk all_normal is_normal
walk-normal dir [] h = ([], append_nil dir, refl)
walk-normal dir (Component.normal s ∷ cs) h =
    let (names, w, n) = walk-normal (dir ++ s ∷ []) cs h in
    (s ∷ names, w ∙ append_assoc dir (s ∷ []) names, ap suc n)
walk-normal dir (Component.root_dir ∷ cs) h = cc
walk-normal dir (Component.cur_dir ∷ cs) h = cc
walk-normal dir (Component.parent_dir ∷ cs) h = cc

abbrev IsCons {ℓ} : {A : Type ℓ} → List A → Type 0
IsCons [] = ⊥
IsCons (x ∷ xs) = Unit

later-IsCons :
    (x : ℕ) (s : Text) (ss : List Text)
    → (x ∷ s) == dot ≡ false
    → IsCons (later_components ((x ∷ s) ∷ ss))
unfolding later_components
later-IsCons x s ss h = elim (Bool-cases ((x ∷ s) == dot_dot)) [
  | inl up ↦ rw (h, up) tt
  | inr name ↦ rw (h, name) tt
]

first-IsCons : (ss : List Text) → StartsWithName ss → IsCons (first_components ss)
unfolding first_components
first-IsCons [] h = absurd h
first-IsCons ([] ∷ ss) h = absurd (h.0 refl)
first-IsCons ((x ∷ s) ∷ ss) h = elim (Bool-cases ((x ∷ s) == dot)) [
  | inl is_dot ↦ absurd (h.1 ((text_beq_iff (x ∷ s) dot).0 is_dot))
  | inr name ↦ at_first x s ss name
]
  where
    at_first :
        (x : ℕ) (s : Text) (ss : List Text)
        → (x ∷ s) == dot ≡ false
        → IsCons (first_components ((x ∷ s) ∷ ss))
    at_first x s [] n = rw n (later-IsCons x s [] n)
    at_first x s (t ∷ ts) n = rw n (later-IsCons x s (t ∷ ts) n)

below :
    (dir : List Text) (cs : List Component) (names : List Text)
    → IsCons cs
    → walk dir cs ≡ dir ++ names
    → length names ≡ length cs
    → (name : Text) × (more : List Text) × (walk dir cs ≡ dir ++ name ∷ more)
      × (length (name ∷ more) ≡ length cs)
below dir [] names i w n = absurd i
below dir (c ∷ cs) [] i w n = cc
below dir (c ∷ cs) (name ∷ more) i w n = (name, more, w, n)

-- A confined locator leads from a record's directory to a place strictly below it, by as many names
-- as the locator has components.
pub confined-below :
    (dir : List Text) (p : Text)
    → confined p ≡ true
    → (name : Text) × (names : List Text) × (walk dir (components p) ≡ dir ++ name ∷ names)
      × (length (name ∷ names) ≡ length (components p))
unfolding confined components
confined-below dir [] h = cc
confined-below dir (b ∷ bs) h =
    let (names, w, n) = walk-normal dir (components (b ∷ bs)) h in
    below dir (components (b ∷ bs)) names
      (first-IsCons (split_slash (b ∷ bs)) ((confined_iff (b ∷ bs)).0 h).0) w n

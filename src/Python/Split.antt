-- ===== src/Python/Split.antt =====
-- `s.split(d)` and `s.rsplit(d, k)` for a separator of one character.
use lan_manager.Prelude.{
  ℕ, ◌≡◌, refl, ap, true, false, ◌≢◌, List, [], ◌∷◌, ◌++◌, Option, none, some, Text, ◌==◌,
  if◌then◌else◌, arith, All, Option-cases, Bool-cases, inl, inr,
}

-- `s.split(d)`, which is never empty: its first part and the others.
unfoldable pub split_parts : ℕ → Text → Text × List Text
split_parts d [] = ([], [])
split_parts d (c ∷ s) =
    let (part, parts) = split_parts d s in if c == d then ([], part ∷ parts) else (c ∷ part, parts)

unfoldable pub split : ℕ → Text → List Text
unfolding split_parts
split d s = let (part, parts) = split_parts d s in part ∷ parts

-- At the last `d`: what stands before and after it.
unfoldable pub split_last : ℕ → Text → Option (Text × Text)
split_last d [] = none
split_last d (c ∷ s) = elim (split_last d s) [
  | some (a, b) ↦ some (c ∷ a, b)
  | none ↦ if c == d then some ([], s) else none
]

-- At the first `d`: `s.partition(d)`.
unfoldable pub split_first : ℕ → Text → Option (Text × Text)
split_first d [] = none
split_first d (c ∷ s) =
    let rest = split_first d s in
    if c == d then some ([], s) else elim rest [ none ↦ none | some (a, b) ↦ some (c ∷ a, b) ]

abbrev pub Lacks : ℕ → Text → Type 0
Lacks d = All (λ c. (c == d) ≡ false)

pub split_last-Lacks : (d : ℕ) (s : Text) → Lacks d s → split_last d s ≡ none
unfolding split_last
split_last-Lacks d [] h = refl
split_last-Lacks d (c ∷ s) h = rw (split_last-Lacks d s h.1, h.0)

pub split_last-append : (d : ℕ) (a b : Text) → Lacks d b → split_last d (a ++ d ∷ b) ≡ some (a, b)
unfolding split_last
split_last-append d [] b h = ground (arith, split_last-Lacks d b h)
split_last-append d (c ∷ a) b h = rw (split_last-append d a b h)

split_last-none : (d : ℕ) (s : Text) → split_last d s ≡ none → Lacks d s
unfolding split_last
split_last-none d [] h = tt
split_last-none d (c ∷ s) h = ground (arith, split_last-none d s)

split_last_absent :
    (d c : ℕ) (s a b : Text)
    → split_last d s ≡ none
    → split_last d (c ∷ s) ≡ some (a, b)
    → (c ≡ d) × (a ≡ []) × (b ≡ s)
unfolding split_last
split_last_absent d c s a b e h = ground arith

split_last_found :
    (d c : ℕ) (s a b : Text) (p : Text × Text)
    → split_last d s ≡ some p
    → split_last d (c ∷ s) ≡ some (a, b)
    → (a ≡ c ∷ p.0) × (b ≡ p.1)
unfolding split_last
split_last_found d c s a b p e h = ground arith

-- What `split_last` answers puts the text together again.
pub split_last_sound :
    (d : ℕ) (s a b : Text) → split_last d s ≡ some (a, b) → (s ≡ a ++ d ∷ b) × Lacks d b
unfolding split_last
split_last_sound d [] a b h = cc
split_last_sound d (c ∷ s) a b h = elim (Option-cases (split_last d s)) [
  | inl absent ↦
      let (same, empty, rest) = split_last_absent d c s a b absent h in
      rw (same, empty, rest) (refl, split_last-none d s absent)
  | inr (p, found) ↦
      let (front, back) = split_last_found d c s a b p found h in
      let (whole, lacks) = split_last_sound d s p.0 p.1 found in
      rw (front, back) (ap (◌∷◌ c) whole, lacks)
]

pub split_first-append : (d : ℕ) (a b : Text) → Lacks d a → split_first d (a ++ d ∷ b) ≡ some (a, b)
unfolding split_first
split_first-append d [] b h = ground arith
split_first-append d (c ∷ a) b h = rw (h.0, split_first-append d a b h.1) refl

split_first_here :
    (d c : ℕ) (s a b : Text)
    → (c == d) ≡ true
    → split_first d (c ∷ s) ≡ some (a, b)
    → (c ≡ d) × (a ≡ []) × (b ≡ s)
unfolding split_first
split_first_here d c s a b e h = ground arith

split_first_found :
    (d c : ℕ) (s a b : Text) (p : Text × Text)
    → (c == d) ≡ false
    → split_first d s ≡ some p
    → split_first d (c ∷ s) ≡ some (a, b)
    → (a ≡ c ∷ p.0) × (b ≡ p.1)
unfolding split_first
split_first_found d c s a b p e found h = ground arith

split_first_absent :
    (d c : ℕ) (s : Text) (p : Text × Text)
    → (c == d) ≡ false
    → split_first d s ≡ none
    → split_first d (c ∷ s) ≢ some p
unfolding split_first
split_first_absent d c s p e absent h = ground arith

-- What `split_first` answers puts the text together again.
pub split_first_sound :
    (d : ℕ) (s a b : Text) → split_first d s ≡ some (a, b) → (s ≡ a ++ d ∷ b) × Lacks d a
unfolding split_first
split_first_sound d [] a b h = cc
split_first_sound d (c ∷ s) a b h = elim (Bool-cases (c == d)) [
  | inl here ↦
      let (same, empty, rest) = split_first_here d c s a b here h in
      rw (same, empty, rest) (refl, tt)
  | inr later ↦ elim (Option-cases (split_first d s)) [
    | inl absent ↦ absurd (split_first_absent d c s (a, b) later absent h)
    | inr (p, found) ↦
        let (front, back) = split_first_found d c s a b p later found h in
        let (whole, lacks) = split_first_sound d s p.0 p.1 found in
        rw (front, back) (ap (◌∷◌ c) whole, (later, lacks))
  ]
]

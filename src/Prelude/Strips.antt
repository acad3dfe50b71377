-- ===== src/Prelude/Strips.antt =====
-- Laws of `strip`.
use lan_manager.Prelude.Tests.{Bool-cases}
use mathlib.Core.Logic.{inl, inr}
use lan_manager.Prelude.Lists.{All}
use lan_manager.Prelude.Texts.{Text, nonempty, is_space, strip_left, strip_right, strip}
use Prim.Native.Nat.{ℕ}
use mathlib.Core.Path.{◌≡◌, refl}
use mathlib.Core.Bool.{Bool, true, false, not, ◌&&◌}
use mathlib.Core.List.{[], ◌∷◌, ◌++◌, map}
use native.Mathlib.Omega.{arith}

-- No blank at the front.
abbrev pub IsClean : Text → Type 0
IsClean [] = Unit
IsClean (c ∷ s) = is_space c ≡ false

strip_left-IsClean : (s : Text) → IsClean (strip_left s)
unfolding strip_left
strip_left-IsClean [] = tt
strip_left-IsClean (c ∷ s) = elim (Bool-cases (is_space c)) [
  | inl blank ↦ rw blank (strip_left-IsClean s)
  | inr not_blank ↦ rw not_blank not_blank
]

pub strip_left_of_clean : (s : Text) → IsClean s → strip_left s ≡ s
unfolding strip_left
strip_left_of_clean [] h = refl
strip_left_of_clean (c ∷ s) h = rw h

strip_right-IsClean : (s : Text) → IsClean s → IsClean (strip_right s)
unfolding strip_right
strip_right-IsClean [] h = tt
strip_right-IsClean (c ∷ s) h = rw h h

strip_right_idem : (s : Text) → strip_right (strip_right s) ≡ strip_right s
unfolding strip_right
strip_right_idem [] = refl
strip_right_idem (c ∷ s) = ground (arith, strip_right_idem s)

pub strip_idem : (s : Text) → strip (strip s) ≡ strip s
unfolding strip
strip_idem s =
    rw
      (strip_left_of_clean (strip_right (strip_left s))
        (strip_right-IsClean (strip_left s) (strip_left-IsClean s)))
      (strip_right_idem (strip_left s))

pub strip-IsClean : (s : Text) → IsClean (strip s)
unfolding strip
strip-IsClean s = strip_right-IsClean (strip_left s) (strip_left-IsClean s)

nonempty-append : (s : Text) (c : ℕ) → nonempty (s ++ c ∷ []) ≡ true
nonempty-append [] c = refl
nonempty-append (d ∷ s) c = refl

and_false : (b : Bool) → (b && false) ≡ false
and_false true = refl
and_false false = refl

-- A text that ends in no blank.
pub strip_right_of_solid :
    (s : Text) (c : ℕ) → is_space c ≡ false → strip_right (s ++ c ∷ []) ≡ s ++ c ∷ []
unfolding strip_right
strip_right_of_solid [] c h = rw h refl
strip_right_of_solid (d ∷ s) c h =
    rw (strip_right_of_solid s c h, nonempty-append s c, and_false (is_space d)) refl

-- What holds of all characters holds of those that `strip` leaves.
module _ {κ} (P : ℕ → Type κ) where
  strip_left-All : (s : Text) → All P s → All P (strip_left s)
  unfolding strip_left
  strip_left-All [] h = tt
  strip_left-All (c ∷ s) h = elim (Bool-cases (is_space c)) [
    | inl blank ↦ rw blank (strip_left-All s h.1)
    | inr solid ↦ rw solid h
  ]

  strip_right-All : (s : Text) → All P s → All P (strip_right s)
  unfolding strip_right
  strip_right-All [] h = tt
  strip_right-All (c ∷ s) h = elim (Bool-cases (is_space c && not (nonempty (strip_right s)))) [
    | inl blank ↦ rw blank tt
    | inr solid ↦ rw solid (h.0, strip_right-All s h.1)
  ]

  pub strip-All : (s : Text) → All P s → All P (strip s)
  unfolding strip
  strip-All s h = strip_right-All (strip_left s) (strip_left-All s h)

-- A map that keeps blanks and makes none.
module _ (f : ℕ → ℕ) (keeps : (c : ℕ) → is_space (f c) ≡ is_space c) where
  strip_left-map : (s : Text) → strip_left (map f s) ≡ map f (strip_left s)
  unfolding strip_left
  strip_left-map [] = refl
  strip_left-map (c ∷ s) = ground (arith, keeps c, strip_left-map s)

  strip_right-map : (s : Text) → strip_right (map f s) ≡ map f (strip_right s)
  unfolding strip_right
  strip_right-map [] = refl
  strip_right-map (c ∷ s) = ground (arith, keeps c, strip_right-map s)

  pub strip-map : (s : Text) → strip (map f s) ≡ map f (strip s)
  unfolding strip
  strip-map s = rw (strip_left-map s) (strip_right-map (strip_left s))

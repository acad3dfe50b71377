-- ===== src/Prelude/Places.antt =====
-- The elements of a list by their place, which stands for the identity of an object.
use Prim.Native.Nat.{ℕ, zero, suc, ◌<◌}
use mathlib.Core.Path.{◌≡◌, refl}
use mathlib.Core.Logic.{◌≢◌}
use mathlib.Core.List.{List, [], ◌∷◌, ◌++◌}
use mathlib.Core.Option.{Option, none, some}
use native.Mathlib.Omega.{arith}
use lan_manager.Prelude.Lists.{length}

module _ {ℓ} {A : Type ℓ} where
  abbrev pub nth : List A → ℕ → Option A
  nth [] i = none
  nth (x ∷ xs) zero = some x
  nth (x ∷ xs) (suc i) = nth xs i

  abbrev pub put_nth : List A → ℕ → A → List A
  put_nth [] i y = []
  put_nth (x ∷ xs) zero y = y ∷ xs
  put_nth (x ∷ xs) (suc i) y = x ∷ put_nth xs i y

  pub nth-put_nth_same :
      (xs : List A) (i : ℕ) (x y : A) → nth xs i ≡ some x → nth (put_nth xs i y) i ≡ some y
  nth-put_nth_same [] i x y h = cc
  nth-put_nth_same (z ∷ xs) zero x y h = refl
  nth-put_nth_same (z ∷ xs) (suc i) x y h = nth-put_nth_same xs i x y h

  pub nth-put_nth_other :
      (xs : List A) (i j : ℕ) (y : A) → i ≢ j → nth (put_nth xs i y) j ≡ nth xs j
  nth-put_nth_other [] i j y h = refl
  nth-put_nth_other (z ∷ xs) zero zero y h = absurd (h refl)
  nth-put_nth_other (z ∷ xs) zero (suc j) y h = refl
  nth-put_nth_other (z ∷ xs) (suc i) zero y h = refl
  nth-put_nth_other (z ∷ xs) (suc i) (suc j) y h =
      nth-put_nth_other xs i j y (λ e. h (omega (arith, e)))

  pub nth-append_last : (xs : List A) (y : A) → nth (xs ++ y ∷ []) (length xs) ≡ some y
  nth-append_last [] y = refl
  nth-append_last (x ∷ xs) y = nth-append_last xs y

  pub nth-append_front :
      (xs : List A) (i : ℕ) (x y : A) → nth xs i ≡ some x → nth (xs ++ y ∷ []) i ≡ some x
  nth-append_front [] i x y h = cc
  nth-append_front (z ∷ xs) zero x y h = h
  nth-append_front (z ∷ xs) (suc i) x y h = nth-append_front xs i x y h

  -- A place of the longer list is the last one or one of the list.
  pub nth-append_back :
      (xs : List A) (i : ℕ) (x y : A)
      → i ≢ length xs
      → nth (xs ++ y ∷ []) i ≡ some x
      → nth xs i ≡ some x
  nth-append_back [] zero x y n h = absurd (n refl)
  nth-append_back [] (suc i) x y n h = cc
  nth-append_back (z ∷ xs) zero x y n h = h
  nth-append_back (z ∷ xs) (suc i) x y n h = nth-append_back xs i x y (λ e. n (omega (arith, e))) h

  pub nth-length : (xs : List A) (i : ℕ) (x : A) → nth xs i ≡ some x → i < length xs
  nth-length [] i x h = cc
  nth-length (z ∷ xs) zero x h = omega arith
  nth-length (z ∷ xs) (suc i) x h = omega (arith, nth-length xs i x h)

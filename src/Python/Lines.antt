-- ===== src/Python/Lines.antt =====
-- The newlines that `read_text` translates, and `str.splitlines`.
use lan_manager.Prelude.{
  ℕ, ◌≡◌, refl, Bool, false, ◌||◌, ◌&&◌, List, [], ◌∷◌, ◌++◌, Text, ◌==◌, leb, if◌then◌else◌, All,
  starts_with, Bool-cases, inl, inr,
}

-- `\r\n` and `\r` are read as `\n`.
unfoldable pub translate : Text → Text
unfolding starts_with
translate [] = []
translate (c ∷ s) =
    let rest = translate s in
    if c == b'\r' then (if starts_with s (b'\n' ∷ []) then rest else b'\n' ∷ rest) else c ∷ rest

-- The line boundaries of `splitlines` but for `\n` and `\r`.
unfoldable pub is_odd_break : ℕ → Bool
is_odd_break c =
    (leb 11 c && leb c 12) || (leb 28 c && leb c 30) || c == 0x85 || c == 0x2028 || c == 0x2029

unfoldable pub is_break : ℕ → Bool
unfolding is_odd_break
is_break c = c == b'\n' || c == b'\r' || is_odd_break c

unfoldable pub cons_head : ℕ → List Text → List Text
cons_head c [] = (c ∷ []) ∷ []
cons_head c (l ∷ lines) = (c ∷ l) ∷ lines

-- `s.splitlines()` on a text without `\r`
unfoldable pub splitlines : Text → List Text
unfolding is_break cons_head
splitlines [] = []
splitlines (c ∷ s) = let rest = splitlines s in if is_break c then [] ∷ rest else cons_head c rest

abbrev pub NoBreak : Text → Type 0
NoBreak = All (λ c. is_break c ≡ false)

pub splitlines-append : (l s : Text) → NoBreak l → splitlines (l ++ b'\n' ∷ s) ≡ l ∷ splitlines s
unfolding splitlines
splitlines-append [] s h = refl
splitlines-append (c ∷ l) s h = rw (h.0, splitlines-append l s h.1) refl

cons_head-NoBreak :
    (c : ℕ) (lines : List Text)
    → is_break c ≡ false
    → All NoBreak lines
    → All NoBreak (cons_head c lines)
unfolding cons_head
cons_head-NoBreak c [] h k = ((h, tt), tt)
cons_head-NoBreak c (l ∷ lines) h k = ((h, k.0), k.1)

pub splitlines-NoBreak : (s : Text) → All NoBreak (splitlines s)
unfolding splitlines
splitlines-NoBreak [] = tt
splitlines-NoBreak (c ∷ s) = elim (Bool-cases (is_break c)) [
  | inl ends ↦ rw ends (tt, splitlines-NoBreak s)
  | inr goes ↦ rw goes (cons_head-NoBreak c (splitlines s) goes (splitlines-NoBreak s))
]

abbrev pub NoReturn : Text → Type 0
NoReturn = All (λ c. (c == b'\r') ≡ false)

pub translate-NoReturn : (s : Text) → NoReturn s → translate s ≡ s
unfolding translate
translate-NoReturn [] h = refl
translate-NoReturn (c ∷ s) h = rw (h.0, translate-NoReturn s h.1) refl

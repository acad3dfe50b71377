-- ===== src/Python/Decimal.antt =====
-- `str(n)` and `int(s)` for base ten, over ASCII digits. `int` takes blanks around the number, a
-- sign and single underscores between digits.
use lan_manager.Prelude.{
  ℕ, zero, suc, ◌+◌, ◌-◌, ◌*◌, ◌/◌, ◌%◌, ◌<◌, ◌≡◌, refl, Bool, true, false, ◌&&◌, [], ◌∷◌, Option,
  none, some, Text, strip, ltb, leb, ◌==◌, if◌then◌else◌, arith, All, Bool-cases, inl, inr, ltb→lt,
  ltb-false, strip_left, strip_right,
}

unfoldable pub is_digit : ℕ → Bool
is_digit c = leb b'0' c && leb c b'9'

-- `str(n)`: the digits of `n` before those in `acc`. A number has no more digits than its value
-- plus one.
unfoldable pub show_from : ℕ → ℕ → Text → Text
show_from zero n acc = acc
show_from (suc fuel) n acc =
    let digits = (b'0' + n % 10) ∷ acc in
    let rest = show_from fuel (n / 10) digits in if ltb n 10 then digits else rest

unfoldable pub show : ℕ → Text
unfolding show_from
show n = show_from (suc n) n []

-- The digits of `int(s)`; `after_digit` says whether an underscore or the end may stand here.
unfoldable pub digits_from : Bool → ℕ → Text → Option ℕ
unfolding is_digit
digits_from after_digit acc [] = if after_digit then some acc else none
digits_from after_digit acc (c ∷ s) =
    let digit = digits_from true (acc * 10 + (c - b'0')) s in
    let underscore = digits_from false acc s in
    if is_digit c then digit else if c == b'_' && after_digit then underscore else none

-- An integer, as its sign and its size.
pub record Signed : Type 0 where
  pub negative : Bool
  pub size : ℕ

unfoldable pub signed : Bool → Option ℕ → Option Signed
signed negative none = none
signed negative (some n) = some (record { negative = negative; size = n })

unfoldable pub parse_sign : Text → Option Signed
unfolding digits_from signed
parse_sign [] = none
parse_sign (c ∷ s) =
    if c == b'-'
    then signed true (digits_from false 0 s)
    else if c == b'+'
    then signed false (digits_from false 0 s)
    else signed false (digits_from false 0 (c ∷ s))

-- `int(s)`; `none` is `ValueError`.
unfoldable pub parse_int : Text → Option Signed
unfolding parse_sign
parse_int s = parse_sign (strip s)

digits_from_digit :
    (b : Bool) (acc d : ℕ) (s : Text)
    → d < 10
    → digits_from b acc ((b'0' + d) ∷ s) ≡ digits_from true (acc * 10 + d) s
unfolding digits_from
digits_from_digit b acc d s h =
    let e : b'0' + d - b'0' ≡ d = omega arith in
    let t : is_digit (b'0' + d) ≡ true = is_digit_of d h in rw (t, e)
  where
    is_digit_of : (d : ℕ) → d < 10 → is_digit (b'0' + d) ≡ true
    is_digit_of d h = ground arith

digits_from-show_from :
    (b : Bool) (fuel n : ℕ) (acc : Text)
    → n < fuel
    → digits_from b 0 (show_from fuel n acc) ≡ digits_from true n acc
unfolding show_from
digits_from-show_from b zero n acc h = elim h [ ]
digits_from-show_from b (suc fuel) n acc h = elim (Bool-cases (ltb n 10)) [
  | inl short ↦
      let e : 0 * 10 + n % 10 ≡ n = omega (arith, ltb→lt n 10 short) in
      rw (short, digits_from_digit b 0 (n % 10) acc (omega arith), e)
  | inr long ↦
      let e : n / 10 * 10 + n % 10 ≡ n = omega arith in
      rw (
        long,
        digits_from-show_from b fuel (n / 10) ((b'0' + n % 10) ∷ acc)
            (omega (arith, ltb-false n 10 long)),
        digits_from_digit true (n / 10) (n % 10) acc (omega arith),
        e,
      )
]

-- Digits only.
abbrev pub IsDigits : Text → Type 0
IsDigits = All (λ c. is_digit c ≡ true)

show_from-IsDigits : (fuel n : ℕ) (acc : Text) → IsDigits acc → IsDigits (show_from fuel n acc)
unfolding show_from is_digit
show_from-IsDigits zero n acc h = h
show_from-IsDigits (suc fuel) n acc h = elim (Bool-cases (ltb n 10)) [
  | inl short ↦ rw short (ground arith, h)
  | inr long ↦ rw long (show_from-IsDigits fuel (n / 10) ((b'0' + n % 10) ∷ acc) (ground arith, h))
]

pub show-IsDigits : (n : ℕ) → IsDigits (show n)
unfolding show
show-IsDigits n = show_from-IsDigits (suc n) n [] tt

pub digits_from-show : (n : ℕ) → digits_from false 0 (show n) ≡ some n
unfolding show digits_from
digits_from-show n = digits_from-show_from false (suc n) n [] (omega arith)

-- Digits are no blanks, so `strip` leaves them.
strip_left-IsDigits : (s : Text) → IsDigits s → strip_left s ≡ s
unfolding strip_left is_digit
strip_left-IsDigits [] h = refl
strip_left-IsDigits (c ∷ s) h = ground arith

strip_right-IsDigits : (s : Text) → IsDigits s → strip_right s ≡ s
unfolding strip_right is_digit
strip_right-IsDigits [] h = refl
strip_right-IsDigits (c ∷ s) h = ground (arith, strip_right-IsDigits s h.1)

strip-IsDigits : (s : Text) → IsDigits s → strip s ≡ s
unfolding strip
strip-IsDigits s h = rw (strip_left-IsDigits s h, strip_right-IsDigits s h)

parse_sign-IsDigits : (s : Text) → IsDigits s → parse_sign s ≡ signed false (digits_from false 0 s)
unfolding parse_sign
parse_sign-IsDigits [] h = refl
parse_sign-IsDigits (c ∷ s) h = unfold is_digit in ground arith

-- `int(str(n))` is `n`.
pub parse_int-show : (n : ℕ) → parse_int (show n) ≡ some (record { negative = false; size = n })
unfolding parse_int
parse_int-show n = rw (
  strip-IsDigits (show n) (show-IsDigits n),
  parse_sign-IsDigits (show n) (show-IsDigits n),
  digits_from-show n,
)

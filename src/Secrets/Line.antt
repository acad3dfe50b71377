-- ===== src/Secrets/Line.antt =====
-- A line that `_write` makes is read back, and what `_read` finds in a line can be written.
use lan_manager.Prelude.{
  ℕ, ◌≡◌, refl, sym, subst, false, not, ◌||◌, Bool, [], ◌∷◌, ◌++◌, some, Text, All, ◌==◌, strip,
  starts_with, IsClean, strip-IsClean, strip_left_of_clean, strip_right_of_solid, is_space,
  nonempty,
}
use mathlib.Core.List.{append_assoc}
use lan_manager.Python.Split.{Lacks, split_first-append}
use lan_manager.Python.Lines.{is_odd_break, NoBreak}
use lan_manager.Secrets.{parse_line, dotenv_quote}
use lan_manager.Secrets.Quote.{escape, dotenv_quote_lem, dotenv_unquote-dotenv_quote}

unfoldable pub starts_hash : Text → Bool
starts_hash [] = false
starts_hash (c ∷ s) = c == b'#'

-- A name that a line can carry.
pub record IsKey (k : Text) : Type 0 where
  pub bare : strip k ≡ k
  pub no_equals : Lacks b'=' k
  pub one_line : NoBreak k
  pub no_comment : starts_hash k ≡ false

-- A value that the file can carry: it has no line boundary but `\n` and `\r`.
abbrev pub IsValue : Text → Type 0
IsValue = All (λ c. is_odd_break c ≡ false)

-- What is written for a secret.
abbrev pub line_of : Text → Text → Text
line_of k v = k ++ b'=' ∷ dotenv_quote v

strip_solid :
    (s : Text) (c : ℕ)
    → IsClean (s ++ c ∷ [])
    → is_space c ≡ false
    → strip (s ++ c ∷ []) ≡ s ++ c ∷ []
unfolding strip
strip_solid s c h k = rw (strip_left_of_clean (s ++ c ∷ []) h) (strip_right_of_solid s c k)

strip-dotenv_quote : (v : Text) → strip (dotenv_quote v) ≡ dotenv_quote v
unfolding is_space
strip-dotenv_quote v = rw (dotenv_quote_lem v) (strip_solid (b'"' ∷ escape v) b'"' refl refl)

line_of_solid : (k v : Text) → line_of k v ≡ (k ++ b'=' ∷ b'"' ∷ escape v) ++ b'"' ∷ []
line_of_solid k v =
    rw (dotenv_quote_lem v) (sym (append_assoc k (b'=' ∷ b'"' ∷ escape v) (b'"' ∷ [])))

line-IsClean : (k s : Text) → IsClean k → IsClean ((k ++ b'=' ∷ s) ++ b'"' ∷ [])
unfolding is_space
line-IsClean [] s h = refl
line-IsClean (c ∷ k) s h = h

strip_line : (k v : Text) → IsKey k → strip (line_of k v) ≡ line_of k v
unfolding is_space
strip_line k v h = rw (line_of_solid k v) (
    strip_solid (k ++ b'=' ∷ b'"' ∷ escape v) b'"'
      (line-IsClean k (b'"' ∷ escape v) (subst IsClean h.bare (strip-IsClean k))) refl)

line_passes :
    (k s : Text)
    → starts_hash k ≡ false
    → (not (nonempty (k ++ b'=' ∷ s)) || starts_with (k ++ b'=' ∷ s) (b'#' ∷ [])) ≡ false
unfolding starts_hash starts_with
line_passes [] s h = refl
line_passes (c ∷ k) s h = rw h refl

-- A line that `_write` makes is read as its name and its value.
pub parse_line-line_of : (k v : Text) → IsKey k → parse_line (line_of k v) ≡ some (k, v)
unfolding parse_line
parse_line-line_of k v h =
    rw
      (
        strip_line k v h,
        line_passes k (dotenv_quote v) h.no_comment,
        split_first-append b'=' k (dotenv_quote v) h.no_equals,
        h.bare,
        strip-dotenv_quote v,
        dotenv_unquote-dotenv_quote v,
      )
      refl

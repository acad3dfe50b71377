-- ===== src/Terminal.antt =====
-- The audit of the typed commands in backend/services/terminal.py: `TerminalSession._note_output`
-- and `_track_input`, with the expression that recognises a prompt for a password.
pub mod Prompt
pub mod Commands
pub mod Slots
pub mod Interleave
mod Tests
use lan_manager.Prelude.{
  ℕ, Bool, true, false, not, ◌&&◌, ◌||◌, List, [], ◌∷◌, ◌++◌, Option, none, some, Text, lit,
  nonempty, strip, strip_left, is_space, starts_with, lower_char, take_last, init, length, ltb, leb,
  ◌==◌, if◌then◌else◌, map,
}

-- The case that `re.I` forgets; U+017F counts as an `s` there.
unfoldable pub fold : ℕ → ℕ
unfolding lower_char
fold c = if c == 0x17f then b's' else lower_char c

-- What stands behind a word, in any case of letters.
unfoldable pub after_word : Text → Text → Option Text
unfolding fold
after_word s [] = some s
after_word [] (w ∷ ws) = none
after_word (c ∷ s) (w ∷ ws) = let rest = after_word s ws in if fold c == w then rest else none

unfoldable pub all_space : Text → Bool
unfolding is_space
all_space [] = true
all_space (c ∷ s) = is_space c && all_space s

-- `:\s*$`
unfoldable pub colon_end : Text → Bool
unfolding all_space
colon_end [] = false
colon_end (c ∷ s) = c == b':' && all_space s

-- `[^:]*\s*:\s*$`
unfoldable pub colon_later : Text → Bool
unfolding all_space
colon_later [] = false
colon_later (c ∷ s) = if c == b':' then all_space s else colon_later s

unfoldable pub starts_blank : Text → Bool
unfolding is_space
starts_blank [] = false
starts_blank (c ∷ s) = is_space c

-- `\s+[^:]*\s*:\s*$`, behind `for`
unfoldable pub for_end : Option Text → Bool
unfolding starts_blank colon_later
for_end none = false
for_end (some s) = starts_blank s && colon_later s

-- `(\s+for\s+[^:]*)?\s*:\s*$`
unfoldable pub prompt_end : Text → Bool
unfolding colon_end starts_blank after_word for_end strip_left
prompt_end s =
    colon_end (strip_left s) || starts_blank s && for_end (after_word (strip_left s) (lit "for"))

unfoldable pub ends_prompt : Option Text → Bool
unfolding prompt_end
ends_prompt none = false
ends_prompt (some s) = prompt_end s

-- `_PASSWORD_PROMPT_RE` at one place
unfoldable pub prompt_here : Text → Bool
unfolding ends_prompt after_word
prompt_here s =
    ends_prompt (after_word s (lit "password")) || ends_prompt (after_word s (lit "passphrase"))

-- `_PASSWORD_PROMPT_RE.search`
unfoldable pub password_prompt : Text → Bool
unfolding prompt_here
password_prompt [] = false
password_prompt (c ∷ s) = prompt_here (c ∷ s) || password_prompt s

-- The fields for the audit, with the commands that it has got, the newest first.
pub record Typing : Type 0 where
  pub line : Text
  pub skip_line : Bool
  pub out_tail : Text
  pub audited : List Text

unfoldable pub note_output : Typing → Text → Typing
unfolding password_prompt take_last
note_output s chunk =
    let tail = take_last 400 (s.out_tail ++ chunk) in
    record s { out_tail = tail; skip_line = s.skip_line || password_prompt tail }

-- `if line and not self._skip_line: audit(...)`
unfoldable pub audit_line : Text → Bool → List Text → List Text
audit_line line skip audited = if nonempty line && not skip then line ∷ audited else audited

abbrev pub max_line : ℕ
max_line = 4096

-- One key, before the line is cut.
unfoldable pub key : Typing → ℕ → Typing
unfolding strip audit_line init
key s ch =
    if ch == b'\r' || ch == b'\n'
    then record {
      line = [];
      skip_line = false;
      out_tail = [];
      audited = audit_line (strip s.line) s.skip_line s.audited;
    }
    else if ch == 0x7f || ch == 8
    then record s { line = init s.line }
    else if ch == 3
    then record s { line = []; skip_line = false; out_tail = [] }
    else if leb b' ' ch
    then record s { line = s.line ++ ch ∷ [] }
    else s

unfoldable pub cut : Typing → Typing
unfolding take_last
cut s = if ltb max_line (length s.line) then record s { line = take_last max_line s.line } else s

-- `_track_input`, where the audit of commands is on or off
unfoldable pub track : Typing → Text → Typing
unfolding key cut
track s [] = s
track s (ch ∷ keys) = track (cut (key s ch)) keys

unfoldable pub track_input : Bool → Typing → Text → Typing
unfolding track
track_input audit_commands s keys = if audit_commands then track s keys else s

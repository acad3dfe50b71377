-- ===== src/Terminal/Prompt.antt =====
-- A prompt is recognised however the output is cut into pieces, and the line that answers it does
-- not reach the audit.
use lan_manager.Prelude.{
  ℕ, ◌≡◌, refl, sym, subst, not, ◌∙◌, Bool, true, ◌||◌, List, [], ◌∷◌, ◌++◌, Text, take_last,
  take_last-append, arith, All, ◌==◌,
}
use mathlib.Core.List.{append_assoc, append-nil}
use lan_manager.Terminal.{Typing, note_output, password_prompt, key, cut, track, audit_line}

-- What happens in a session: the shell writes, and the browser sends keys.
pub data Event : Type 0 where
  output : Text → Event
  input : Text → Event

unfoldable pub run : Typing → List Event → Typing
run s [] = s
run s (output chunk ∷ events) = run (note_output s chunk) events
run s (input keys ∷ events) = run (track s keys) events

unfoldable pub outputs : List Text → List Event
outputs [] = []
outputs (c ∷ chunks) = output c ∷ outputs chunks

unfoldable pub concat : List Text → Text
concat [] = []
concat (c ∷ chunks) = c ++ concat chunks

-- A key that neither sends the line nor drops it.
unfoldable pub is_plain : ℕ → Bool
is_plain c = not (c == b'\r' || c == b'\n' || c == 3)

abbrev pub IsPlain : Event → Type 0
IsPlain (output chunk) = Unit
IsPlain (input keys) = All (λ c. is_plain c ≡ true) keys

-- The end that is kept is that of all that came.
tail_append :
    (a b c : Text) → take_last 400 (take_last 400 (a ++ b) ++ c) ≡ take_last 400 (a ++ (b ++ c))
tail_append a b c = rw (sym (append_assoc a b c)) (take_last-append 400 (a ++ b) c)

skip_line-outputs :
    (s : Typing) (c : Text) (chunks : List Text)
    → password_prompt (take_last 400 (s.out_tail ++ concat (c ∷ chunks))) ≡ true
    → (run s (outputs (c ∷ chunks))).skip_line ≡ true
unfolding run outputs concat note_output
skip_line-outputs s c [] h =
    rw (subst (λ t. password_prompt (take_last 400 (s.out_tail ++ t)) ≡ true) (append-nil c) h)
      (ground arith)
skip_line-outputs s c (c' ∷ chunks) h =
    skip_line-outputs (note_output s c) c' chunks
      (rw (tail_append s.out_tail c (concat (c' ∷ chunks))) h)

audited-outputs : (s : Typing) (chunks : List Text) → (run s (outputs chunks)).audited ≡ s.audited
unfolding run outputs note_output
audited-outputs s [] = refl
audited-outputs s (c ∷ chunks) = audited-outputs (note_output s c) chunks

key_plain :
    (s : Typing) (c : ℕ)
    → is_plain c ≡ true
    → ((key s c).skip_line ≡ s.skip_line) × ((key s c).audited ≡ s.audited)
unfolding is_plain key
key_plain s c h = ground arith

cut_same : (s : Typing) → ((cut s).skip_line ≡ s.skip_line) × ((cut s).audited ≡ s.audited)
unfolding cut
cut_same s = ground arith

track_plain :
    (s : Typing) (keys : Text)
    → All (λ c. is_plain c ≡ true) keys
    → ((track s keys).skip_line ≡ s.skip_line) × ((track s keys).audited ≡ s.audited)
unfolding track
track_plain s [] h = (refl, refl)
track_plain s (c ∷ keys) h =
    let (skip, audited) = track_plain (cut (key s c)) keys h.1 in
    let (skip1, audited1) = cut_same (key s c) in
    let (skip2, audited2) = key_plain s c h.0 in
    (skip ∙ skip1 ∙ skip2, audited ∙ audited1 ∙ audited2)

-- Whatever is written and typed before the line is sent, it stays out of the audit.
run_plain :
    (s : Typing) (events : List Event)
    → s.skip_line ≡ true
    → All IsPlain events
    → ((run s events).skip_line ≡ true) × ((run s events).audited ≡ s.audited)
unfolding run note_output
run_plain s [] skip h = (skip, refl)
run_plain s (output chunk ∷ events) skip h =
    run_plain (note_output s chunk) events (rw skip refl) h.1
run_plain s (input keys ∷ events) skip h =
    let (kept, audited) = track_plain s keys h.0 in
    let (kept', audited') = run_plain (track s keys) events (kept ∙ skip) h.1 in
    (kept', audited' ∙ audited)

run-append : (s : Typing) (es fs : List Event) → run s (es ++ fs) ≡ run (run s es) fs
unfolding run
run-append s [] fs = refl
run-append s (output c ∷ es) fs = run-append (note_output s c) es fs
run-append s (input keys ∷ es) fs = run-append (track s keys) es fs

-- Sending the line while it follows a prompt.
key_hidden : (s : Typing) → s.skip_line ≡ true → (cut (key s b'\r')).audited ≡ s.audited
unfolding key cut audit_line
key_hidden s h = ground arith

-- When the shell has written a prompt for a password, in any pieces, and the last 400 characters of
-- what it wrote since the last line show it, then the line that is typed next is not recorded:
-- whatever else the shell writes, and whatever keys but Ctrl-C come before the line is sent, the
-- audit stays as it was. (Ctrl-C drops the line and the prompt with it.)
pub password_stays_out :
    (s : Typing) (c : Text) (chunks : List Text) (events : List Event)
    → password_prompt (take_last 400 (s.out_tail ++ concat (c ∷ chunks))) ≡ true
    → All IsPlain events
    → (run s (outputs (c ∷ chunks) ++ (events ++ input (b'\r' ∷ []) ∷ []))).audited ≡ s.audited
unfolding track run
password_stays_out s c chunks events prompt plain =
    let shown = run s (outputs (c ∷ chunks)) in
    let (skip, same) = run_plain shown events (skip_line-outputs s c chunks prompt) plain in
    rw
      (
        run-append s (outputs (c ∷ chunks)) (events ++ input (b'\r' ∷ []) ∷ []),
        run-append shown events (input (b'\r' ∷ []) ∷ []),
      )
      (key_hidden (run shown events) skip ∙ same ∙ audited-outputs s (c ∷ chunks))

-- ===== src/Terminal/Tests.antt =====
-- The audit and the sessions of the terminal at concrete inputs.
use lan_manager.Prelude.{
  ◌≡◌, refl, true, false, List, All, arith, [], ◌∷◌, ◌++◌, Text, lit, take_last, strip, nonempty,
  filter, map,
}
use mathlib.Core.List.{reverse_aux}
use lan_manager.Terminal.{Typing, password_prompt, track}
use lan_manager.Terminal.Prompt.{
  IsPlain, output, input, run, outputs, concat, is_plain, password_stays_out,
}
use lan_manager.Terminal.Commands.{IsTyped, is_letter, sent, track_lines}
use lan_manager.Terminal.Slots
use lan_manager.Terminal.Slots.{Limits, ask, answer, shut, leave, arrive, happens}
use lan_manager.Terminal.Interleave.{none_yet}

abbrev fresh : Typing
fresh = record { line = []; skip_line = false; out_tail = []; audited = [] }

prompt_test : password_prompt (lit "Enter passphrase for key '/root/.ssh/id':") ≡ true
unfolding password_prompt
prompt_test = refl

other_test : password_prompt (lit "the password is: no") ≡ false
unfolding password_prompt
other_test = refl

abbrev pieces : List Text
pieces = lit "word: " ∷ []

shown : password_prompt (take_last 400 (concat (lit "user@host's Pass" ∷ pieces))) ≡ true
unfolding concat take_last password_prompt
shown = refl

plain : All IsPlain (input (lit "pw") ∷ output (lit "\u{7}") ∷ [])
unfolding is_plain
plain = ((refl, (refl, tt)), (tt, tt))

password_stays_out_example :
    (run fresh (
      outputs (lit "user@host's Pass" ∷ pieces)
      ++ (input (lit "pw") ∷ output (lit "\u{7}") ∷ [])
      ++ input (b'\r' ∷ []) ∷ [])).audited
    ≡ []
unfolding outputs
password_stays_out_example =
    password_stays_out fresh (lit "user@host's Pass") pieces
      (input (lit "pw") ∷ output (lit "\u{7}") ∷ []) shown plain

abbrev typed : List Text
typed = lit "id " ∷ lit "  " ∷ lit "ls" ∷ []

typed_lines : All IsTyped typed
unfolding is_letter
typed_lines = (
  ((refl, (refl, (refl, tt))), omega arith),
  (((refl, (refl, tt)), omega arith), (((refl, (refl, tt)), omega arith), tt)),
)

track_lines_example :
    (track fresh (sent typed)).audited ≡ reverse_aux (filter nonempty (map strip typed)) []
track_lines_example = track_lines fresh typed refl refl typed_lines

typed_test : (track fresh (sent typed)).audited ≡ lit "ls" ∷ lit "id" ∷ []
unfolding track sent
typed_test = refl

abbrev two : Limits
two = record { enabled = true; max_sessions = 2 }

abbrev three_clients : List Slots.Move
three_clients =
    arrive
    ∷ arrive
    ∷ arrive
    ∷ happens 0 (ask true)
    ∷ happens 1 (ask true)
    ∷ happens 2 (ask true)
    ∷ happens 0 (answer true)
    ∷ happens 1 (answer false)
    ∷ happens 0 shut
    ∷ happens 0 leave
    ∷ happens 1 (ask true)
    ∷ happens 1 leave
    ∷ []

-- The client that leaves early has a line that closes it, and none that opens it.
cut_test :
    (Slots.run two three_clients [] none_yet).1 ≡ record { active = 0; aperte = 1; chiuse = 2 }
unfolding Slots.run Slots.on_client
cut_test = refl

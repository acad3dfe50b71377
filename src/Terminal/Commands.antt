-- ===== src/Terminal/Commands.antt =====
-- What the audit gets from lines that are typed without corrections.
use lan_manager.Prelude.{
  ℕ, ◌+◌, ◌≤◌, ◌≡◌, refl, ap, ◌∙◌, Bool, true, false, not, ◌&&◌, List, [], ◌∷◌, ◌++◌, Text, filter,
  map, strip, nonempty, length, length-append, arith, All, leb, ◌==◌, Bool-cases, inl, inr,
}
use mathlib.Core.List.{append_assoc, append-nil, reverse_aux}
use lan_manager.Terminal.{Typing, key, cut, track, audit_line, max_line}

-- A key that is put at the end of the line.
unfoldable pub is_letter : ℕ → Bool
is_letter c = leb b' ' c && not (c == 0x7f)

abbrev pub IsTyped : Text → Type 0
IsTyped l = All (λ c. is_letter c ≡ true) l × (length l ≤ max_line)

-- Each line and the key that sends it.
unfoldable pub sent : List Text → Text
sent [] = []
sent (l ∷ lines) = l ++ b'\r' ∷ sent lines

key_letter :
    (s : Typing) (c : ℕ)
    → is_letter c ≡ true
    → length s.line + 1 ≤ max_line
    → cut (key s c) ≡ record s { line = s.line ++ c ∷ [] }
unfolding is_letter key cut
key_letter s c h room = ground (arith, length-append s.line (c ∷ []))

track_letters :
    (s : Typing) (l rest : Text)
    → All (λ c. is_letter c ≡ true) l
    → length s.line + length l ≤ max_line
    → track s (l ++ rest) ≡ track (record s { line = s.line ++ l }) rest
unfolding track
track_letters s [] rest h room = rw (append-nil s.line) refl
track_letters s (c ∷ l) rest h room =
    ap (λ t. track t (l ++ rest)) (key_letter s c h.0 (omega arith))
    ∙ track_letters (record s { line = s.line ++ c ∷ [] }) l rest h.1
        (omega (arith, length-append s.line (c ∷ [])))
    ∙ ap (λ t. track (record s { line = t }) rest) (append_assoc s.line (c ∷ []) l)

-- Sending the line.
key_sent :
    (s : Typing)
    → s.skip_line ≡ false
    → cut (key s b'\r') ≡ record {
      line = [];
      skip_line = false;
      out_tail = [];
      audited = audit_line (strip s.line) false s.audited;
    }
unfolding key cut
key_sent s h = ground arith

recorded :
    (l : Text) (lines acc : List Text)
    → reverse_aux (filter nonempty (map strip lines)) (audit_line (strip l) false acc)
      ≡ reverse_aux (filter nonempty (map strip (l ∷ lines))) acc
unfolding filter audit_line
recorded l lines acc = elim (Bool-cases (nonempty (strip l))) [
  | inl some_text ↦ rw some_text refl
  | inr blank ↦ rw blank refl
]

-- With no prompt pending and nothing typed yet, the lines that are typed, each of at most 4096
-- printing characters and none of them a correction, reach the audit in their order, without
-- the blanks around them and without the blank ones.
pub track_lines :
    (s : Typing) (lines : List Text)
    → s.line ≡ []
    → s.skip_line ≡ false
    → All IsTyped lines
    → (track s (sent lines)).audited ≡ reverse_aux (filter nonempty (map strip lines)) s.audited
unfolding track sent filter audit_line
track_lines s [] empty skip h = refl
track_lines s (l ∷ lines) empty skip h =
    let typed = record s { line = s.line ++ l } in
    let next = record s {
      line = [];
      skip_line = false;
      out_tail = [];
      audited = audit_line (strip l) false s.audited;
    } in
    ap (λ t. t.audited)
      (track_letters s l (b'\r' ∷ sent lines) h.0.0 (rw empty (omega (arith, h.0.1)))
        ∙ ap (λ t. track t (sent lines)) (key_sent typed skip ∙ rw empty refl))
    ∙ track_lines next lines refl refl h.1
    ∙ recorded l lines s.audited

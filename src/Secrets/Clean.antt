-- ===== src/Secrets/Clean.antt =====
-- What `_read` finds can be written again.
use lan_manager.Prelude.{
  ℕ, ◌≡◌, refl, ◌≢◌, subst, true, false, not, ◌||◌, Bool, [], ◌∷◌, ◌++◌, none, some, Text, arith,
  ◌==◌, Bool-cases, Option-cases, inl, inr, strip, starts_with, strip_right, IsClean, strip-IsClean,
  strip_left_of_clean, strip-All, strip_idem, is_space, nonempty, All-front, All-back, All-init,
  All-map,
}
use lan_manager.Python.Split.{Lacks, split_first, split_first_sound}
use lan_manager.Python.Lines.{is_break, is_odd_break, NoBreak}
use lan_manager.Secrets.{parse_line, dotenv_unquote, unescape, unescape_char, is_quoted, inner}
use lan_manager.Secrets.Line.{IsKey, IsValue, starts_hash}

-- How a line came to its name and value.
record Parts (raw : Text) (p : Text × Text) : Type 0 where
  front : Text
  back : Text
  whole : strip raw ≡ front ++ b'=' ∷ back
  lacks : Lacks b'=' front
  not_hash : starts_with (strip raw) (b'#' ∷ []) ≡ false
  name : p.0 ≡ strip front
  content : p.1 ≡ dotenv_unquote (strip back)

parse_line_blank :
    (raw : Text) (p : Text × Text)
    → (not (nonempty (strip raw)) || starts_with (strip raw) (b'#' ∷ [])) ≡ true
    → parse_line raw ≢ some p
unfolding parse_line
parse_line_blank raw p e h = ground arith

parse_line_absent :
    (raw : Text) (p : Text × Text) → split_first b'=' (strip raw) ≡ none → parse_line raw ≢ some p
unfolding parse_line
parse_line_absent raw p e h = ground arith

parse_line_found :
    (raw : Text) (p q : Text × Text)
    → split_first b'=' (strip raw) ≡ some q
    → parse_line raw ≡ some p
    → (p.0 ≡ strip q.0) × (p.1 ≡ dotenv_unquote (strip q.1))
unfolding parse_line
parse_line_found raw p q e h = ground arith

or_false : (a b : Bool) → (a || b) ≡ false → b ≡ false
or_false a b h = ground arith

parse_line-Parts : (raw : Text) (p : Text × Text) → parse_line raw ≡ some p → Parts raw p
parse_line-Parts raw p h =
    elim (Bool-cases (not (nonempty (strip raw)) || starts_with (strip raw) (b'#' ∷ []))) [
      | inl blank ↦ absurd (parse_line_blank raw p blank h)
      | inr kept ↦ elim (Option-cases (split_first b'=' (strip raw))) [
        | inl absent ↦ absurd (parse_line_absent raw p absent h)
        | inr (q, found) ↦
            let (whole, lacks) = split_first_sound b'=' (strip raw) q.0 q.1 found in
            let (name, content) = parse_line_found raw p q found h in
            record {
              front = q.0;
              back = q.1;
              whole = whole;
              lacks = lacks;
              not_hash = or_false _ _ kept;
              name = name;
              content = content;
            }
      ]
    ]

no_hash :
    (a b line : Text)
    → line ≡ a ++ b'=' ∷ b
    → IsClean line
    → starts_with line (b'#' ∷ []) ≡ false
    → starts_hash (strip a) ≡ false
unfolding starts_hash strip strip_right starts_with
no_hash [] b line e clean h = refl
no_hash (c ∷ a) b line e clean h =
    let solid : is_space c ≡ false = subst IsClean e clean in
    let other = subst (λ l. starts_with l (b'#' ∷ []) ≡ false) e h in
    rw (strip_left_of_clean (c ∷ a) solid, solid) (ground (arith, other))

not_odd : (c : ℕ) → is_break c ≡ false → is_odd_break c ≡ false
unfolding is_break
not_odd c h = ground arith

unescape_char-value : (c : ℕ) → is_odd_break c ≡ false → is_odd_break (unescape_char c) ≡ false
unfolding is_odd_break unescape_char
unescape_char-value c h = ground arith

unescape-IsValue : (v : Text) → IsValue v → IsValue (unescape v)
unfolding unescape
unescape-IsValue [] h = tt
unescape-IsValue (c ∷ []) h = h
unescape-IsValue (c ∷ d ∷ s) h = elim (Bool-cases (c == b'\\')) [
  | inl escaped ↦ rw escaped (unescape_char-value d h.1.0, unescape-IsValue s h.1.1)
  | inr plain ↦ rw plain (h.0, unescape-IsValue (d ∷ s) h.1)
]

inner-IsValue : (v : Text) → IsValue v → IsValue (inner v)
unfolding inner
inner-IsValue [] h = tt
inner-IsValue (c ∷ v) h = All-init _ v h.1

dotenv_unquote-IsValue : (v : Text) → IsValue v → IsValue (dotenv_unquote v)
unfolding dotenv_unquote
dotenv_unquote-IsValue v h = elim (Bool-cases (is_quoted b'\'' v)) [
  | inl single ↦ rw single (inner-IsValue v h)
  | inr other ↦ elim (Bool-cases (is_quoted b'"' v)) [
    | inl double ↦ rw (other, double) (unescape-IsValue (inner v) (inner-IsValue v h))
    | inr bare ↦ rw (other, bare) h
  ]
]

-- A line of the file gives a name and a value that the file can carry.
pub parse_line-clean :
    (raw k v : Text) → NoBreak raw → parse_line raw ≡ some (k, v) → IsKey k × IsValue v
parse_line-clean raw k v one h =
    let p = parse_line-Parts raw (k, v) h in
    let chars = subst NoBreak p.whole (strip-All _ raw one) in
    let front = All-front _ p.front (b'=' ∷ p.back) chars in
    let back = All-map _ _ not_odd p.back (All-back _ p.front (b'=' ∷ p.back) chars).1 in
    rw (p.name, p.content)
      (
        record {
          bare = strip_idem p.front;
          no_equals = strip-All _ p.front p.lacks;
          one_line = strip-All _ p.front front;
          no_comment = no_hash p.front p.back (strip raw) p.whole (strip-IsClean raw) p.not_hash;
        },
        dotenv_unquote-IsValue (strip p.back) (strip-All _ p.back back),
      )

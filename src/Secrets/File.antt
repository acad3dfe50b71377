-- ===== src/Secrets/File.antt =====
-- The file secrets.env is read back as it was written.
use lan_manager.Prelude.{
  ℕ, ◌≡◌, refl, ap, ◌∙◌, true, false, List, [], ◌∷◌, ◌++◌, Text, All, arith, ◌==◌, Bool-cases,
  All-map, inl, inr, Dict, get, put, unique_keys, sort_by,
}
use lan_manager.Python.Lines.{
  is_odd_break, translate, splitlines, NoBreak, NoReturn, is_break, splitlines-append,
  translate-NoReturn,
}
use lan_manager.Secrets.{
  Store, read, read_text, write, file_text, header, body, by_key, parse_line, read_lines, add_line,
}
use lan_manager.Secrets.Quote.{escape, dotenv_quote_lem}
use lan_manager.Secrets.Line.{IsKey, IsValue, line_of, parse_line-line_of}
use lan_manager.Secrets.Entries.{
  put_all, first_of, first_of-none, get-put_all, get-sort_by, sort_by_unique, sort_by-All,
}

-- Secrets that the file can carry.
abbrev pub IsWritable : Dict Text → Type 0
IsWritable = All (λ e. IsKey e.0 × IsValue e.1)

All-append_both : (P : ℕ → Type 0) (a b : Text) → All P a → All P b → All P (a ++ b)
All-append_both P [] b h k = k
All-append_both P (c ∷ a) b h k = (h.0, All-append_both P a b h.1 k)

plain_no_break :
    (c : ℕ)
    → (c == b'\n') ≡ false
    → (c == b'\r') ≡ false
    → is_odd_break c ≡ false
    → is_break c ≡ false
unfolding is_break
plain_no_break c h k odd = rw (h, k) odd

escape-NoBreak : (v : Text) → IsValue v → NoBreak (escape v)
unfolding escape is_break
escape-NoBreak [] h = tt
escape-NoBreak (c ∷ v) h =
    let rest = escape-NoBreak v h.1 in
    elim (Bool-cases (c == b'\\')) [
      | inl backslash ↦ rw backslash (refl, (refl, rest))
      | inr c1 ↦ elim (Bool-cases (c == b'"')) [
        | inl quote ↦ rw (c1, quote) (refl, (refl, rest))
        | inr c2 ↦ elim (Bool-cases (c == b'\n')) [
          | inl newline ↦ rw (c1, c2, newline) (refl, (refl, rest))
          | inr c3 ↦ elim (Bool-cases (c == b'\r')) [
            | inl return ↦ rw (c1, c2, c3, return) (refl, (refl, rest))
            | inr c4 ↦ rw (c1, c2, c3, c4) (plain_no_break c c3 c4 h.0, rest)
          ]
        ]
      ]
    ]

line_of-NoBreak : (k v : Text) → IsKey k → IsValue v → NoBreak (line_of k v)
unfolding is_break
line_of-NoBreak k v h val = rw (dotenv_quote_lem v) (
    All-append_both _ k (b'=' ∷ b'"' ∷ escape v ++ b'"' ∷ []) h.one_line
      (refl, (refl, All-append_both _ (escape v) (b'"' ∷ []) (escape-NoBreak v val) (refl, tt))))

-- The lines of the entries.
unfoldable lines_of : Dict Text → List Text
lines_of [] = []
lines_of ((k, v) ∷ entries) = line_of k v ∷ lines_of entries

splitlines-body : (d : Dict Text) → IsWritable d → splitlines (body d) ≡ lines_of d
unfolding body lines_of splitlines
splitlines-body [] h = refl
splitlines-body ((k, v) ∷ d) h =
    splitlines-append (line_of k v) (body d) (line_of-NoBreak k v h.0.0 h.0.1)
    ∙ ap (◌∷◌ (line_of k v)) (splitlines-body d h.1)

read_lines-lines_of :
    (d out : Dict Text) → IsWritable d → read_lines (lines_of d) out ≡ put_all d out
unfolding lines_of read_lines put_all add_line
read_lines-lines_of [] out h = refl
read_lines-lines_of ((k, v) ∷ d) out h =
    ap (λ o. read_lines (lines_of d) (add_line out o)) (parse_line-line_of k v h.0.0)
    ∙ read_lines-lines_of d (put out k v) h.1

not_return : (c : ℕ) → is_break c ≡ false → (c == b'\r') ≡ false
unfolding is_break
not_return c h = ground arith

body-NoReturn : (d : Dict Text) → IsWritable d → NoReturn (body d)
unfolding body
body-NoReturn [] h = tt
body-NoReturn ((k, v) ∷ d) h =
    All-append_both _ (line_of k v) (b'\n' ∷ body d)
      (All-map _ _ not_return (line_of k v) (line_of-NoBreak k v h.0.0 h.0.1))
      (refl, body-NoReturn d h.1)

read_text-header : (b : Text) → NoReturn b → read_text (header ++ b) ≡ read_lines (splitlines b) []
unfolding read_text header translate splitlines read_lines add_line parse_line
read_text-header b h = ap (λ t. read_lines (splitlines t) []) (translate-NoReturn b h)

read_text-file_text :
    (d : Dict Text) → IsWritable d → read_text (file_text d) ≡ put_all (sort_by by_key d) []
unfolding file_text
read_text-file_text d h =
    let sorted = sort_by-All _ by_key d h in
    read_text-header (body (sort_by by_key d)) (body-NoReturn (sort_by by_key d) sorted)
    ∙ ap (λ l. read_lines l []) (splitlines-body (sort_by by_key d) sorted)
    ∙ read_lines-lines_of (sort_by by_key d) [] sorted

-- Secrets with different names, each name without `=`, `#` in front, blanks around it or a line
-- break, and each value without line boundaries other than `\n` and `\r`, are read from the file
-- as they were written: every name has its value, whatever else the values contain.
pub read-write :
    (s : Store) (d : Dict Text) (k : Text)
    → unique_keys d ≡ true
    → IsWritable d
    → get (read (write s d)) k ≡ get d k
unfolding read write first_of get
read-write s d k u h =
    ap (λ m. get m k) (read_text-file_text d h)
    ∙ get-put_all (sort_by by_key d) [] k (sort_by_unique by_key d u)
    ∙ first_of-none (get (sort_by by_key d) k)
    ∙ get-sort_by by_key d k u

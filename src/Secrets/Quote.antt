-- ===== src/Secrets/Quote.antt =====
-- What is quoted is read back.
use lan_manager.Prelude.{
  ℕ, ◌≡◌, refl, false, [], ◌∷◌, ◌++◌, Text, lit, arith, ◌==◌, ◌&&◌, init-append, last?-append,
  if◌then◌else◌,
}
use lan_manager.Secrets.{replace, dotenv_quote, dotenv_unquote, unescape, is_quoted, inner}

-- The four replacements at once.
unfoldable pub escape : Text → Text
escape [] = []
escape (c ∷ s) =
    let rest = escape s in
    if c == b'\\'
    then b'\\' ∷ b'\\' ∷ rest
    else if c == b'"'
    then b'\\' ∷ b'"' ∷ rest
    else if c == b'\n'
    then b'\\' ∷ b'n' ∷ rest
    else if c == b'\r'
    then b'\\' ∷ b'r' ∷ rest
    else c ∷ rest

replaced :
    (v : Text)
    → replace b'\r'
        (lit "\\r")
        (replace b'\n' (lit "\\n") (replace b'"' (lit "\\\"") (replace b'\\' (lit "\\\\") v)))
      ≡ escape v
unfolding replace escape
replaced [] = refl
replaced (c ∷ v) = ground (arith, replaced v)

pub dotenv_quote_lem : (v : Text) → dotenv_quote v ≡ b'"' ∷ escape v ++ b'"' ∷ []
unfolding dotenv_quote
dotenv_quote_lem v = rw (replaced v) refl

unescape_plain : (c : ℕ) (s : Text) → (c == b'\\') ≡ false → unescape (c ∷ s) ≡ c ∷ unescape s
unfolding unescape
unescape_plain c [] h = refl
unescape_plain c (d ∷ s) h = rw h refl

pub unescape-escape : (v : Text) → unescape (escape v) ≡ v
unfolding escape unescape
unescape-escape [] = refl
unescape-escape (c ∷ v) = ground (arith, unescape-escape v, unescape_plain c (escape v))

is_quoted_lem : (q c : ℕ) (s : Text) (d : ℕ) → is_quoted q (c ∷ (s ++ d ∷ [])) ≡ (c == q && d == q)
unfolding is_quoted
is_quoted_lem q c s d = rw (last?-append s d, is_quoted) refl

pub dotenv_unquote-dotenv_quote : (v : Text) → dotenv_unquote (dotenv_quote v) ≡ v
unfolding dotenv_unquote inner
dotenv_unquote-dotenv_quote v =
    rw
      (
        dotenv_quote_lem v,
        is_quoted_lem b'\'' b'"' (escape v) b'"',
        is_quoted_lem b'"' b'"' (escape v) b'"',
        init-append (escape v) b'"',
      )
      (unescape-escape v)

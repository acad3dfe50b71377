-- ===== src/Python/Url.antt =====
-- `urlparse` of urllib.parse, as far as scheme, host name and port. The check of bracketed and of
-- compatibility-normalised host names is left out.
use lan_manager.Prelude.{
  ℕ, Bool, true, false, not, ◌&&◌, ◌||◌, [], ◌∷◌, Option, none, some, Text, filter, lower, leb,
  ◌==◌, if◌then◌else◌,
}
use lan_manager.Python.Decimal.{is_digit, digits_from}
use lan_manager.Python.Split.{split_first, split_last}
use lan_manager.Python.Ip.{has, all_digits}

pub record Url : Type 0 where
  pub scheme : Text
  pub netloc : Text

unfoldable pub is_alpha : ℕ → Bool
is_alpha c = (leb b'a' c && leb c b'z') || (leb b'A' c && leb c b'Z')

unfoldable pub is_scheme_char : ℕ → Bool
unfolding is_alpha is_digit
is_scheme_char c = is_alpha c || is_digit c || c == b'+' || c == b'-' || c == b'.'

unfoldable pub all_scheme : Text → Bool
unfolding is_scheme_char
all_scheme [] = true
all_scheme (c ∷ s) = is_scheme_char c && all_scheme s

unfoldable pub starts_alpha : Text → Bool
unfolding is_alpha
starts_alpha [] = false
starts_alpha (c ∷ s) = is_alpha c

-- The scheme and the rest of the text; the scheme is empty where none is written.
unfoldable pub split_scheme : Text → Text × Text
unfolding split_first all_scheme starts_alpha lower
split_scheme url = elim (split_first b':' url) [
  | none ↦ ([], url)
  | some (a, rest) ↦ if starts_alpha a && all_scheme a then (lower a, rest) else ([], url)
]

-- `_splitnetloc`
unfoldable pub until_delimiter : Text → Text
until_delimiter [] = []
until_delimiter (c ∷ s) =
    let rest = until_delimiter s in if c == b'/' || c == b'?' || c == b'#' then [] else c ∷ rest

unfoldable pub netloc_of : Text → Text
unfolding until_delimiter
netloc_of (a ∷ b ∷ rest) = if a == b'/' && b == b'/' then until_delimiter rest else []
netloc_of _ = []

unfoldable pub lstrip_control : Text → Text
lstrip_control [] = []
lstrip_control (c ∷ s) = let rest = lstrip_control s in if leb c 32 then rest else c ∷ s

-- `urlparse(url)`; `none` is the `ValueError` of unbalanced brackets.
unfoldable pub urlparse : Text → Option Url
unfolding split_scheme netloc_of has filter lstrip_control
urlparse url =
    let clean = filter (λ c. not (c == 9 || c == 10 || c == 13)) (lstrip_control url) in
    let (scheme, rest) = split_scheme clean in
    let netloc = netloc_of rest in
    if (has b'[' netloc && not (has b']' netloc)) || (has b']' netloc && not (has b'[' netloc))
    then none
    else some (record { scheme = scheme; netloc = netloc })

-- What follows the last `@`.
unfoldable pub hostinfo : Text → Text
unfolding split_last
hostinfo netloc = elim (split_last b'@' netloc) [ none ↦ netloc | some (user, info) ↦ info ]

-- `s.partition(d)`: what stands before and after `d`.
unfoldable pub partition : ℕ → Text → Text × Text
unfolding split_first
partition d s = elim (split_first d s) [ none ↦ (s, []) | some (a, b) ↦ (a, b) ]

unfoldable pub host_and_port : Text → Text × Text
unfolding hostinfo partition
host_and_port netloc =
    let info = hostinfo netloc in
    elim (split_first b'[' info) [
      | none ↦ partition b':' info
      | some (front, bracketed) ↦
          let (host, after) = partition b']' bracketed in (host, (partition b':' after).1)
    ]

-- `.hostname or ""`, without the lower case that the program applies to it.
unfoldable pub hostname : Url → Text
unfolding host_and_port
hostname u = (host_and_port u.netloc).0

-- `.port`: outside the `Option` a `ValueError`, inside it `None`.
unfoldable pub port : Url → Option (Option ℕ)
unfolding host_and_port all_digits digits_from
port u = elim (host_and_port u.netloc).1 [
  | [] ↦ some none
  | c ∷ s ↦
      if all_digits (c ∷ s)
      then elim (digits_from false 0 (c ∷ s)) [
        | none ↦ none
        | some n ↦ if leb n 65535 then some (some n) else none
      ]
      else none
]

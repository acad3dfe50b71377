-- ===== src/Snmp/Profile.antt =====
-- The configuration that backend/services/snmp.py writes for a profile, and the forms of an OID and
-- of a host that it accepts.
use lan_manager.Prelude.{
  ℕ, zero, suc, ◌+◌, ◌-◌, starts_with, drop, Bool, true, false, not, ◌&&◌, ◌||◌, List, [], ◌∷◌,
  ◌++◌, Option, none, some, Text, lit, text_eq, nonempty, strip, any, length, ltb, leb, ◌==◌,
  if◌then◌else◌,
}
use lan_manager.Python.Decimal.{is_digit}
use lan_manager.Alerts.Rules.{join}

-- `_quote_conf`: a backslash before each backslash and each quote.
unfoldable pub escape : Text → Text
escape [] = []
escape (c ∷ s) =
    let rest = escape s in
    if c == b'\\' then b'\\' ∷ b'\\' ∷ rest else if c == b'"' then b'\\' ∷ b'"' ∷ rest else c ∷ rest

unfoldable pub quote_conf : Text → Text
unfolding escape
quote_conf v = b'"' ∷ escape v ++ b'"' ∷ []

pub record Profile : Type 0 where
  pub name : Text
  pub version : Text
  pub user : Text
  pub level : Text
  pub auth_protocol : Text
  pub priv_protocol : Text

-- The secrets of a profile by kind; an empty text is none.
pub record Secrets : Type 0 where
  pub community : Text
  pub auth : Text
  pub priv : Text

pub data ProfileError : Type 0 where
  no_community short_auth short_priv line_break : ProfileError

pub data ConfText : Type 0 where
  refused : ProfileError → ConfText
  conf : Text → ConfText

abbrev pub has_line_break : Text → Bool
has_line_break s = any (λ c. c == 10 || c == 13) s

abbrev pub is_auth : Profile → Bool
is_auth p = text_eq p.level (lit "authNoPriv") || text_eq p.level (lit "authPriv")

abbrev pub is_priv : Profile → Bool
is_priv p = text_eq p.level (lit "authPriv")

-- `"\n".join(righe) + "\n"`
unfoldable pub lines : List Text → Text
lines [] = []
lines (r ∷ righe) = r ++ 10 ∷ lines righe

unfoldable pub checked : List Text → ConfText
unfolding lines
checked righe = if any has_line_break righe then refused line_break else conf (lines righe)

unfoldable pub auth_lines : Profile → Secrets → List Text
unfolding join quote_conf
auth_lines p s =
    if not (is_auth p)
    then []
    else join (lit "defAuthType " ∷ p.auth_protocol ∷ [])
      ∷ join (lit "defAuthPassphrase " ∷ quote_conf s.auth ∷ [])
      ∷ []

unfoldable pub priv_lines : Profile → Secrets → List Text
unfolding join quote_conf
priv_lines p s =
    if not (is_priv p)
    then []
    else join (lit "defPrivType " ∷ p.priv_protocol ∷ [])
      ∷ join (lit "defPrivPassphrase " ∷ quote_conf s.priv ∷ [])
      ∷ []

unfoldable pub profile_conf : Profile → Secrets → ConfText
unfolding checked auth_lines priv_lines join quote_conf
profile_conf p s =
    let top = lit "mibs :" ∷ join (lit "defVersion " ∷ p.version ∷ []) ∷ [] in
    if text_eq p.version (lit "1") || text_eq p.version (lit "2c")
    then (if not (nonempty s.community)
        then refused no_community
        else checked (top ++ join (lit "defCommunity " ∷ quote_conf s.community ∷ []) ∷ []))
    else if is_auth p && ltb (length s.auth) 8
    then refused short_auth
    else if is_priv p && ltb (length s.priv) 8
    then refused short_priv
    else checked (
        top
        ++ join (lit "defSecurityName " ∷ quote_conf p.user ∷ [])
          ∷ join (lit "defSecurityLevel " ∷ p.level ∷ [])
          ∷ auth_lines p s
        ++ priv_lines p s)

-- `(\.\d{1,10}){n}$` of `_OID_RE`, as many digits as the current part has taken and parts to come;
-- `$` also matches before a final newline.
unfoldable pub oid_rest : ℕ → ℕ → Text → Bool
oid_rest parts digits [] = leb 1 digits
oid_rest parts digits (c ∷ s) =
    let digit = oid_rest parts (digits + 1) s in
    let dot = oid_rest (parts - 1) 0 s in
    if is_digit c && ltb digits 10
    then digit
    else if c == b'.'
    then leb 1 digits && leb 1 parts && dot
    else c == 10 && not (nonempty s) && leb 1 digits

-- `1(\.\d{1,10}){1,127}$`
unfoldable pub oid_one : Text → Bool
unfolding oid_rest
oid_one s = starts_with s (lit "1.") && oid_rest 126 0 (drop 2 s)

-- `_OID_RE.match(s)`, over the digits of ASCII.
unfoldable pub oid_re : Text → Bool
unfolding oid_one
oid_re s = oid_one (if starts_with s (lit ".") then drop 1 s else s)

unfoldable pub lstrip_dots : Text → Text
lstrip_dots [] = []
lstrip_dots (c ∷ s) = let rest = lstrip_dots s in if c == b'.' then rest else c ∷ s

-- `valid_oid`; `none` is `ValueError`.
unfoldable pub valid_oid : Text → Option Text
unfolding oid_re lstrip_dots
valid_oid oid = let s = strip oid in if oid_re s then some (lstrip_dots s) else none

abbrev pub is_host_char : ℕ → Bool
is_host_char c =
    leb b'A' c && leb c b'Z'
    || leb b'a' c && leb c b'z'
    || is_digit c
    || c == b'_'
    || c == b'.'
    || c == b':'
    || c == b'['
    || c == b']'

-- `[A-Za-z0-9_.:\[\]-]{0,n}$`
unfoldable pub host_rest : ℕ → Text → Bool
host_rest n [] = true
host_rest zero (c ∷ s) = c == 10 && not (nonempty s)
host_rest (suc n) (c ∷ s) =
    let rest = host_rest n s in
    if is_host_char c || c == b'-' then rest else c == 10 && not (nonempty s)

-- `_HOST_RE.match(s)`
unfoldable pub host_re : Text → Bool
unfolding host_rest
host_re [] = false
host_re (c ∷ s) = is_host_char c && host_rest 252 s

unfoldable pub valid_host : Text → Option Text
unfolding host_re
valid_host host = let s = strip host in if host_re s then some s else none

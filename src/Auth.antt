-- ===== src/Auth.antt =====
-- backend/middleware/auth.py: session tokens, trusted networks, the origin check and the gate of
-- the middleware. What is not in the repository comes as parameters: the keyed digest behind
-- `_sign` (HMAC-SHA256 in URL-safe base64, without padding) and the check of bcrypt.
pub mod Token
pub mod Gate
pub mod Login
pub mod Status
mod Tests
use lan_manager.Prelude.{
  ℕ, ◌+◌, ◌*◌, ◌/◌, Bool, true, false, not, ◌&&◌, ◌||◌, List, [], ◌∷◌, ◌++◌, Option, none, some,
  is_some, Text, lit, text_eq, nonempty, or_text, strip, lower, starts_with, any, ltb, ◌==◌,
  if◌then◌else◌, or_else,
}
use lan_manager.Python.Decimal.{show, parse_int, Signed}
use lan_manager.Python.Split.{split_last}
use lan_manager.Python.Ip.{Address, v4, v6, Network, ip_address, ip_network, is_in, is_loopback}
use lan_manager.Python.Url.{Url, urlparse, hostname, port}

-- The settings that the middleware reads; `admin_hash` is what `admin_hash()` answers.
pub record Settings : Type 0 where
  pub method : Text
  pub username : Text
  pub bypass_lan : Bool
  pub bypass_networks : List Text
  pub subnet_cidrs : List Text
  pub secret_key : Text
  pub admin_hash : Text

-- A week, in seconds.
abbrev pub ttl : ℕ
ttl = 7 * 24 * 3600

-- Nanoseconds in a second: `time.time()` is a count of nanoseconds here.
abbrev pub second : ℕ
second = 1_000_000_000

abbrev pub dot : ℕ
dot = b'.'

-- `settings.auth.method or "none"`
unfoldable pub auth_enabled : Settings → Bool
auth_enabled s = not (text_eq (or_text s.method (lit "none")) (lit "none"))

unfoldable pub password_set : Settings → Bool
password_set s = nonempty s.admin_hash

-- `bcrypt.checkpw`; `none` where it raises.
module _ (checkpw : Text → Text → Option Bool) where
  unfoldable pub verify_password : Settings → Text → Bool
  verify_password s password =
      if not (nonempty s.admin_hash) || not (nonempty password)
      then false
      else elim (checkpw password s.admin_hash) [ none ↦ false | some b ↦ b ]

unfoldable pub all_ascii : Text → Bool
all_ascii [] = true
all_ascii (c ∷ s) = ltb c 128 && all_ascii s

-- `hmac.compare_digest` on texts; `none` is the `TypeError` for what is not ASCII.
unfoldable pub compare_digest : Text → Text → Option Bool
unfolding all_ascii
compare_digest a b = if all_ascii a && all_ascii b then some (text_eq a b) else none

-- `int(exp) > time.time()`, false where `exp` is no number.
unfoldable pub is_later : Option Signed → ℕ → Bool
is_later none now = false
is_later (some n) now = not n.negative && ltb now (n.size * second)

-- `f"{username}.{exp}"`
unfoldable pub token_msg : Text → Text → Text
token_msg username exp = username ++ dot ∷ exp

module _ (digest : Text → Text → Text) where
  -- `_sign`
  unfoldable pub sign : Settings → Text → Text
  sign s msg = digest s.secret_key (msg ++ dot ∷ s.admin_hash)

  unfoldable pub make_token : Settings → Text → ℕ → Text
  make_token s username now =
      let msg = token_msg username (show (now / second + ttl)) in msg ++ dot ∷ sign s msg

  -- `valid_token`; `none` is an exception that it does not catch.
  unfoldable pub valid_token : Settings → Text → ℕ → Option Bool
  valid_token s token now = elim (split_last dot token) [
    | none ↦ some false
    | some (msg, sig) ↦ elim (split_last dot msg) [
      | none ↦ some false
      | some (username, exp) ↦ elim (compare_digest sig (sign s (token_msg username exp))) [
        | none ↦ none
        | some false ↦ some false
        | some true ↦ some (is_later (parse_int exp) now)
      ]
    ]
  ]

-- `reti_fidate`: unreadable networks are left out.
unfoldable pub networks : List Text → List Network
networks [] = []
networks (c ∷ cs) =
    let rest = networks cs in elim (ip_network (strip c)) [ none ↦ rest | some n ↦ n ∷ rest ]

unfoldable pub reti_fidate : Settings → List Network
unfolding networks
reti_fidate s = networks (if nonempty s.bypass_networks then s.bypass_networks else s.subnet_cidrs)

unfoldable pub is_trusted_network : Settings → Text → Bool
unfolding reti_fidate any is_in is_loopback
is_trusted_network s host = if not (nonempty host) then false else elim (ip_address host) [
  | none ↦ false
  | some ip ↦ is_loopback ip || any (is_in ip) (reti_fidate s)
]

-- What the middleware reads of a request; `client` is `none` where the server knows no peer.
pub record Request : Type 0 where
  pub method : Text
  pub path : Text
  pub origin : Text
  pub host : Text
  pub client : Option Text
  pub cookie : Text

unfoldable pub default_port : Text → Option ℕ
default_port scheme =
    if text_eq scheme (lit "http")
    then some 80
    else if text_eq scheme (lit "https")
    then some 443
    else none

unfoldable pub option_eq : Option ℕ → Option ℕ → Bool
option_eq (some a) (some b) = a == b
option_eq (some a) none = false
option_eq none (some b) = false
option_eq none none = true

unfoldable pub first_port : Option ℕ → Option ℕ → Option ℕ
first_port none d = d
first_port (some p) d = some p

-- The comparison of `same_origin`, from the two parsed texts.
unfoldable pub origins_match : Url → Option ℕ → Url → Option ℕ → Bool
origins_match o origin_port h req_port =
    let default = default_port o.scheme in
    nonempty (lower (hostname o))
    && is_some (first_port origin_port default)
    && text_eq (lower (hostname o)) (lower (hostname h))
    && option_eq (first_port origin_port default) (first_port req_port default)

unfoldable pub same_origin : Request → Bool
same_origin r = if not (nonempty r.origin) then true else elim (urlparse r.origin) [
  | none ↦ false
  | some o ↦ elim (urlparse (lit "//" ++ r.host)) [
    | none ↦ false
    | some h ↦ elim (port o) [
      | none ↦ false
      | some origin_port ↦ elim (port h) [
        | none ↦ false
        | some req_port ↦ origins_match o origin_port h req_port
      ]
    ]
  ]
]

unfoldable pub is_mutating : Text → Bool
is_mutating m =
    text_eq m (lit "POST")
    || text_eq m (lit "PUT")
    || text_eq m (lit "PATCH")
    || text_eq m (lit "DELETE")

abbrev pub api : Text → Bool
api path = starts_with path (lit "/api/")

-- The paths that need no session.
unfoldable pub is_open_path : Text → Bool
is_open_path path =
    not (api path)
    || starts_with path (lit "/api/auth/")
    || text_eq path (lit "/api/setup")
    || starts_with path (lit "/api/setup/")
    || text_eq path (lit "/health")

pub data Outcome : Type 0 where
  next forbidden unauthorized raised : Outcome

pub data Refusal : Type 0 where
  no_password no_session : Refusal

module _ (digest : Text → Text → Text) where
  -- `is_authenticated`; `none` is an exception.
  unfoldable pub is_authenticated : Settings → Request → ℕ → Option Bool
  is_authenticated s r now =
      if not (auth_enabled s)
      then some true
      else if s.bypass_lan && elim r.client [ none ↦ false | some host ↦ is_trusted_network s host ]
      then some true
      else valid_token digest s r.cookie now

  -- `AuthMiddleware.dispatch`
  unfoldable pub dispatch : Settings → Request → ℕ → Outcome
  dispatch s r now =
      if is_mutating r.method && api r.path && not (same_origin r)
      then forbidden
      else if text_eq r.method (lit "OPTIONS") || not (auth_enabled s) || is_open_path r.path
      then next
      else elim (is_authenticated s r now) [
        | none ↦ raised
        | some true ↦ next
        | some false ↦ unauthorized
      ]

  -- `require_session`: `none` lets the request through; outside it an exception.
  unfoldable pub require_session : Settings → Request → ℕ → Option (Option Refusal)
  require_session s r now =
      if not (password_set s)
      then some (some no_password)
      else elim (valid_token digest s r.cookie now) [
        | none ↦ none
        | some true ↦ some none
        | some false ↦ some (some no_session)
      ]

-- ===== src/Auth/Login.antt =====
-- The handlers of backend/routers/auth.py: `login` with its limiter and `set_password`, which stores
-- the hash by `update` of the secrets. The clock of the limiter (`now`) is not the clock of the tokens
-- (`wall`), as in the source; that it goes on while a password is checked is left out.
pub mod Throttle
pub mod Password
mod Tests
use lan_manager.Prelude.{
  ℕ, ◌+◌, ◌*◌, Bool, true, false, not, ◌&&◌, ◌||◌, List, [], ◌∷◌, Option, none, some, Text, lit,
  text_eq, nonempty, length, ltb, or_text, if◌then◌else◌,
}
use lan_manager.RateLimit.{RateLimiter, new, second, allowed, hit, retry_after, reset}
use lan_manager.Auth.{
  Settings, Request, make_token, verify_password, password_set, valid_token, reti_fidate,
  is_trusted_network,
}
use lan_manager.Snmp.Profile.{Profile}
use lan_manager.Secrets.{Store, value, fields}
use lan_manager.Secrets.Operations.{Update, unknown, updated, update}
use lan_manager.Python.Ip.{ip_address, is_private, is_loopback}

pub record LoginBody : Type 0 where
  pub username : Text
  pub password : Text

pub data LoginResult : Type 0 where
  too_many : ℕ → LoginResult
  bad_credentials : LoginResult
  -- The cookie that the response sets.
  logged_in : Text → LoginResult

-- `RateLimiter(max_hits=5, window_seconds=300)`
abbrev pub max_failures : ℕ
max_failures = 5

abbrev pub login_window : ℕ
login_window = 300 * second

unfoldable pub login_limiter : RateLimiter
login_limiter = new max_failures login_window

unfoldable pub client_ip : Option Text → Text
client_ip none = lit "unknown"
client_ip (some host) = host

module _ (checkpw : Text → Text → Option Bool) where
  -- The condition under which the credentials are refused.
  unfoldable pub refuses : Settings → LoginBody → Bool
  refuses s body =
      nonempty body.username && not (text_eq body.username s.username)
      || not (verify_password checkpw s body.password)

module _ (digest : Text → Text → Text) (checkpw : Text → Text → Option Bool) where
  unfoldable pub login :
      Settings → RateLimiter → LoginBody → Option Text → ℕ → ℕ → LoginResult × RateLimiter
  login s rl body client now wall =
      let ip = client_ip client in
      let (room, checked) = allowed rl ip now in
      let (wait, waited) = retry_after checked ip now in
      if not room
      then (too_many wait, waited)
      else if refuses checkpw s body
      then (bad_credentials, hit checked ip now)
      else (logged_in (make_token digest s s.username wall), reset checked ip)

-- `is_lan`
unfoldable pub is_lan : Text → Bool
is_lan host =
    if not (nonempty host)
    then false
    else elim (ip_address host) [ none ↦ false | some ip ↦ is_private ip || is_loopback ip ]

unfoldable pub in_rete_locale : Settings → Text → Bool
in_rete_locale s host = if nonempty (reti_fidate s) then is_trusted_network s host else is_lan host

pub data PasswordResult : Type 0 where
  not_authorized too_short : PasswordResult
  -- An exception: of the check of the cookie, of bcrypt or of `update`.
  broken : PasswordResult
  -- The cookie, where one is set.
  changed : Option Text → PasswordResult

abbrev pub password_key : Text
password_key = lit "LAN_AUTH__PASSWORD_HASH"

abbrev pub password_id : Text
password_id = lit "admin_password_hash"

-- `admin_hash`: the environment, then the file of secrets, then the configuration, whose
-- `password_hash` is the `admin_hash` of `cfg`.
unfoldable pub admin_hash : Settings → Store → Text
unfolding value
admin_hash cfg st = or_text (value st password_key) cfg.admin_hash

-- The settings as a request finds them.
abbrev pub current : Settings → Store → Settings
current cfg st = record cfg { admin_hash = admin_hash cfg st }

-- `bootstrap`
unfoldable pub is_bootstrap : Settings → Request → Bool
is_bootstrap s r =
    not (password_set s) && elim r.client [ none ↦ false | some host ↦ in_rete_locale s host ]

module _ (digest : Text → Text → Text) where
  unfoldable pub session_cookie : Bool → Settings → ℕ → Option Text
  session_cookie true s wall = some (make_token digest s s.username wall)
  session_cookie false s wall = none

  -- The answer, when `update` has returned or raised.
  unfoldable pub answer_change : Bool → Settings → ℕ → Update × Store → PasswordResult × Store
  unfolding session_cookie
  answer_change session cfg wall (unknown ids, st) = (broken, st)
  answer_change session cfg wall (updated ids, st) =
      (changed (session_cookie session (current cfg st) wall), st)

module _ (digest : Text → Text → Text) (hash_password : Text → Option Text) where
  -- `hash_password` answers `none` where bcrypt raises.
  unfoldable pub set_password :
      List Profile → Settings → Store → Request → Text → ℕ → PasswordResult × Store
  unfolding answer_change update fields
  set_password profiles cfg st r password wall =
      elim (valid_token digest (current cfg st) r.cookie wall) [
        | none ↦ (broken, st)
        | some session ↦
            if not session && not (is_bootstrap (current cfg st) r)
            then (not_authorized, st)
            else if ltb (length password) 6
            then (too_short, st)
            else elim (hash_password password) [
              | none ↦ (broken, st)
              | some h ↦
                  answer_change digest session cfg wall
                    (update (fields profiles) st ((password_id, some h) ∷ []))
            ]
      ]

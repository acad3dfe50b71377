-- ===== src/Auth/Login/Tests.antt =====
-- The theorems on the handlers of routers/auth.py at concrete attempts.
use lan_manager.Prelude.{
  ℕ, ◌+◌, ◌*◌, ◌/◌, ◌<◌, ◌≤◌, ◌≡◌, ◌↔◌, ◌⊎◌, inl, inr, refl, Bool, true, false, not, ◌&&◌, List, [],
  ◌∷◌, ◌++◌, Option, none, some, Text, lit, text_eq, ltb, leb, arith, All, if◌then◌else◌, nonempty,
  strip, ◌==◌, upper, lower, starts_with, any,
}
use lan_manager.Python.Decimal.{show}
use lan_manager.Python.Split.{split_last}
use lan_manager.Python.Ip.{ip_address, ip_network}
use lan_manager.RateLimit.{second}
use lan_manager.RateLimit.Window.{IsThrottled}
use lan_manager.Auth.{
  Settings, ttl, dot, all_ascii, compare_digest, is_later, sign, token_msg, make_token, valid_token,
  Request, Outcome, next, forbidden, unauthorized, raised, dispatch, require_session,
  is_trusted_network, auth_enabled, is_open_path, is_mutating, same_origin, reti_fidate, networks,
}
use lan_manager.Auth.Token.{valid_token-make_token}
use lan_manager.Auth.Login.{
  LoginBody, changed, set_password, password_key, admin_hash, current, max_failures, login_window,
  in_rete_locale,
}
use lan_manager.Auth.Login.Throttle.{Attempt, failures, IsTimely, login-IsThrottled}
use lan_manager.Secrets.{Store, fields, get_text}
use lan_manager.Python.Lines.{is_break, is_odd_break}
use lan_manager.Secrets.Line.{IsKey, starts_hash}
use lan_manager.Secrets.Update.{AreKeys}
use lan_manager.Auth.Login.Password.{
  IsHash, may_change, set_password-admin_hash, set_password-valid_token,
}
use lan_manager.Auth.Tests.{total, checksum, checksum-IsEncoded, lan, cookie, from_lan}

-- A password is right where it is the hash.
abbrev same_password : Text → Text → Option Bool
same_password password hash = some (text_eq password hash)

abbrev guess : ℕ → Attempt
guess t = record {
  settings = lan;
  body = record { username = []; password = lit "guess" };
  client = some (lit "10.0.0.3");
  now = t;
  wall = t;
}

-- Newest first: the sixth guess is not checked.
abbrev guesses : List Attempt
guesses = guess 6 ∷ guess 5 ∷ guess 4 ∷ guess 3 ∷ guess 2 ∷ guess 1 ∷ []

guesses-IsTimely : IsTimely guesses
guesses-IsTimely =
    (omega arith, (omega arith, (omega arith, (omega arith, (omega arith, (omega arith, tt))))))

login-IsThrottled_example :
    IsThrottled max_failures login_window (failures checksum same_password (lit "10.0.0.3") guesses)
login-IsThrottled_example =
    login-IsThrottled checksum same_password (lit "10.0.0.3") guesses guesses-IsTimely

-- The right password, after five failures.
abbrev right : Attempt
right = record (guess 7) { body = record { username = lit "admin"; password = lit "secret" } }

abbrev with_session : Request
with_session = record from_lan { cookie = cookie }

fresh_cookie : valid_token checksum lan cookie 0 ≡ some true
unfolding text_eq sign token_msg show total
fresh_cookie = valid_token-make_token checksum checksum-IsEncoded lan lan (lit "admin") 0 0

-- The password is in the file of secrets, or in the environment.
abbrev on_file : Store
on_file = record { file = some (lit "LAN_AUTH__PASSWORD_HASH=secret\n"); environ = [] }

abbrev in_environ : Store
in_environ = record { file = none; environ = (password_key, lit "secret") ∷ [] }

abbrev no_password : Settings
no_password = record lan { admin_hash = [] }

abbrev hashes : Text → Option Text
hashes password = some (lit "h1")

none_of : (p : ℕ → Bool) (s : Text) → any p s ≡ false → All (λ c. p c ≡ false) s
unfolding any
none_of p [] h = tt
none_of p (c ∷ s) h = (ground (arith, h), none_of p s (ground (arith, h)))

checked-IsKey :
    (k : Text)
    → strip k ≡ k
    → any (λ c. c == b'=') k ≡ false
    → any is_break k ≡ false
    → starts_hash k ≡ false
    → IsKey k
checked-IsKey k bare no_equals one_line no_comment = record {
  bare = bare;
  no_equals = none_of (λ c. c == b'=') k no_equals;
  one_line = none_of is_break k one_line;
  no_comment = no_comment;
}

fields-AreKeys : AreKeys (fields [])
unfolding fields strip any is_break starts_hash
fields-AreKeys = (
  checked-IsKey _ refl refl refl refl,
  (checked-IsKey _ refl refl refl refl, (checked-IsKey _ refl refl refl refl, tt)),
)

h1-IsHash : IsHash (lit "h1")
unfolding text_eq is_odd_break
h1-IsHash = record { full = refl; kept = refl; plain = (refl, (refl, tt)) }

set_password-admin_hash_example :
    admin_hash no_password
      (set_password checksum hashes [] no_password on_file with_session (lit "123456") 0).1
    ≡ (if may_change checksum (current no_password on_file) with_session 0
          && leb 6 6
          && not (nonempty (get_text on_file.environ password_key))
        then lit "h1"
        else admin_hash no_password on_file)
set_password-admin_hash_example =
    set_password-admin_hash checksum hashes [] no_password on_file with_session (lit "123456")
      (lit "h1") 0 refl fields-AreKeys h1-IsHash

set_password-valid_token_example :
    let (result, st') =
      set_password checksum hashes [] lan in_environ with_session (lit "123456") 0 in
    (c : Text) × (result ≡ changed (some c))
    × (valid_token checksum (current lan st') c (5 * second) ≡ some true)
unfolding admin_hash text_eq
set_password-valid_token_example =
    set_password-valid_token checksum hashes [] lan in_environ with_session (lit "123456")
      (lit "h1") 0 refl checksum-IsEncoded fields-AreKeys h1-IsHash fresh_cookie (omega arith)
      (5 * second) (omega arith)

-- The environment of the process keeps the old hash in force.
kept_test :
    admin_hash lan (set_password checksum hashes [] lan in_environ with_session (lit "123456") 0).1
    ≡ lit "secret"
unfolding set_password admin_hash valid_token split_last make_token token_msg show sign total
    compare_digest text_eq is_later lan_manager.Python.Decimal.parse_int
kept_test = refl

abbrev no_store : Store
no_store = record { file = none; environ = [] }

-- The first start: the password is in force, without a cookie.
first_password :
    let (result, st') =
      set_password checksum hashes [] no_password no_store from_lan (lit "123456") 0 in
    (result ≡ changed none) × (admin_hash no_password st' ≡ lit "h1")
unfolding set_password admin_hash valid_token split_last compare_digest sign show total token_msg
    text_eq lan_manager.Auth.Login.is_bootstrap lan_manager.Auth.password_set in_rete_locale
    reti_fidate ip_network is_trusted_network ip_address lan_manager.Secrets.dotenv_unquote
first_password = (refl, refl)

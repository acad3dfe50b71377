-- ===== src/Auth/Tests.antt =====
-- The theorems on auth.py and on the login at concrete requests. The digest of the tests is a
-- checksum in decimal, and a password is its own hash.
use lan_manager.Prelude.{
  ℕ, ◌+◌, ◌*◌, ◌≡◌, ◌↔◌, ◌⊎◌, inl, refl, true, false, [], ◌∷◌, ◌++◌, some, Text, lit, text_eq,
  arith, All, strip, starts_with,
}
use lan_manager.Python.Decimal.{show, show-IsDigits, IsDigits, is_digit}
use lan_manager.Python.Ip.{Address, ip_address, is_loopback, ip_network}
use lan_manager.RateLimit.{second}
use lan_manager.Auth.{
  Settings, ttl, dot, all_ascii, compare_digest, is_later, sign, token_msg, make_token, valid_token,
  Request, Outcome, next, forbidden, unauthorized, raised, dispatch, require_session,
  is_trusted_network, auth_enabled, is_open_path, is_mutating, same_origin, reti_fidate, networks,
}
use lan_manager.Auth.Token.{IsEncoded, is_base64, valid_token-make_token}
use lan_manager.Auth.Gate.{
  ComesInFree, InListed, is_forged, needs_session, dispatch-next, dispatch_raises,
  is_trusted_network_sound,
}

unfoldable pub total : Text → ℕ
total [] = 0
total (c ∷ s) = c + total s

abbrev pub checksum : Text → Text → Text
checksum key msg = show (total key + total msg)

digits_encoded : (s : Text) → IsDigits s → All (λ c. is_base64 c ≡ true) s
unfolding is_base64 is_digit
digits_encoded [] h = tt
digits_encoded (c ∷ s) h = (ground arith, digits_encoded s h.1)

pub checksum-IsEncoded : IsEncoded checksum
checksum-IsEncoded key msg = digits_encoded (show (total key + total msg)) (show-IsDigits _)

abbrev pub lan : Settings
lan = record {
  method = lit "basic";
  username = lit "admin";
  bypass_lan = true;
  bypass_networks = [];
  subnet_cidrs = lit "192.168.1.0/24" ∷ lit "junk" ∷ [];
  secret_key = lit "k";
  admin_hash = lit "secret";
}

-- The same settings under another password.
abbrev renewed : Settings
renewed = record lan { admin_hash = lit "other one" }

abbrev pub cookie : Text
cookie = make_token checksum lan (lit "admin") 0

valid_token-make_token_example :
    valid_token checksum renewed (make_token checksum lan (lit "admin") 0) (5 * second) ≡ some false
unfolding text_eq sign token_msg show total
valid_token-make_token_example =
    valid_token-make_token checksum checksum-IsEncoded lan renewed (lit "admin") 0 (5 * second)

fresh_token :
    valid_token checksum lan (make_token checksum lan (lit "admin") 0) (5 * second) ≡ some true
unfolding text_eq sign token_msg show total
fresh_token =
    valid_token-make_token checksum checksum-IsEncoded lan lan (lit "admin") 0 (5 * second)

-- From an address of the configured subnet.
abbrev pub from_lan : Request
from_lan = record {
  method = lit "POST";
  path = lit "/api/devices";
  origin = lit "http://lanmng:8080";
  host = lit "lanmng:8080";
  client = some (lit "192.168.1.7");
  cookie = lit "a.1.b";
}

-- The same from a page of another service on that host.
abbrev from_page : Request
from_page = record from_lan { origin = lit "http://lanmng:3001" }

-- From elsewhere, with a signature that is not ASCII.
abbrev outside : Settings
outside = record lan { bypass_lan = false }

abbrev odd_cookie : Request
odd_cookie = record from_lan { cookie = lit "a.1." ++ 0xe9 ∷ [] }

lan-needs_session : needs_session lan from_lan ≡ true
unfolding auth_enabled text_eq is_open_path starts_with
lan-needs_session = refl

lan_honest : is_forged from_lan ≡ false
unfolding same_origin is_mutating text_eq starts_with lan_manager.Python.Url.urlparse
    lan_manager.Python.Url.port lan_manager.Auth.origins_match lan_manager.Python.Url.hostname
    lan_manager.Auth.first_port lan_manager.Auth.option_eq
lan_honest = refl

page_forged : is_forged from_page ≡ true
unfolding same_origin is_mutating text_eq starts_with lan_manager.Python.Url.urlparse
    lan_manager.Python.Url.port lan_manager.Auth.origins_match lan_manager.Python.Url.hostname
    lan_manager.Auth.first_port lan_manager.Auth.option_eq
page_forged = refl

lan_trusted : is_trusted_network lan (lit "192.168.1.7") ≡ true
unfolding is_trusted_network ip_address ip_network strip
lan_trusted = refl

lan_free : ComesInFree lan from_lan
lan_free = record { host = lit "192.168.1.7"; peer = refl; bypass = refl; trusted = lan_trusted }

dispatch-next_example : (dispatch checksum lan from_lan 0 ≡ next) ↔ (
    (is_forged from_lan ≡ false)
    × (ComesInFree lan from_lan ⊎ (valid_token checksum lan from_lan.cookie 0 ≡ some true)))
dispatch-next_example = dispatch-next checksum lan from_lan 0 lan-needs_session

lan_passes : dispatch checksum lan from_lan 0 ≡ next
lan_passes = (dispatch-next checksum lan from_lan 0 lan-needs_session).1 (lan_honest, inl lan_free)

odd_needs_session : needs_session outside odd_cookie ≡ true
unfolding auth_enabled text_eq is_open_path starts_with
odd_needs_session = refl

outside_stays : ¬ ComesInFree outside odd_cookie
outside_stays free = ground (arith, free.bypass)

dispatch_raises_example : dispatch checksum outside odd_cookie 0 ≡ raised
unfolding token_msg all_ascii same_origin
dispatch_raises_example =
    dispatch_raises checksum outside odd_cookie (lit "a") (lit "1") (0xe9 ∷ []) 0 odd_needs_session
      lan_honest outside_stays refl (refl, tt) (refl, tt) refl

is_trusted_network_sound_example :
    (ip : Address) × (ip_address (lit "192.168.1.7") ≡ some ip)
    × ((is_loopback ip ≡ true) ⊎ InListed lan.subnet_cidrs ip)
is_trusted_network_sound_example = is_trusted_network_sound lan (lit "192.168.1.7") lan_trusted

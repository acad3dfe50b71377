-- ===== src/Auth/Status.antt =====
-- What backend/routers/auth.py tells of the state of the login, and the cookies that it sets. The
-- reasons of `security_warnings` in backend/middleware/auth.py are data, not their texts; a
-- network is told as a network.
use lan_manager.Prelude.{
  ℕ, Bool, not, ◌&&◌, List, [], ◌∷◌, ◌++◌, Option, none, some, Text, lit, text_eq, if◌then◌else◌,
}
use lan_manager.Python.Ip.{Network}
use lan_manager.Auth.{
  Settings, Request, ttl, auth_enabled, password_set, reti_fidate, is_authenticated, valid_token,
  make_token,
}

pub data Warning : Type 0 where
  auth_none no_password : Warning
  bypass_lan : List Network → Warning

unfoldable pub security_warnings : Settings → List Warning
security_warnings s =
    let open_api =
      if not (auth_enabled s)
      then auth_none ∷ []
      else if s.bypass_lan
      then bypass_lan (reti_fidate s) ∷ []
      else [] in
    open_api ++ (if auth_enabled s && not (password_set s) then no_password ∷ [] else [])

pub record Status : Type 0 where
  pub auth_required : Bool
  pub authenticated : Bool
  pub session : Bool
  pub username : Text
  pub password_set : Bool
  pub insecure : List Warning

-- A cookie of the response: its value and lifetime (none for a cookie that is deleted).
pub record Cookie : Type 0 where
  pub value : Option (Text × ℕ)
  pub secure : Bool

-- `_https`, of the scheme of the request.
unfoldable pub https : Text → Bool
https scheme = text_eq scheme (lit "https")

unfoldable pub logout : Text → Cookie
unfolding https
logout scheme = record { value = none; secure = https scheme }

module _ (digest : Text → Text → Text) where
  -- `session_valid`, of the cookie of the session.
  unfoldable pub session_valid : Settings → Text → ℕ → Option Bool
  session_valid s cookie now = valid_token digest s cookie now

  -- `auth_status`; `none` is an exception of the check of the cookie.
  unfoldable pub auth_status : Settings → Request → ℕ → Option Status
  unfolding security_warnings session_valid
  auth_status s r now = elim (is_authenticated digest s r now) [
    | none ↦ none
    | some authenticated ↦ elim (session_valid s r.cookie now) [
      | none ↦ none
      | some session ↦ some (record {
        auth_required = auth_enabled s;
        authenticated = authenticated;
        session = session;
        username = s.username;
        password_set = password_set s;
        insecure = security_warnings s;
      })
    ]
  ]

  -- `_set_session_cookie`
  unfoldable pub set_session_cookie : Settings → Text → ℕ → Cookie
  unfolding https
  set_session_cookie s scheme now = record {
    value = some (make_token digest s s.username now, ttl);
    secure = https scheme;
  }

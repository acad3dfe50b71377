-- ===== src/Auth/Login/Password.antt =====
-- Which admin password is in force after `set_password` of backend/routers/auth.py, and what becomes
-- of the sessions.
use lan_manager.Prelude.{
  ℕ, ◌+◌, ◌*◌, ◌/◌, ◌<◌, ◌≤◌, ◌≡◌, ◌++◌, refl, ap, sym, ◌∙◌, inl, inr, Bool, true, false, not, ◌&&◌,
  ◌||◌, List, [], ◌∷◌, Option, none, some, Text, lit, text_eq, text_eq_refl, nonempty, length, ltb,
  leb, lt→ltb, arith, Option-cases, or_text, or_else, get, if◌then◌else◌,
}
use lan_manager.Snmp.Profile.{Profile}
use lan_manager.Secrets.{
  Field, Store, read, write, value, get_text, fields, secret_fields, snmp_fields, fields_of_kinds,
  kinds,
}
use lan_manager.Secrets.Operations.{
  field_of, env_of, sconosciuti, change, Update, unknown, changes, update, updated,
}
use lan_manager.Secrets.Line.{IsValue}
use lan_manager.Secrets.Update.{AreKeys, after, asked, update_lem}
use lan_manager.Auth.{Settings, Request, ttl, second, valid_token, make_token, sign, token_msg}
use lan_manager.Auth.Token.{IsEncoded, valid_token-make_token}
use lan_manager.Python.Decimal.{show}
use lan_manager.Auth.Login.{
  PasswordResult, changed, password_key, password_id, admin_hash, current, is_bootstrap,
  session_cookie, answer_change, set_password,
}

-- A hash as bcrypt makes it: not empty, not the word that clears a secret, without line boundaries.
pub record IsHash (h : Text) : Type 0 where
  pub full : nonempty h ≡ true
  pub kept : text_eq h (lit "__CLEAR__") ≡ false
  pub plain : IsValue h

-- No SNMP profile has a field of the id of the admin password.
field_of-fields_of_kinds :
    (p : Profile) (ks : List Text) (rest : List Field)
    → field_of rest password_id ≡ none
    → field_of (fields_of_kinds p ks ++ rest) password_id ≡ none
unfolding field_of fields_of_kinds text_eq
field_of-fields_of_kinds p [] rest h = h
field_of-fields_of_kinds p (k ∷ ks) rest h = rw (field_of-fields_of_kinds p ks rest h) refl

field_of-snmp_fields :
    (profiles : List Profile) → field_of (snmp_fields profiles) password_id ≡ none
unfolding field_of snmp_fields
field_of-snmp_fields [] = refl
field_of-snmp_fields (p ∷ profiles) =
    field_of-fields_of_kinds p (kinds p) (snmp_fields profiles) (field_of-snmp_fields profiles)

field_of-fields :
    (profiles : List Profile)
    → field_of (fields profiles) password_id
      ≡ some (record { id = password_id; env = password_key })
unfolding field_of fields secret_fields text_eq
field_of-fields profiles = rw (field_of-snmp_fields profiles, field_of) refl

both : (a b : Bool) → a ≡ true → b ≡ true → (a && b) ≡ true
both a b h k = ground (arith, h, k)

or_text_full : (e h c : Text) → nonempty h ≡ true → or_text (or_text e h) c ≡ or_text e h
or_text_full [] [] c full = ground arith
or_text_full [] (x ∷ h) c full = refl
or_text_full (x ∷ e) h c full = refl

-- The hash of the environment, or of the file and the configuration where it has none.
environ_first :
    (cfg : Settings) (st : Store) (h : Text)
    → or_text (get_text st.environ password_key) h
      ≡ (if nonempty (get_text st.environ password_key) then admin_hash cfg st else h)
unfolding admin_hash value
environ_first cfg st h =
    or_text_first (get_text st.environ password_key) (get_text (read st) password_key) h
      cfg.admin_hash
  where
    or_text_first :
        (e f h c : Text) → or_text e h ≡ (if nonempty e then or_text (or_text e f) c else h)
    or_text_first [] f h c = refl
    or_text_first (x ∷ e) f h c = refl

module _ (profiles : List Profile) (st : Store) (h : Text) (keys : AreKeys (fields profiles))
    (hash : IsHash h) where
  known : sconosciuti (fields profiles) ((password_id, some h) ∷ []) ≡ []
  unfolding sconosciuti
  known = rw (field_of-fields profiles) refl

  -- `update` returns, and writes the secrets with the hash.
  update_one : update (fields profiles) st ((password_id, some h) ∷ []) ≡ (
    updated (password_id ∷ []),
    write st (changes (fields profiles) ((password_id, some h) ∷ []) (read st)).0,
  )
  unfolding update changes change
  update_one = rw (known, hash.kept, hash.full, update) refl

  -- The file has the new hash.
  stored :
      get (read (update (fields profiles) st ((password_id, some h) ∷ [])).1) password_key ≡ some h
  unfolding after asked env_of
  stored =
      update_lem (fields profiles) st ((password_id, some h) ∷ []) password_key keys
        (hash.plain, tt) known
      ∙ rw (field_of-fields profiles, text_eq_refl password_key, hash.kept, hash.full) refl

  -- What is in force afterwards: the environment of the process comes first.
  in_force :
      (cfg : Settings)
      → admin_hash cfg (update (fields profiles) st ((password_id, some h) ∷ [])).1
        ≡ or_text (get_text st.environ password_key) h
  unfolding admin_hash value write
  in_force cfg =
      let u = update (fields profiles) st ((password_id, some h) ∷ []) in
      let kept : u.1.environ ≡ st.environ = ap (λ (v : Update × Store). v.1.environ) update_one in
      ap
        (λ en.
          or_text (or_text (get_text en password_key) (get_text (read (u.1)) password_key))
            cfg.admin_hash)
        kept
      ∙ ap (λ o. or_text (or_text (get_text st.environ password_key) (or_else o [])) cfg.admin_hash)
          stored
      ∙ or_text_full (get_text st.environ password_key) h cfg.admin_hash hash.full

module _ (digest : Text → Text → Text) where
  answer_store :
      (session : Bool) (cfg : Settings) (wall : ℕ) (u : Update × Store)
      → (answer_change digest session cfg wall u).1 ≡ u.1
  unfolding answer_change
  answer_store session cfg wall (unknown ids, st) = refl
  answer_store session cfg wall (updated ids, st) = refl

  answer_updated :
      (session : Bool) (cfg : Settings) (wall : ℕ) (u : Update × Store) (ids : List Text)
      → u.0 ≡ updated ids
      → (answer_change digest session cfg wall u).0
        ≡ changed (session_cookie digest session (current cfg (u.1)) wall)
  unfolding answer_change
  answer_updated session cfg wall (unknown ids', st) ids h = ground (arith, h)
  answer_updated session cfg wall (updated ids', st) ids h = refl

  -- Who may change the password: a session, or the first start from a local network.
  unfoldable pub may_change : Settings → Request → ℕ → Bool
  may_change s r wall = elim (valid_token digest s r.cookie wall) [
    | none ↦ false
    | some session ↦ session || is_bootstrap s r
  ]

module _ (digest : Text → Text → Text) (hash_password : Text → Option Text)
    (profiles : List Profile) (cfg : Settings) (st : Store) (r : Request) (password h : Text)
    (wall : ℕ) (hashed : hash_password password ≡ some h) where
  set_password-store : (set_password digest hash_password profiles cfg st r password wall).1 ≡ (
      if may_change digest (current cfg st) r wall && leb 6 (length password)
      then (update (fields profiles) st ((password_id, some h) ∷ [])).1
      else st)
  unfolding set_password may_change
  set_password-store = elim (Option-cases (valid_token digest (current cfg st) r.cookie wall)) [
    | inl e ↦ ground (arith, e)
    | inr (session, e) ↦ ground (
      arith,
      e,
      hashed,
      answer_store digest session cfg wall
          (update (fields profiles) st ((password_id, some h) ∷ [])),
    )
  ]

  -- When bcrypt makes a hash of one line (not empty and not `__CLEAR__`), the admin password in force
  -- after `set_password` is that hash exactly when the request has a session or is a first start from
  -- a local network, the password has at least six characters, and the environment of the process
  -- sets none; else it is the one before. The hash goes through the file of secrets, whatever stands
  -- there, and the variables of all secrets, those of the SNMP profiles too, are names that a line of
  -- it can carry.
  pub set_password-admin_hash :
      AreKeys (fields profiles)
      → IsHash h
      → admin_hash cfg (set_password digest hash_password profiles cfg st r password wall).1 ≡ (
          if may_change digest (current cfg st) r wall
            && leb 6 (length password)
            && not (nonempty (get_text st.environ password_key))
          then h
          else admin_hash cfg st)
  set_password-admin_hash keys hash =
      let force = in_force profiles st h keys hash cfg ∙ environ_first cfg st h in
      ap (admin_hash cfg) set_password-store ∙ ground (arith, force)

  -- With a session, the answer is that of the change.
  reaches_change :
      valid_token digest (current cfg st) r.cookie wall ≡ some true
      → 6 ≤ length password
      → set_password digest hash_password profiles cfg st r password wall
        ≡ answer_change digest true cfg wall
            (update (fields profiles) st ((password_id, some h) ∷ []))
  unfolding set_password
  reaches_change valid long =
      let enough : ltb (length password) 6 ≡ false = ground (arith, long) in
      ground (arith, valid, enough, hashed)

  gives_cookie :
      AreKeys (fields profiles)
      → IsHash h
      → valid_token digest (current cfg st) r.cookie wall ≡ some true
      → 6 ≤ length password
      → let (result, st') = set_password digest hash_password profiles cfg st r password wall in
        result ≡ changed (some (make_token digest (current cfg st') cfg.username wall))
  unfolding session_cookie
  gives_cookie keys hash valid long =
      let u = update (fields profiles) st ((password_id, some h) ∷ []) in
      let reached = reaches_change valid long in
      ap (λ (a : PasswordResult × Store). a.0) reached
      ∙ answer_updated digest true cfg wall u (password_id ∷ [])
          (ap (λ (v : Update × Store). v.0) (update_one profiles st h keys hash))
      ∙ ap (λ x. changed (some (make_token digest (current cfg x) cfg.username wall)))
          (sym (
            ap (λ (a : PasswordResult × Store). a.1) reached ∙ answer_store digest true cfg wall u))

  -- When a request with a session gives a password of at least six characters, of which bcrypt makes a
  -- hash of one line (not empty and not `__CLEAR__`), and the variables of all secrets are names that
  -- a line can carry, the change succeeds and the answer has a cookie that is valid afterwards until
  -- its week is over, whether the environment of the process sets the password or not. The digest
  -- is written in URL-safe base64.
  pub set_password-valid_token :
      IsEncoded digest
      → AreKeys (fields profiles)
      → IsHash h
      → valid_token digest (current cfg st) r.cookie wall ≡ some true
      → 6 ≤ length password
      → (now : ℕ) → now < (wall / second + ttl) * second
      → let (result, st') = set_password digest hash_password profiles cfg st r password wall in
        (cookie : Text) × (result ≡ changed (some cookie))
        × (valid_token digest (current cfg st') cookie now ≡ some true)
  set_password-valid_token encoded keys hash valid long now fresh =
      let s' = current cfg (set_password digest hash_password profiles cfg st r password wall).1 in
      let signed = sign digest s' (token_msg cfg.username (show (wall / second + ttl))) in
      (
        make_token digest s' cfg.username wall,
        gives_cookie keys hash valid long,
        valid_token-make_token digest encoded s' s' cfg.username wall now
            ∙ ap some (
                both _ _ (text_eq_refl signed) (lt→ltb now ((wall / second + ttl) * second) fresh)),
      )

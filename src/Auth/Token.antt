-- ===== src/Auth/Token.antt =====
-- Session tokens of backend/middleware/auth.py: what `make_token` issues and `valid_token` accepts.
use lan_manager.Prelude.{
  ℕ, ◌+◌, ◌*◌, ◌/◌, ◌≡◌, refl, sym, ap, ◌∙◌, Bool, true, false, ◌&&◌, ◌||◌, [], ◌∷◌, ◌++◌, none,
  some, Text, text_eq, text_eq_iff, ltb, leb, ◌==◌, arith, All, Bool-cases, Option-cases, inl, inr,
}
use lan_manager.Python.Decimal.{show, parse_int, parse_int-show, show-IsDigits, is_digit, IsDigits}
use lan_manager.Python.Split.{split_last, split_last-append, split_last_sound, Lacks}
use lan_manager.Auth.{
  Settings, ttl, second, dot, all_ascii, compare_digest, is_later, sign, token_msg, make_token,
  valid_token,
}

-- A character of URL-safe base64 without padding.
unfoldable pub is_base64 : ℕ → Bool
is_base64 c =
    leb b'A' c && leb c b'Z'
    || leb b'a' c && leb c b'z'
    || leb b'0' c && leb c b'9'
    || c == b'-'
    || c == b'_'

-- What the encoding promises of every digest.
abbrev pub IsEncoded : (Text → Text → Text) → Type 0
IsEncoded digest = (key msg : Text) → All (λ c. is_base64 c ≡ true) (digest key msg)

base64_ascii : (s : Text) → All (λ c. is_base64 c ≡ true) s → all_ascii s ≡ true
unfolding all_ascii is_base64
base64_ascii [] h = refl
base64_ascii (c ∷ s) h = ground (arith, base64_ascii s h.1)

base64-Lacks : (s : Text) → All (λ c. is_base64 c ≡ true) s → Lacks dot s
unfolding is_base64
base64-Lacks [] h = tt
base64-Lacks (c ∷ s) h = (ground arith, base64-Lacks s h.1)

pub digits_lack : (s : Text) → IsDigits s → Lacks dot s
unfolding is_digit
digits_lack [] h = tt
digits_lack (c ∷ s) h = (ground arith, digits_lack s h.1)

append_cancel : (a b c : Text) → a ++ b ≡ a ++ c → b ≡ c
append_cancel [] b c h = h
append_cancel (x ∷ a) b c h = append_cancel a b c (cc)

module _ (digest : Text → Text → Text) where
  -- What `valid_token` computes on a text of three parts.
  pub valid_token_parts :
      (s : Settings) (u exp sig : Text) (now : ℕ)
      → Lacks dot exp
      → Lacks dot sig
      → valid_token digest s (token_msg u exp ++ dot ∷ sig) now
        ≡ elim (compare_digest sig (sign digest s (token_msg u exp))) [
          | none ↦ none
          | some false ↦ some false
          | some true ↦ some (is_later (parse_int exp) now)
        ]
  unfolding valid_token token_msg
  valid_token_parts s u exp sig now he hs =
      rw
        (split_last-append dot (u ++ dot ∷ exp) sig hs, valid_token, split_last-append dot u exp he)

  accepted :
      (sig own : Text) (later : Bool)
      → elim (compare_digest sig own) [
        | none ↦ none
        | some false ↦ some false
        | some true ↦ some later
      ]
        ≡ some true
      → (sig ≡ own) × (later ≡ true)
  unfolding compare_digest
  accepted sig own later h = ground (arith, text_eq_iff sig own)

  accepted_parts :
      (s : Settings) (u exp sig : Text) (now : ℕ)
      → Lacks dot exp
      → Lacks dot sig
      → valid_token digest s (token_msg u exp ++ dot ∷ sig) now ≡ some true
      → (sig ≡ sign digest s (token_msg u exp)) × (is_later (parse_int exp) now ≡ true)
  accepted_parts s u exp sig now he hs h =
      accepted sig (sign digest s (token_msg u exp)) (is_later (parse_int exp) now)
        (sym (valid_token_parts s u exp sig now he hs) ∙ h)

  -- A token that is accepted is a user and an expiry under their signature, and the expiry is
  -- still to come.
  pub valid_token_sound :
      (s : Settings) (token : Text) (now : ℕ)
      → valid_token digest s token now ≡ some true
      → (u : Text) × (exp : Text) × (token
          ≡ token_msg u exp ++ dot ∷ sign digest s (token_msg u exp))
        × (is_later (parse_int exp) now ≡ true)
  unfolding valid_token token_msg
  valid_token_sound s token now h = elim (Option-cases (split_last dot token)) [
    | inl e ↦ ground arith
    | inr (p, e) ↦ elim (Option-cases (split_last dot p.0)) [
      | inl e' ↦ ground arith
      | inr (q, e') ↦
          let (whole, lacks) = split_last_sound dot token p.0 p.1 e in
          let (front, lacks') = split_last_sound dot p.0 q.0 q.1 e' in
          let same : token ≡ (q.0 ++ dot ∷ q.1) ++ dot ∷ p.1 =
            whole ∙ ap (λ a. a ++ dot ∷ p.1) front in
          let (own, later) =
            accepted_parts s q.0 q.1 p.1 now lacks' lacks
              (ap (λ a. valid_token digest s a now) (sym same) ∙ h) in
          (q.0, q.1, same ∙ ap (λ a. token_msg q.0 q.1 ++ dot ∷ a) own, later)
    ]
  ]

  -- A signature with a character outside ASCII is not refused: `hmac.compare_digest` raises.
  pub valid_token_raises :
      (s : Settings) (u exp sig : Text) (now : ℕ)
      → Lacks dot exp
      → Lacks dot sig
      → all_ascii sig ≡ false
      → valid_token digest s (token_msg u exp ++ dot ∷ sig) now ≡ none
  unfolding compare_digest
  valid_token_raises s u exp sig now he hs ha = rw (valid_token_parts s u exp sig now he hs, ha)

  module _ (encoded : IsEncoded digest) where
    compare_digest-sign :
        (s : Settings) (key msg : Text) (m : Text)
        → compare_digest (digest key msg) (sign digest s m)
          ≡ some (text_eq (digest key msg) (sign digest s m))
    unfolding compare_digest sign
    compare_digest-sign s key msg m = rw (
      base64_ascii (digest key msg) (encoded key msg),
      base64_ascii (digest s.secret_key (m ++ dot ∷ s.admin_hash))
          (encoded s.secret_key (m ++ dot ∷ s.admin_hash)),
    )

    -- A token that was made under some settings is valid under others exactly when both sign it
    -- the same and the week since it was made is not over.
    pub valid_token-make_token :
        (made read : Settings) (u : Text) (t now : ℕ)
        → valid_token digest read (make_token digest made u t) now
          ≡ some (
              text_eq
                (sign digest made (token_msg u (show (t / second + ttl))))
                (sign digest read (token_msg u (show (t / second + ttl))))
              && ltb now ((t / second + ttl) * second))
    unfolding make_token sign is_later
    valid_token-make_token made read u t now =
        let exp = show (t / second + ttl) in
        let msg = token_msg u exp in
        rw
          (
            valid_token_parts read u exp (sign digest made msg) now
                (digits_lack exp (show-IsDigits (t / second + ttl)))
                (base64-Lacks (sign digest made msg)
                  (encoded made.secret_key (msg ++ dot ∷ made.admin_hash))),
            compare_digest-sign read made.secret_key (msg ++ dot ∷ made.admin_hash) msg,
          )
          (elim (Bool-cases (text_eq (sign digest made msg) (sign digest read msg))) [
            | inl same ↦ rw (same, parse_int-show (t / second + ttl))
            | inr other ↦ rw other
          ])

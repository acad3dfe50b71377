-- ===== src/Auth/Gate.antt =====
-- The gate of backend/middleware/auth.py: which requests `AuthMiddleware.dispatch` and
-- `require_session` let through, and which addresses `is_trusted_network` trusts.
use mathlib.Core.List.{Memᴰ}
use lan_manager.Prelude.{
  ℕ, ◌≡◌, ◌↔◌, ◌⊎◌, inl, inr, refl, ap, sym, ◌∙◌, Bool, true, false, not, ◌&&◌, List, [], ◌∷◌, ◌++◌,
  Option, none, some, Text, lit, text_eq, nonempty, strip, any, arith, Bool-cases, Option-cases,
  if◌then◌else◌,
}
use lan_manager.Python.Split.{Lacks}
use lan_manager.Python.Ip.{Address, Network, ip_address, ip_network, is_in, is_loopback}
use lan_manager.Auth.{
  Settings, Request, next, forbidden, unauthorized, raised, auth_enabled, networks, reti_fidate,
  is_trusted_network, is_open_path, is_mutating, api, same_origin, is_authenticated, dispatch,
  valid_token, token_msg, dot, all_ascii,
}
use lan_manager.Auth.Token.{valid_token_raises}

-- The client's address is one that the settings let in without a session.
pub record ComesInFree (s : Settings) (r : Request) : Type 0 where
  pub host : Text
  pub peer : r.client ≡ some host
  pub bypass : s.bypass_lan ≡ true
  pub trusted : is_trusted_network s host ≡ true

-- A path that only a session, or an address let in without one, may reach.
abbrev pub needs_session : Settings → Request → Bool
needs_session s r =
    auth_enabled s && not (text_eq r.method (lit "OPTIONS")) && not (is_open_path r.path)

-- A change of state that another origin asks for.
abbrev pub is_forged : Request → Bool
is_forged r = is_mutating r.method && api r.path && not (same_origin r)

module _ (digest : Text → Text → Text) where
  is_authenticated_sound :
      (s : Settings) (r : Request) (now : ℕ)
      → auth_enabled s ≡ true
      → is_authenticated digest s r now ≡ some true
      → ComesInFree s r ⊎ (valid_token digest s r.cookie now ≡ some true)
  unfolding is_authenticated
  is_authenticated_sound s r now on h = elim (Option-cases r.client) [
    | inl e ↦ inr (ground arith)
    | inr (host, e) ↦ elim (Bool-cases s.bypass_lan) [
      | inr off ↦ inr (ground arith)
      | inl b ↦ elim (Bool-cases (is_trusted_network s host)) [
        | inl t ↦ inl (record { host = host; peer = e; bypass = b; trusted = t })
        | inr f ↦ inr (ground arith)
      ]
    ]
  ]

  is_authenticated_free :
      (s : Settings) (r : Request) (now : ℕ)
      → auth_enabled s ≡ true
      → ComesInFree s r
      → is_authenticated digest s r now ≡ some true
  unfolding is_authenticated
  is_authenticated_free s r now on free = rw (on, free.bypass, free.peer, free.trusted) refl

  is_authenticated_valid :
      (s : Settings) (r : Request) (now : ℕ)
      → valid_token digest s r.cookie now ≡ some true
      → is_authenticated digest s r now ≡ some true
  unfolding is_authenticated
  is_authenticated_valid s r now valid = ground arith

  dispatch-needs_session :
      (s : Settings) (r : Request) (now : ℕ)
      → needs_session s r ≡ true
      → is_forged r ≡ false
      → dispatch digest s r now ≡ elim (is_authenticated digest s r now) [
        | none ↦ raised
        | some true ↦ next
        | some false ↦ unauthorized
      ]
  unfolding dispatch
  dispatch-needs_session s r now needs honest = ground arith

  -- Where a session is needed, `dispatch` lets a request through exactly when no other origin
  -- asks for a change and the client's address comes in free or the cookie is a valid token.
  pub dispatch-next :
      (s : Settings) (r : Request) (now : ℕ)
      → needs_session s r ≡ true
      → (dispatch digest s r now ≡ next) ↔ (
          (is_forged r ≡ false)
          × (ComesInFree s r ⊎ (valid_token digest s r.cookie now ≡ some true)))
  dispatch-next s r now needs = (passes, admits)
    where
      on : auth_enabled s ≡ true
      on = ground arith

      passes :
          dispatch digest s r now ≡ next
          → (is_forged r ≡ false)
            × (ComesInFree s r ⊎ (valid_token digest s r.cookie now ≡ some true))
      passes h = elim (Bool-cases (is_forged r)) [
        | inl forged ↦ unfold dispatch in ground arith
        | inr honest ↦ (
          honest,
          is_authenticated_sound s r now on (
              answered (is_authenticated digest s r now)
                (sym (dispatch-needs_session s r now needs honest) ∙ h)),
        )
      ]
        where
          answered :
              (o : Option Bool)
              → elim o [ none ↦ raised | some true ↦ next | some false ↦ unauthorized ] ≡ next
              → o ≡ some true
          answered o e = ground arith

      admits :
          (is_forged r ≡ false)
            × (ComesInFree s r ⊎ (valid_token digest s r.cookie now ≡ some true))
          → dispatch digest s r now ≡ next
      admits (honest, inl free) =
          rw (dispatch-needs_session s r now needs honest, is_authenticated_free s r now on free)
            refl
      admits (honest, inr valid) =
          rw (dispatch-needs_session s r now needs honest, is_authenticated_valid s r now valid)
            refl

  -- A change of state under `/api/` that another origin asks for is refused, whatever the
  -- settings, the address and the cookie are.
  pub dispatch-forged :
      (s : Settings) (r : Request) (now : ℕ)
      → is_forged r ≡ true
      → dispatch digest s r now ≡ forbidden
  unfolding dispatch
  dispatch-forged s r now h = ground arith

  is_authenticated_asks :
      (s : Settings) (r : Request) (now : ℕ)
      → auth_enabled s ≡ true
      → ¬ ComesInFree s r
      → is_authenticated digest s r now ≡ valid_token digest s r.cookie now
  unfolding is_authenticated
  is_authenticated_asks s r now on outside = elim (Option-cases r.client) [
    | inl e ↦ ground (arith, on, e)
    | inr (host, e) ↦ elim (Bool-cases s.bypass_lan) [
      | inr off ↦ ground (arith, on, off)
      | inl b ↦ elim (Bool-cases (is_trusted_network s host)) [
        | inl t ↦ absurd (outside (record { host = host; peer = e; bypass = b; trusted = t }))
        | inr f ↦ ground (arith, on, e, f)
      ]
    ]
  ]

  -- A request that needs a session, is no change that another origin asks for (that one is refused
  -- before), comes from an address that is not let in without a session, and has a cookie whose
  -- signature has a character outside ASCII: it is not refused, `dispatch` ends with an exception.
  pub dispatch_raises :
      (s : Settings) (r : Request) (u exp sig : Text) (now : ℕ)
      → needs_session s r ≡ true
      → is_forged r ≡ false
      → ¬ ComesInFree s r
      → r.cookie ≡ token_msg u exp ++ dot ∷ sig
      → Lacks dot exp
      → Lacks dot sig
      → all_ascii sig ≡ false
      → dispatch digest s r now ≡ raised
  dispatch_raises s r u exp sig now needs honest outside is he hs ha =
      let on : auth_enabled s ≡ true = ground (arith, needs) in
      let invalid : is_authenticated digest s r now ≡ none =
        is_authenticated_asks s r now on outside
        ∙ ap (λ c. valid_token digest s c now) is
        ∙ valid_token_raises digest s u exp sig now he hs ha in
      rw (dispatch-needs_session s r now needs honest, invalid) refl

-- The address is in one of the listed networks, which is written as a network.
pub record InListed (cidrs : List Text) (ip : Address) : Type 0 where
  pub cidr : Text
  pub listed : Memᴰ cidr cidrs
  pub network : Network
  pub reads : ip_network (strip cidr) ≡ some network
  pub inside : is_in ip network ≡ true

InListed-cons : (c : Text) (cs : List Text) (ip : Address) → InListed cs ip → InListed (c ∷ cs) ip
InListed-cons c cs ip l = record {
  cidr = l.cidr;
  listed = Memᴰ.tail l.listed;
  network = l.network;
  reads = l.reads;
  inside = l.inside;
}

any-networks :
    (cidrs : List Text) (ip : Address) → any (is_in ip) (networks cidrs) ≡ true → InListed cidrs ip
unfolding networks any
any-networks [] ip h = ground arith
any-networks (c ∷ cs) ip h = elim (Option-cases (ip_network (strip c))) [
  | inl e ↦ InListed-cons c cs ip (any-networks cs ip (ground arith))
  | inr (n, e) ↦ elim (Bool-cases (is_in ip n)) [
    | inl t ↦ record { cidr = c; listed = Memᴰ.head refl; network = n; reads = e; inside = t }
    | inr f ↦ InListed-cons c cs ip (any-networks cs ip (ground arith))
  ]
]

-- An address that is trusted is a loopback address, or lies in a network that the bypass lists,
-- or that the subnets list where the bypass lists none.
pub is_trusted_network_sound :
    (s : Settings) (host : Text)
    → is_trusted_network s host ≡ true
    → (ip : Address) × (ip_address host ≡ some ip)
      × ((is_loopback ip ≡ true)
          ⊎ InListed (if nonempty s.bypass_networks then s.bypass_networks else s.subnet_cidrs) ip)
unfolding is_trusted_network reti_fidate
is_trusted_network_sound s host h = elim (Option-cases (ip_address host)) [
  | inl e ↦ ground arith
  | inr (ip, e) ↦ elim (Bool-cases (is_loopback ip)) [
    | inl t ↦ (ip, e, inl t)
    | inr f ↦ (
      ip,
      e,
      inr (
          any-networks (if nonempty s.bypass_networks then s.bypass_networks else s.subnet_cidrs) ip
            (ground arith)),
    )
  ]
]

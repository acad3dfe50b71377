-- ===== src/Alerts/Watch.antt =====
-- The watch on the WireGuard relay in backend/services/alerts.py: its two rules together.
use mathlib.Core.List.{Memᴰ}
use lan_manager.Prelude.{
  ℕ, ◌+◌, ◌≤◌, ◌≡◌, refl, Bool, true, false, ◌||◌, List, [], ◌∷◌, ◌++◌, map, filter, Text, text_eq,
  text_eq_iff, nonempty, any, leb→le, arith, Bool-cases, inl, inr,
}
use lan_manager.Alerts.Network.{
  Peer, WgInterface, host_endpoint, handshake_attivo, is_relay_down, relay_alert, relay_alerts,
  relay_giu, peers_of, relay_non_trovato,
}

any-Memᴰ {ℓ} :
    {A : Type ℓ} (f : A → Bool) (xs : List A) → any f xs ≡ true → (x : A) × Memᴰ x xs × (f x ≡ true)
unfolding any
any-Memᴰ f [] h = ground arith
any-Memᴰ f (x ∷ xs) h = elim (Bool-cases (f x)) [
  | inl t ↦ (x, Memᴰ.head refl, t)
  | inr e ↦ let (y, m, t) = any-Memᴰ f xs (ground arith) in (y, Memᴰ.tail m, t)
]

Memᴰ-any {ℓ} :
    {A : Type ℓ} (f : A → Bool) (x : A) (xs : List A) → Memᴰ x xs → any f xs ≡ false → f x ≡ false
unfolding any
Memᴰ-any f x [] m h = elim m [ ]
Memᴰ-any f x (y ∷ ys) (Memᴰ.head e) h = rw e (ground arith)
Memᴰ-any f x (y ∷ ys) (Memᴰ.tail m) h = Memᴰ-any f x ys m (ground arith)

any-append {ℓ} :
    {A : Type ℓ} (f : A → Bool) (xs ys : List A) → any f (xs ++ ys) ≡ (any f xs || any f ys)
unfolding any
any-append f [] ys = refl
any-append f (x ∷ xs) ys = ground (arith, any-append f xs ys)

silent-append :
    {A B : Type 0} (f : A → Bool) (g : A → B) (xs : List A) (ys : List B)
    → map g (filter f xs) ++ ys ≡ []
    → (any f xs ≡ false) × (ys ≡ [])
unfolding any filter
silent-append f g [] ys h = (refl, h)
silent-append f g (x ∷ xs) ys h = ground (arith, silent-append f g xs ys)

relay_alerts-silent :
    (now : ℕ) (relay : Text) (interfaces : List WgInterface)
    → relay_alerts now relay interfaces ≡ []
    → any (is_relay_down now relay) (peers_of interfaces) ≡ false
unfolding relay_alerts peers_of any
relay_alerts-silent now relay [] h = refl
relay_alerts-silent now relay (i ∷ interfaces) h =
    let (none_here, rest) =
      silent-append (is_relay_down now relay) (relay_alert now relay i.name) i.peers
        (relay_alerts now relay interfaces) h in
    rw (any-append (is_relay_down now relay) i.peers (peers_of interfaces), none_here)
      (relay_alerts-silent now relay interfaces rest)

module _ (relay_host : Text) (now : ℕ) (interfaces : List WgInterface) where
  found :
      nonempty (host_endpoint relay_host) ≡ true
      → nonempty (peers_of interfaces) ≡ true
      → relay_non_trovato relay_host interfaces ≡ []
      → any
          (λ p. text_eq (host_endpoint p.endpoint) (host_endpoint relay_host))
          (peers_of interfaces)
        ≡ true
  unfolding relay_non_trovato
  found declared peers quiet = ground arith

  up :
      (p : Peer)
      → is_relay_down now (host_endpoint relay_host) p ≡ false
      → text_eq (host_endpoint p.endpoint) (host_endpoint relay_host) ≡ true
      → now ≤ p.last_handshake + handshake_attivo
  unfolding is_relay_down
  up p h e = leb→le now (p.last_handshake + handshake_attivo) (ground arith)

  -- While a relay is declared and the router has a peer, the two rules are silent only if some
  -- peer is the relay and made its last handshake at most three minutes ago.
  pub relay_watched :
      nonempty (host_endpoint relay_host) ≡ true
      → nonempty (peers_of interfaces) ≡ true
      → relay_giu relay_host now interfaces ≡ []
      → relay_non_trovato relay_host interfaces ≡ []
      → (p : Peer) × Memᴰ p (peers_of interfaces)
        × (host_endpoint p.endpoint ≡ host_endpoint relay_host)
        × (now ≤ p.last_handshake + handshake_attivo)
  relay_watched declared peers quiet quiet' =
      let relay = host_endpoint relay_host in
      let (p, m, e) =
        any-Memᴰ (λ q. text_eq (host_endpoint q.endpoint) relay) (peers_of interfaces)
          (found declared peers quiet') in
      let alerts_quiet : relay_alerts now relay interfaces ≡ [] =
        unfold relay_giu in ground arith in
      let ok =
        Memᴰ-any (is_relay_down now relay) p (peers_of interfaces) m
          (relay_alerts-silent now relay interfaces alerts_quiet) in
      (p, m, (text_eq_iff (host_endpoint p.endpoint) relay).0 e, up p ok e)

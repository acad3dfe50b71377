-- ===== src/Registry/Quiet.antt =====
-- Observations without an address, and the invariant of every observation.
use lan_manager.Prelude.{
  ℕ, ◌≡◌, ◌≢◌, ◌<◌, refl, ap, sym, ◌∙◌, subst, ◌⊎◌, inl, inr, false, [], ◌∷◌, Option, none, some,
  Text, ◌==◌, ==_iff, nonempty, strip, length, arith, Bool-cases, Option-cases, get, nth,
  nth-length,
}
use lan_manager.Registry.{
  Device, new_device, Registry, canonical_mac, find_device, observe, indexed, upsert_at, upsert_new,
  upsert_known, upsert,
}
use mathlib.Core.Option.{some-injective}
use mathlib.Core.Option.{some-injective}
use lan_manager.Registry.Addresses.{IsAddressed, observe_no_ip}
use lan_manager.Registry.Map.{
  Changed, append-Changed, put_nth-Changed, Serves-IsAddressed, same_device,
}
use lan_manager.Registry.Invariant.{upsert_at-Serves}

-- `e` stands at the place `p` with the addresses that stood there, and the index is as before.
record Quiet (r r' : Registry) (e : Device) (p : ℕ) : Type 0 where
  changed : Changed r.devices r'.devices p e
  by_ip_same : r'.by_ip ≡ r.by_ip
  same_ips : (d : Device) → nth r.devices p ≡ some d → e.ips ≡ d.ips
  no_ips : nth r.devices p ≡ none → e.ips ≡ []

not_same : (q p : ℕ) → (q == p) ≡ false → q ≢ p
not_same q p h e = grind (arith, e, h)

Quiet-IsAddressed :
    (r r' : Registry) (e : Device) (p : ℕ) → IsAddressed r → Quiet r r' e p → IsAddressed r'
Quiet-IsAddressed r r' e p ok s = record { known = known; alone = alone }
  where
    index : (ip : Text) → get r'.by_ip ip ≡ get r.by_ip ip
    index ip = ap (λ m. get m ip) s.by_ip_same

    known :
        (j : Text) (q : ℕ)
        → get r'.by_ip j ≡ some q
        → (d : Device) × (nth r'.devices q ≡ some d) × (d.ips ≡ j ∷ [])
    known j q h =
        let (d, here, owns) = ok.known j q (sym (index j) ∙ h) in
        elim (Bool-cases (q == p)) [
          | inl same ↦
              let at : q ≡ p = (==_iff q p).0 same in
              (
                e,
                ap (nth r'.devices) at ∙ s.changed.here,
                s.same_ips d (sym (ap (nth r.devices) at) ∙ here) ∙ owns,
              )
          | inr other ↦ (d, s.changed.front q d (not_same q p other) here, owns)
        ]

    alone :
        (q : ℕ) (d : Device)
        → nth r'.devices q ≡ some d
        → (d.ips ≡ []) ⊎ ((ip : Text) × (d.ips ≡ ip ∷ []) × (get r'.by_ip ip ≡ some q))
    alone q d h = elim (Bool-cases (q == p)) [
      | inl same ↦
          let at : q ≡ p = (==_iff q p).0 same in
          let one : d ≡ e = same_device r'.devices q p d e at h s.changed.here in
          elim (Option-cases (nth r.devices p)) [
            | inl absent ↦ inl (ap (λ x. x.ips) one ∙ s.no_ips absent)
            | inr (d0, there) ↦ elim (ok.alone p d0 there) [
              | inl no_address ↦ inl (ap (λ x. x.ips) one ∙ s.same_ips d0 there ∙ no_address)
              | inr (ip, owns, found) ↦ inr (
                ip,
                ap (λ x. x.ips) one ∙ s.same_ips d0 there ∙ owns,
                index ip ∙ found ∙ ap some (sym at),
              )
            ]
          ]
      | inr other ↦ elim (ok.alone q d (s.changed.back q d (not_same q p other) h)) [
        | inl no_address ↦ inl no_address
        | inr (ip, owns, found) ↦ inr (ip, owns, index ip ∙ found)
      ]
    ]

upsert_new-Quiet :
    (r : Registry) (m hostname source : Text)
    → Quiet r
        (upsert_new r m [] hostname source).1
        (observe (new_device m) m [] hostname source)
        (length r.devices)
unfolding upsert_new indexed
upsert_new-Quiet r m hostname source =
    let e = observe (new_device m) m [] hostname source in
    record {
      changed = append-Changed r.devices e;
      by_ip_same = refl;
      same_ips = λ d h. absurd (at_end (nth-length r.devices (length r.devices) d h));
      no_ips = λ h. observe_no_ip (new_device m) m hostname source;
    }
  where
    at_end : {n : ℕ} → ¬ (n < n)
    at_end h = omega (arith, h)

upsert_known-Quiet :
    (r : Registry) (m hostname source : Text) (p : ℕ) (d : Device)
    → nth r.devices p ≡ some d
    → Quiet r (upsert_known r m [] hostname source p (some d)).1 (observe d m [] hostname source) p
unfolding upsert_known indexed
upsert_known-Quiet r m hostname source p d h = record {
  changed = put_nth-Changed r.devices p d (observe d m [] hostname source) h;
  by_ip_same = refl;
  same_ips =
      λ d' k. observe_no_ip d m hostname source ∙ ap (λ x. x.ips) (some-injective d d' (sym h ∙ k));
  no_ips = λ k. absurd (none-some (sym k ∙ h));
}
  where
    none-some : {x : Device} → none ≢ some x
    none-some h = cc

upsert_quiet :
    (r : Registry) (m hostname source : Text) (o : Option ℕ)
    → IsAddressed r
    → IsAddressed (upsert_at r m [] hostname source o).1
unfolding upsert_at
upsert_quiet r m hostname source none ok =
    Quiet-IsAddressed r _ _ (length r.devices) ok (upsert_new-Quiet r m hostname source)
upsert_quiet r m hostname source (some p) ok = elim (Option-cases (nth r.devices p)) [
  | inl absent ↦
      subst (λ o. IsAddressed (upsert_known r m [] hostname source p o).1) (sym absent) ok
  | inr (d, here) ↦
      subst (λ o. IsAddressed (upsert_known r m [] hostname source p o).1) (sym here)
        (Quiet-IsAddressed r _ _ p ok (upsert_known-Quiet r m hostname source p d here))
]

empty_text : (a : Text) → nonempty a ≡ false → a ≡ []
empty_text [] h = refl
empty_text (c ∷ a) h = cc

-- Every observation, with an address or a MAC alone, keeps the registry so that each known address
-- has a device with this one address, and each device with an address is the one of that address.
pub upsert-IsAddressed :
    (r : Registry) (mac ip hostname source : Text)
    → IsAddressed r
    → IsAddressed (upsert r mac ip hostname source).1
unfolding upsert
upsert-IsAddressed r mac ip hostname source ok =
    let m = canonical_mac mac in
    elim (Bool-cases (nonempty (strip ip))) [
      | inl full ↦
          let (p, serves) = upsert_at-Serves r m (strip ip) hostname source ok full in
          Serves-IsAddressed r _ (strip ip) _ p ok serves
      | inr blank ↦
          subst (λ a. IsAddressed (upsert_at r m a hostname source (find_device r m a)).1)
            (sym (empty_text (strip ip) blank))
            (upsert_quiet r m hostname source (find_device r m []) ok)
    ]

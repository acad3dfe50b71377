-- ===== src/Registry/Invariant.antt =====
-- Every observation keeps an address on its own device, and changes no other.
use lan_manager.Prelude.{
  ℕ, ◌≡◌, ◌≢◌, ◌<◌, refl, sym, ◌∙◌, subst, inl, inr, true, [], ◌∷◌, none, some, Text, text_eq,
  nonempty, strip, length, arith, Option-cases, get, if◌then◌else◌, nth, nth-length,
}
use lan_manager.Registry.{
  Device, new_device, Registry, canonical_mac, find_device, observe, upsert_at, upsert_new,
  upsert_known, upsert,
}
use mathlib.Core.Option.{some-injective}
use mathlib.Core.Option.{some-injective}
use lan_manager.Registry.Addresses.{
  device_of, device_at, IsAddressed, observe_owner, owner, find_device_by_ip, upsert_new-Leaves,
  upsert_known-Leaves,
}
use lan_manager.Registry.Map.{
  Changed, append-Changed, put_nth-Changed, places_differ, Serves, Serves-device_of,
}

owner_new : (r : Registry) (m a : Text) → get r.by_ip a ≡ none → owner r m a ≡ new_device m
unfolding device_of device_at
owner_new r m a h = rw h refl

owner_known :
    (r : Registry) (m a : Text) (p : ℕ) (d : Device)
    → get r.by_ip a ≡ some p
    → nth r.devices p ≡ some d
    → owner r m a ≡ d
unfolding device_of device_at
owner_known r m a p d h k = rw (h, k) refl

upsert_new-Serves :
    (r : Registry) (m a hostname source : Text)
    → nonempty a ≡ true
    → IsAddressed r
    → get r.by_ip a ≡ none
    → Serves r
        (upsert_new r m a hostname source).1
        a
        (observe (new_device m) m a hostname source)
        (length r.devices)
upsert_new-Serves r m a hostname source full ok fresh =
    let l = upsert_new-Leaves r m a hostname source full in
    let e = observe (new_device m) m a hostname source in
    record {
      changed =
          subst (λ devs. Changed r.devices devs (length r.devices) e) (sym l.devices_are)
            (append-Changed r.devices e);
      by_ip_is = l.by_ip_is;
      apart = λ j q other found.
          let (d, here, owns) = ok.known j q found in
          past_end q (length r.devices) (nth-length r.devices q d here);
      own = λ q found. absurd (none-some q (sym fresh ∙ found));
      owns = observe_owner (new_device m) m a hostname source full (inl refl);
    }
  where
    past_end : (q n : ℕ) → q < n → q ≢ n
    past_end q n h e = omega (arith, e, h)

    none-some : (q : ℕ) → none ≢ some q
    none-some q h = cc

upsert_known-Serves :
    (r : Registry) (m a hostname source : Text) (p : ℕ) (d : Device)
    → nonempty a ≡ true
    → IsAddressed r
    → get r.by_ip a ≡ some p
    → nth r.devices p ≡ some d
    → d.ips ≡ a ∷ []
    → Serves r (upsert_known r m a hostname source p (some d)).1 a (observe d m a hostname source) p
upsert_known-Serves r m a hostname source p d full ok found here owns =
    let l = upsert_known-Leaves r m a hostname source p d full in
    let e = observe d m a hostname source in
    record {
      changed =
          subst (λ devs. Changed r.devices devs p e) (sym l.devices_are)
            (put_nth-Changed r.devices p d e here);
      by_ip_is = l.by_ip_is;
      apart = λ j q other found'. λ same. places_differ r a j p q ok found found' other (sym same);
      own = λ q found'. some-injective q p (sym found' ∙ found);
      owns = observe_owner d m a hostname source full (inr owns);
    }

-- `r'` is `r` after an observation of the address `a`, and `d` was its owner.
abbrev pub Observed : Registry → Registry → Text → Text → Text → Text → Device → Type 0
Observed r r' m a hostname source d = (p : ℕ) × Serves r r' a (observe d m a hostname source) p

pub upsert_at-Serves :
    (r : Registry) (m a hostname source : Text)
    → IsAddressed r
    → nonempty a ≡ true
    → Observed r
        (upsert_at r m a hostname source (find_device r m a)).1
        m
        a
        hostname
        source
        (owner r m a)
unfolding upsert_at
upsert_at-Serves r m a hostname source ok full =
    subst (λ o. Observed r (upsert_at r m a hostname source o).1 m a hostname source (owner r m a))
      (sym (find_device_by_ip r m a full))
      (elim (Option-cases (get r.by_ip a)) [
        | inl fresh ↦
            subst
              (λ o.
                Observed r (upsert_at r m a hostname source o).1 m a hostname source (owner r m a))
              (sym fresh)
              (subst (λ d. Observed r (upsert_new r m a hostname source).1 m a hostname source d)
                (sym (owner_new r m a fresh))
                (length r.devices, upsert_new-Serves r m a hostname source full ok fresh))
        | inr (p, found) ↦
            let (d, here, owns) = ok.known a p found in
            subst
              (λ o.
                Observed r (upsert_at r m a hostname source o).1 m a hostname source (owner r m a))
              (sym found)
              (subst
                (λ o.
                  Observed r (upsert_known r m a hostname source p o).1 m a hostname source
                    (owner r m a))
                (sym here)
                (subst
                  (λ d'.
                    Observed r (upsert_known r m a hostname source p (some d)).1 m a hostname source
                      d')
                  (sym (owner_known r m a p d found here))
                  (p, upsert_known-Serves r m a hostname source p d full ok found here owns)))
      ])

-- Looking at an address with an observation of it: the device that the address had, or a new one,
-- takes what the observation adds, and every other address keeps its device as it was, also when
-- both have one MAC.
pub upsert-device_of :
    (r : Registry) (mac ip hostname source j : Text)
    → IsAddressed r
    → nonempty (strip ip) ≡ true
    → device_of (upsert r mac ip hostname source).1 j ≡ (
        if text_eq (strip ip) j
        then some (
            observe
              (owner r (canonical_mac mac) (strip ip))
              (canonical_mac mac)
              (strip ip)
              hostname
              source)
        else device_of r j)
unfolding upsert
upsert-device_of r mac ip hostname source j ok full =
    let (p, serves) = upsert_at-Serves r (canonical_mac mac) (strip ip) hostname source ok full in
    Serves-device_of r _ (strip ip) _ p j ok serves

-- ===== src/Scanner/Complete.antt =====
-- The list that a scan publishes has every address of the catalogue.
use lan_manager.Prelude.{
  ℕ, zero, suc, ◌≡◌, ◌≢◌, refl, ap, sym, ◌∙◌, ◌⊎◌, inl, inr, Bool, true, List, [], ◌∷◌, Option,
  none, some, Text, nonempty, Option-cases, arith, get, if◌then◌else◌, map, nth,
}
use mathlib.Core.Option.{some-injective}
use lan_manager.DeviceStore.{Entry, Store}
use lan_manager.Registry.{Device, Registry, empty, merge_catalog}
use lan_manager.Registry.Addresses.{IsAddressed, empty-IsAddressed}
use lan_manager.Scanner.{
  Subnet, Answers, seed_catalog, each, ping_device, ping_all, merged, apply_entry, apply_catalog,
  carry_device, carry_over, scan_fast, scan_slow, scan,
}
use lan_manager.Scanner.Presence.{Knows, in_catalogue, collect-Knows, seed_catalog-Knows}

-- Changes of every device that keep their addresses.
nth-map :
    (f : Device → Device) (devs : List Device) (i : ℕ)
    → nth (map f devs) i ≡ elim (nth devs i) [ none ↦ none | some d ↦ some (f d) ]
nth-map f [] i = refl
nth-map f (d ∷ devs) zero = refl
nth-map f (d ∷ devs) (suc i) = nth-map f devs i

none-some : {x : Device} → none ≢ some x
none-some h = cc

each-IsAddressed :
    (f : Device → Device) (r : Registry)
    → ((d : Device) → (f d).ips ≡ d.ips)
    → IsAddressed r
    → IsAddressed (each f r)
each-IsAddressed f r keeps ok = record { known = known; alone = alone }
  where
    known :
        (ip : Text) (p : ℕ)
        → get r.by_ip ip ≡ some p
        → (d : Device) × (nth (map f r.devices) p ≡ some d) × (d.ips ≡ ip ∷ [])
    known ip p h =
        let (d, here, owns) = ok.known ip p h in
        (f d, nth-map f r.devices p ∙ rw here refl, keeps d ∙ owns)

    alone :
        (p : ℕ) (d : Device)
        → nth (map f r.devices) p ≡ some d
        → (d.ips ≡ []) ⊎ ((ip : Text) × (d.ips ≡ ip ∷ []) × (get r.by_ip ip ≡ some p))
    alone p d h = elim (Option-cases (nth r.devices p)) [
      | inl absent ↦ absurd (none-some (sym (nth-map f r.devices p ∙ rw absent refl) ∙ h))
      | inr (d0, there) ↦
          let same : f d0 ≡ d =
            some-injective (f d0) d (sym (nth-map f r.devices p ∙ rw there refl) ∙ h) in
          elim (ok.alone p d0 there) [
            | inl no_address ↦ inl (ap (λ x. x.ips) (sym same) ∙ keeps d0 ∙ no_address)
            | inr (ip, owns, found) ↦ inr (ip, ap (λ x. x.ips) (sym same) ∙ keeps d0 ∙ owns, found)
          ]
    ]

each-Knows :
    (f : Device → Device) (r : Registry) (j : Text)
    → ((d : Device) → (f d).ips ≡ d.ips)
    → Knows j r
    → Knows j (each f r)
each-Knows f r j keeps h = record {
  addressed = each-IsAddressed f r keeps h.addressed;
  present = h.present;
}

merged-ips : (d : Device) (e : Option Entry) → (merged d e).ips ≡ d.ips
unfolding merged merge_catalog
merged-ips d none = refl
merged-ips d (some e) = refl

apply_entry-ips :
    (store : Store) (subnets : List Subnet) (d : Device) → (apply_entry store subnets d).ips ≡ d.ips
unfolding apply_entry
apply_entry-ips store subnets d = merged-ips d _

carry_device-ips : (o : Option Device) (d : Device) → (carry_device o d).ips ≡ d.ips
unfolding carry_device
carry_device-ips none d = refl
carry_device-ips (some old) d = refl

ping_device-ips :
    (answers : Text → Bool) (now : ℕ) (d : Device)
    → (if d.online then d else ping_device answers now d).ips ≡ d.ips
unfolding ping_device
ping_device-ips answers now d = ground arith

pub scan-Knows :
    (store : Store) (subnets : List Subnet) (a : Answers) (old : Registry) (j : Text)
    → nonempty j ≡ true
    → in_catalogue j store.devices ≡ true
    → Knows j (scan store subnets a old)
unfolding scan scan_fast scan_slow ping_all apply_catalog carry_over
scan-Knows store subnets a old j full listed =
    let seeded = seed_catalog-Knows store.devices empty j empty-IsAddressed full listed in
    let found = collect-Knows a.fast (seed_catalog store.devices empty) j seeded in
    let carried = each-Knows _ _ j (λ d. carry_device-ips _ d) found in
    let named = each-Knows _ _ j (apply_entry-ips store subnets) carried in
    let pinged = each-Knows _ _ j (ping_device-ips a.answers a.now) named in
    each-Knows _ _ j (apply_entry-ips store subnets) (collect-Knows a.slow _ j pinged)

-- ===== src/Scanner/Presence.antt =====
-- A device of the catalogue that has an address stays visible through a scan.
use lan_manager.Prelude.{
  ℕ, ◌≡◌, refl, sym, subst, inl, inr, Bool, true, false, ◌||◌, ◌++◌, List, [], ◌∷◌, Option, none,
  some, Text, lit, text_eq, text_eq_iff, text_eq_refl, nonempty, strip, length, Bool-cases, Dict,
  get, put, get-put, or_else, nth, put_nth, is_some,
}
use lan_manager.DeviceStore.{Entry}
use lan_manager.Registry.{
  Device, Registry, upsert, upsert_at, upsert_new, upsert_known, indexed, observe, new_device,
  canonical_mac,
}
use lan_manager.Registry.Addresses.{IsAddressed, get_same}
use lan_manager.Registry.Invariant.{upsert_at-Serves}
use lan_manager.Registry.Quiet.{upsert-IsAddressed}
use lan_manager.Scanner.{Seen, collect, seed_entry, seed_catalog}

-- The registry is sound and knows the address `j`.
pub record Knows (j : Text) (r : Registry) : Type 0 where
  pub addressed : IsAddressed r
  pub present : is_some (get r.by_ip j) ≡ true

put_present :
    (d : Dict ℕ) (k j : Text) (p : ℕ)
    → is_some (get d j) ≡ true
    → is_some (get (put d k p) j) ≡ true
put_present d k j p h = elim (Bool-cases (text_eq k j)) [
  | inl same ↦ rw (get-put d k j p, same) refl
  | inr other ↦ rw (get-put d k j p, other) h
]

indexed_present :
    (r : Registry) (m a j : Text) (p : ℕ)
    → is_some (get r.by_ip j) ≡ true
    → is_some (get (indexed r m a p).by_ip j) ≡ true
unfolding indexed
indexed_present r m a j p h = elim (Bool-cases (nonempty a)) [
  | inl full ↦ rw full (put_present r.by_ip a j p h)
  | inr blank ↦ rw blank h
]

upsert_at_present :
    (r : Registry) (m a hostname source j : Text) (o : Option ℕ)
    → is_some (get r.by_ip j) ≡ true
    → is_some (get (upsert_at r m a hostname source o).1.by_ip j) ≡ true
unfolding upsert_at upsert_new upsert_known
upsert_at_present r m a hostname source j none h =
    indexed_present
      (record r { devices = r.devices ++ observe (new_device m) m a hostname source ∷ [] }) m a j
      (length r.devices) h
upsert_at_present r m a hostname source j (some p) h = known (nth r.devices p)
  where
    known :
        (o : Option Device)
        → is_some (get (upsert_known r m a hostname source p o).1.by_ip j) ≡ true
    known none = h
    known (some d) =
        indexed_present (record r { devices = put_nth r.devices p (observe d m a hostname source) })
          m a j p h

upsert-Knows :
    (r : Registry) (mac ip hostname source j : Text)
    → Knows j r
    → Knows j (upsert r mac ip hostname source).1
unfolding upsert
upsert-Knows r mac ip hostname source j h = record {
  addressed = upsert-IsAddressed r mac ip hostname source h.addressed;
  present = upsert_at_present r (canonical_mac mac) (strip ip) hostname source j _ h.present;
}

pub collect-Knows :
    (seen : List (Text × Seen)) (r : Registry) (j : Text) → Knows j r → Knows j (collect seen r)
unfolding collect
collect-Knows [] r j h = h
collect-Knows ((source, o) ∷ seen) r j h =
    collect-Knows seen _ j (upsert-Knows r o.mac o.ip o.hostname source j h)

upsert_own :
    (r : Registry) (mac ip hostname source : Text)
    → IsAddressed r
    → nonempty (strip ip) ≡ true
    → Knows (strip ip) (upsert r mac ip hostname source).1
unfolding upsert
upsert_own r mac ip hostname source ok full =
    let (p, serves) = upsert_at-Serves r (canonical_mac mac) (strip ip) hostname source ok full in
    record {
      addressed = upsert-IsAddressed r mac ip hostname source ok;
      present =
          rw (serves.by_ip_is, get_same r.by_ip (strip ip) (strip ip) p (text_eq_refl (strip ip)))
            refl;
    }

-- The catalogue.
abbrev pub ip_of_entry : Entry → Text
ip_of_entry e = strip (or_else e.ip [])

unfoldable pub in_catalogue : Text → List Entry → Bool
in_catalogue j [] = false
in_catalogue j (e ∷ entries) = text_eq (ip_of_entry e) j || in_catalogue j entries

seed_entry-IsAddressed : (r : Registry) (e : Entry) → IsAddressed r → IsAddressed (seed_entry r e)
unfolding seed_entry
seed_entry-IsAddressed r e h =
    elim (Bool-cases (nonempty (or_else e.mac []) || nonempty (or_else e.ip []))) [
      | inl some_id ↦
          rw some_id
            (upsert-IsAddressed r (or_else e.mac []) (or_else e.ip []) [] (lit "catalogo") h)
      | inr no_id ↦ rw no_id h
    ]

seed_entry-Knows : (r : Registry) (e : Entry) (j : Text) → Knows j r → Knows j (seed_entry r e)
unfolding seed_entry
seed_entry-Knows r e j h =
    elim (Bool-cases (nonempty (or_else e.mac []) || nonempty (or_else e.ip []))) [
      | inl some_id ↦
          rw some_id (upsert-Knows r (or_else e.mac []) (or_else e.ip []) [] (lit "catalogo") j h)
      | inr no_id ↦ rw no_id h
    ]

strip_full : (s : Text) → nonempty (strip s) ≡ true → nonempty s ≡ true
unfolding strip
strip_full [] h = h
strip_full (c ∷ s) h = refl

or_true : (a : Bool) → (a || true) ≡ true
or_true true = refl
or_true false = refl

seed_entry_own :
    (r : Registry) (e : Entry)
    → IsAddressed r
    → nonempty (ip_of_entry e) ≡ true
    → Knows (ip_of_entry e) (seed_entry r e)
unfolding seed_entry
seed_entry_own r e h full =
    rw (strip_full (or_else e.ip []) full, or_true (nonempty (or_else e.mac [])))
      (upsert_own r (or_else e.mac []) (or_else e.ip []) [] (lit "catalogo") h full)

seed_catalog-Knows_kept :
    (entries : List Entry) (r : Registry) (j : Text) → Knows j r → Knows j (seed_catalog entries r)
unfolding seed_catalog
seed_catalog-Knows_kept [] r j h = h
seed_catalog-Knows_kept (e ∷ entries) r j h =
    seed_catalog-Knows_kept entries _ j (seed_entry-Knows r e j h)

pub seed_catalog-Knows :
    (entries : List Entry) (r : Registry) (j : Text)
    → IsAddressed r
    → nonempty j ≡ true
    → in_catalogue j entries ≡ true
    → Knows j (seed_catalog entries r)
unfolding seed_catalog in_catalogue
seed_catalog-Knows [] r j ok full h = absurd (cc h)
seed_catalog-Knows (e ∷ entries) r j ok full h = elim (Bool-cases (text_eq (ip_of_entry e) j)) [
  | inl same ↦
      let eq = (text_eq_iff (ip_of_entry e) j).0 same in
      seed_catalog-Knows_kept entries (seed_entry r e) j (
        subst (λ k. Knows k (seed_entry r e)) eq
          (seed_entry_own r e ok (subst (λ k. nonempty k ≡ true) (sym eq) full)))
  | inr other ↦
      seed_catalog-Knows entries (seed_entry r e) j (seed_entry-IsAddressed r e ok) full
        (subst (λ b. (b || in_catalogue j entries) ≡ true) other h)
]

-- ===== src/Scanner.antt =====
-- `DeviceScanner` of backend/services/scanner.py. What the router, the providers and the pings
-- answer are arguments: observations are lists, which a failing source cuts short.

pub mod Presence
pub mod Complete
pub mod Visible
mod Tests
use lan_manager.Prelude.{
  ℕ, Bool, true, false, not, ◌&&◌, ◌||◌, List, [], ◌∷◌, ◌++◌, Option, none, some, Text, lit,
  nonempty, upper, strip, any, if◌then◌else◌, Dict, get, is_some, or_else, map, nth,
}
use lan_manager.Python.Ip.{ip_address, ip_network, is_in}
use lan_manager.DeviceStore.{Entry, Store, hidden_set}
use lan_manager.DeviceStore.Catalog.{catalog_by_mac, catalog_by_ip}
use lan_manager.Registry.{
  Device, Registry, empty, upsert, find_by_ip, merge_catalog, is_in_texts, all,
}

pub record Subnet : Type 0 where
  pub cidr : Text
  pub label : Text

-- The label of the first subnet that an address lies in; an invalid subnet is passed over.
unfoldable pub label_of : List Subnet → Text → Option Text
unfolding ip_address ip_network is_in
label_of [] ip = none
label_of (sn ∷ subnets) ip =
    let rest = label_of subnets ip in
    elim (ip_address ip) [
      | none ↦ none
      | some addr ↦ elim (ip_network sn.cidr) [
        | none ↦ rest
        | some net ↦ if is_in addr net then some sn.label else rest
      ]
    ]

-- `_subnet_label`
unfoldable pub subnet_label : List Subnet → List Text → Text
unfolding label_of
subnet_label subnets [] = []
subnet_label subnets (ip ∷ ips) = or_else (label_of subnets ip) (subnet_label subnets ips)

-- One observation of a source.
pub record Seen : Type 0 where
  pub mac : Text
  pub ip : Text
  pub hostname : Text

-- Observations in the order of their arrival, each with the name of its source. The sources of one
-- stage run together, so that theirs may alternate.
unfoldable pub collect : List (Text × Seen) → Registry → Registry
unfolding upsert
collect [] r = r
collect ((source, o) ∷ seen) r = collect seen (upsert r o.mac o.ip o.hostname source).1

-- `_seed_catalog`
unfoldable pub seed_entry : Registry → Entry → Registry
unfolding upsert
seed_entry r e =
    let mac = or_else e.mac [] in
    let ip = or_else e.ip [] in
    if nonempty mac || nonempty ip then (upsert r mac ip [] (lit "catalogo")).1 else r

unfoldable pub seed_catalog : List Entry → Registry → Registry
unfolding seed_entry
seed_catalog [] r = r
seed_catalog (e ∷ entries) r = seed_catalog entries (seed_entry r e)

-- A change of every device of the registry.
abbrev pub each : (Device → Device) → Registry → Registry
each f r = record r { devices = map f r.devices }

-- `_ping_device`, where `answers` says which addresses answer
unfoldable pub ping_device : (Text → Bool) → ℕ → Device → Device
unfolding any
ping_device answers now d =
    if any answers d.ips
    then record d { online = true; last_seen = now }
    else record d { online = false }

-- `_ping_all`: a device that is online already is not asked.
unfoldable pub ping_all : (Text → Bool) → ℕ → Registry → Registry
unfolding ping_device
ping_all answers now = each (λ d. if d.online then d else ping_device answers now d)

-- The first address that has an entry.
unfoldable pub entry_by_ip : Dict Entry → List Text → Option Entry
unfolding get
entry_by_ip by_ip [] = none
entry_by_ip by_ip (ip ∷ ips) =
    let rest = entry_by_ip by_ip ips in elim (get by_ip ip) [ some e ↦ some e | none ↦ rest ]

-- The entry of a device: by its addresses, and by its MAC only if it has none.
unfoldable pub entry_of : Dict Entry → Dict Entry → Device → Option Entry
unfolding entry_by_ip upper
entry_of by_mac by_ip d = elim (entry_by_ip by_ip d.ips) [
  | some e ↦ some e
  | none ↦ if nonempty d.mac && not (nonempty d.ips) then get by_mac (upper d.mac) else none
]

unfoldable pub merged : Device → Option Entry → Device
unfolding merge_catalog
merged d none = d
merged d (some e) = merge_catalog d e.fields

unfoldable pub is_hidden : List Text → Device → Bool
unfolding is_in_texts any upper
is_hidden hidden d =
    if nonempty d.ips
    then any (λ ip. is_in_texts ip hidden) d.ips
    else is_in_texts (upper d.mac) hidden

-- `_apply_catalog`, on one device
unfoldable pub apply_entry : Store → List Subnet → Device → Device
unfolding entry_of merged is_hidden subnet_label catalog_by_mac catalog_by_ip
apply_entry store subnets d =
    let e = entry_of (catalog_by_mac store) (catalog_by_ip store) d in
    record (merged d e) {
      hidden = is_hidden (hidden_set store) d;
      subnet = subnet_label subnets d.ips;
    }

unfoldable pub apply_catalog : Store → List Subnet → Registry → Registry
unfolding apply_entry
apply_catalog store subnets = each (apply_entry store subnets)

-- The device that the registry before had at the first of the addresses that it knew.
unfoldable pub precedente : Registry → List Text → Option Device
unfolding find_by_ip
precedente old [] = none
precedente old (ip ∷ ips) =
    let rest = precedente old ips in
    elim (find_by_ip old ip) [ none ↦ rest | some p ↦ nth old.devices p ]

-- `if not a and b`: what is known stays.
abbrev pub kept {ℓ} : {A : Type ℓ} → List A → List A → List A
kept [] b = b
kept (c ∷ a) b = c ∷ a

unfoldable pub carry_device : Option Device → Device → Device
carry_device none d = d
carry_device (some old) d = record d {
  hostname = kept d.hostname old.hostname;
  vendor = kept d.vendor old.vendor;
  os_guess = kept d.os_guess old.os_guess;
  open_ports = kept d.open_ports old.open_ports;
  snmp = kept d.snmp old.snmp;
}

-- `_carry_over`
unfoldable pub carry_over : Registry → Registry → Registry
unfolding precedente carry_device
carry_over old = each (λ d. carry_device (precedente old d.ips) d)

-- What the sources of one scan answer: the fast ones (leases, ARP table, providers), the slow ones,
-- and which addresses answer a ping.
pub record Answers : Type 0 where
  pub fast : List (Text × Seen)
  pub slow : List (Text × Seen)
  pub answers : Text → Bool
  pub now : ℕ

-- `_scan` up to the first publication: `old` is the registry before.
unfoldable pub scan_fast : Store → List Subnet → Answers → Registry → Registry
unfolding seed_catalog collect carry_over apply_catalog ping_all
scan_fast store subnets a old =
    let found = collect a.fast (seed_catalog store.devices empty) in
    ping_all a.answers a.now (apply_catalog store subnets (carry_over old found))

unfoldable pub scan_slow : Store → List Subnet → Answers → Registry → Registry
unfolding collect apply_catalog
scan_slow store subnets a r = apply_catalog store subnets (collect a.slow r)

-- `_scan`
unfoldable pub scan : Store → List Subnet → Answers → Registry → Registry
unfolding scan_fast scan_slow
scan store subnets a old = scan_slow store subnets a (scan_fast store subnets a old)

-- `refresh_catalog`, on the store as it is read again
unfoldable pub refresh_catalog : Store → List Subnet → Registry → Registry
unfolding seed_catalog apply_catalog
refresh_catalog store subnets r = apply_catalog store subnets (seed_catalog store.devices r)

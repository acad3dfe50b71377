-- ===== src/Snmp/Unique.antt =====
-- `build_topology` of backend/services/snmp.py gives no device two links.
use lan_manager.Prelude.{
  ℕ, ◌≡◌, refl, sym, ◌==◌, upper, Bool, true, false, not, ◌&&◌, ◌||◌, List, [], ◌∷◌, map, Text,
  text_eq, text_eq_iff, text_eq_refl, text_eq_comm, text_before, Dict, get, put, any, is_some,
  arith, Bool-cases, Option-cases, inl, inr, sort_by, insert_by, unique_keys, unique_keys-put,
  or_else,
}
use lan_manager.Snmp.{
  Host, Device, Neighbour, Index, Link, Found, drop_rings, build_topology, all_links, link_before,
  setdefault, lldp_link, fdb_link, port_counts, empty_index, index_devices, lldp_links, lldp_hosts,
  neighbour_device, add_candidates, fdb_links, fdb_hosts, FdbEntry,
}

abbrev has_device : Text → List Link → Bool
has_device k ls = any (λ l. text_eq k l.device) ls

-- No device stands twice.
unfoldable pub unique_devices : List Link → Bool
unique_devices [] = true
unique_devices (l ∷ ls) = not (has_device l.device ls) && unique_devices ls

-- Every link stands under its device, and no device twice.
unfoldable keyed : Dict Link → Bool
keyed [] = true
keyed ((k, l) ∷ d) = text_eq k l.device && keyed d

keyed-put : (d : Dict Link) (l : Link) → keyed d ≡ true → keyed (put d l.device l) ≡ true
unfolding keyed put
keyed-put [] l h = ground (arith, text_eq_refl l.device)
keyed-put ((k, m) ∷ d) l h =
    ground (arith, keyed-put d l, text_eq_refl l.device, text_eq_iff k l.device)

-- What the steps keep of the links.
abbrev good : Dict Link → Bool
good d = keyed d && unique_keys d

good-setdefault :
    (d : Dict Link) (k : Text) (l : Link)
    → l.device ≡ k
    → good d ≡ true
    → good (setdefault d k l) ≡ true
unfolding setdefault
good-setdefault d k l e h = rw (sym e) (ground (arith, keyed-put d l, unique_keys-put d l.device l))

good-lldp_link :
    (snmp_ips : List Text) (ix : Index) (ip : Text) (via : ℕ × Device) (n : Neighbour)
    (found : Found)
    → good found.links ≡ true
    → good (lldp_link snmp_ips ix ip via n found).links ≡ true
unfolding lldp_link
good-lldp_link snmp_ips ix ip via n found h = elim (Option-cases (neighbour_device ix n)) [
  | inl e ↦ rw (e, lldp_link) h
  | inr ((i, dev), e) ↦ elim (Bool-cases (i == via.0)) [
    | inl same ↦ rw (e, lldp_link, same) h
    | inr other ↦ rw (e, lldp_link, other) (good-setdefault found.links dev.key _ refl h)
  ]
]

good-lldp_links :
    (snmp_ips : List Text) (ix : Index) (ip : Text) (via : ℕ × Device) (ns : List Neighbour)
    (found : Found)
    → good found.links ≡ true
    → good (lldp_links snmp_ips ix ip via ns found).links ≡ true
unfolding lldp_links
good-lldp_links snmp_ips ix ip via [] found h = h
good-lldp_links snmp_ips ix ip via (n ∷ ns) found h =
    good-lldp_links snmp_ips ix ip via ns (lldp_link snmp_ips ix ip via n found)
      (good-lldp_link snmp_ips ix ip via n found h)

good-lldp_hosts :
    (snmp_ips : List Text) (ix : Index) (hs : List Host) (found : Found)
    → good found.links ≡ true
    → good (lldp_hosts snmp_ips ix hs found).links ≡ true
unfolding lldp_hosts
good-lldp_hosts snmp_ips ix [] found h = h
good-lldp_hosts snmp_ips ix (x ∷ hs) found h = elim (Option-cases (get ix.by_ip x.ip)) [
  | inl e ↦ rw (e, lldp_hosts) (good-lldp_hosts snmp_ips ix hs found h)
  | inr (via, e) ↦
      rw (e, lldp_hosts)
        (good-lldp_hosts snmp_ips ix hs (lldp_links snmp_ips ix x.ip via x.lldp found)
          (good-lldp_links snmp_ips ix x.ip via x.lldp found h))
]

-- Every candidate stands under its device.
unfoldable named : Dict (ℕ × Link) → Bool
named [] = true
named ((k, c) ∷ d) = text_eq k c.1.device && named d

named-put :
    (d : Dict (ℕ × Link)) (n : ℕ) (l : Link) → named d ≡ true → named (put d l.device (n, l)) ≡ true
unfolding named put
named-put [] n l h = ground (arith, text_eq_refl l.device)
named-put ((k, c) ∷ d) n l h =
    ground (arith, named-put d n l, text_eq_refl l.device, text_eq_iff k l.device)

named-fdb_link :
    (found : Found) (ix : Index) (ip : Text) (via : ℕ × Device) (conta : Dict ℕ) (e : FdbEntry)
    (d : Dict (ℕ × Link))
    → named d ≡ true
    → named (fdb_link found ix ip via conta e d) ≡ true
unfolding fdb_link
named-fdb_link found ix ip via conta e d h = elim (Option-cases (get ix.by_mac (upper e.mac))) [
  | inl absent ↦ ground arith
  | inr ((i, dev), is) ↦
      let n = or_else (get conta e.port) 0 in
      let l : Link = record { device = dev.key; via = via.1.key; port = e.port; is_lldp = false } in
      ground (arith, named-put d n l h)
]

named-fdb_links :
    (found : Found) (ix : Index) (ip : Text) (via : ℕ × Device) (conta : Dict ℕ)
    (es : List FdbEntry) (d : Dict (ℕ × Link))
    → named d ≡ true
    → named (fdb_links found ix ip via conta es d) ≡ true
unfolding fdb_links
named-fdb_links found ix ip via conta [] d h = h
named-fdb_links found ix ip via conta (e ∷ es) d h =
    named-fdb_links found ix ip via conta es (fdb_link found ix ip via conta e d)
      (named-fdb_link found ix ip via conta e d h)

named-fdb_hosts :
    (found : Found) (ix : Index) (hs : List Host) (d : Dict (ℕ × Link))
    → named d ≡ true
    → named (fdb_hosts found ix hs d) ≡ true
unfolding fdb_hosts
named-fdb_hosts found ix [] d h = h
named-fdb_hosts found ix (x ∷ hs) d h = elim (Option-cases (get ix.by_ip x.ip)) [
  | inl e ↦ rw e (named-fdb_hosts found ix hs d h)
  | inr (via, e) ↦ rw e (
      named-fdb_hosts found ix hs (fdb_links found ix x.ip via (port_counts x.fdb []) x.fdb d)
        (named-fdb_links found ix x.ip via (port_counts x.fdb []) x.fdb d h))
]

abbrev key_before : Text × (ℕ × Link) → Text × (ℕ × Link) → Bool
key_before a b = text_before a.0 b.0

named-insert_by :
    (c : Text × (ℕ × Link)) (d : Dict (ℕ × Link))
    → text_eq c.0 c.1.1.device ≡ true
    → named d ≡ true
    → named (insert_by key_before c d) ≡ true
unfolding named insert_by
named-insert_by c [] e h = ground arith
named-insert_by c (x ∷ d) e h = ground (arith, named-insert_by c d)

named-sort_by : (d : Dict (ℕ × Link)) → named d ≡ true → named (sort_by key_before d) ≡ true
unfolding named sort_by
named-sort_by [] h = refl
named-sort_by (x ∷ d) h =
    named-insert_by x (sort_by key_before d) (ground arith) (named-sort_by d (ground arith))

good-add_candidates :
    (cs : Dict (ℕ × Link)) (d : Dict Link)
    → named cs ≡ true
    → good d ≡ true
    → good (add_candidates cs d) ≡ true
unfolding add_candidates named
good-add_candidates [] d n h = h
good-add_candidates ((k, c) ∷ cs) d n h =
    good-add_candidates cs (setdefault d k c.1) (ground arith)
      (good-setdefault d k c.1 (sym ((text_eq_iff k c.1.device).0 (ground arith))) h)

has_device-values :
    (d : Dict Link) (k : Text)
    → keyed d ≡ true
    → has_device k (map (λ e. e.1) d) ≡ is_some (get d k)
unfolding keyed any get
has_device-values [] k h = refl
has_device-values ((j, l) ∷ d) k h =
    ground (
      arith,
      has_device-values d k,
      text_eq_iff j l.device,
      text_eq_iff j k,
      text_eq_iff k l.device,
    )

unique_devices-values : (d : Dict Link) → good d ≡ true → unique_devices (map (λ e. e.1) d) ≡ true
unfolding keyed unique_devices unique_keys
unique_devices-values [] h = refl
unique_devices-values ((k, l) ∷ d) h =
    ground (arith, unique_devices-values d, has_device-values d l.device, text_eq_iff k l.device)

has_device-insert_by :
    (k : Text) (l : Link) (ls : List Link)
    → has_device k (insert_by link_before l ls) ≡ (text_eq k l.device || has_device k ls)
unfolding insert_by any
has_device-insert_by k l [] = refl
has_device-insert_by k l (m ∷ ls) = ground (arith, has_device-insert_by k l ls)

unique_devices-insert_by :
    (l : Link) (ls : List Link)
    → has_device l.device ls ≡ false
    → unique_devices ls ≡ true
    → unique_devices (insert_by link_before l ls) ≡ true
unfolding insert_by unique_devices any
unique_devices-insert_by l [] n h = refl
unique_devices-insert_by l (m ∷ ls) n h = ground (
  arith,
  unique_devices-insert_by l ls,
  has_device-insert_by m.device l ls,
  text_eq_comm l.device m.device,
)

has_device-sort_by :
    (k : Text) (ls : List Link) → has_device k (sort_by link_before ls) ≡ has_device k ls
unfolding sort_by any
has_device-sort_by k [] = refl
has_device-sort_by k (l ∷ ls) =
    ground (arith, has_device-insert_by k l (sort_by link_before ls), has_device-sort_by k ls)

unique_devices-sort_by :
    (ls : List Link) → unique_devices ls ≡ true → unique_devices (sort_by link_before ls) ≡ true
unfolding sort_by unique_devices
unique_devices-sort_by [] h = refl
unique_devices-sort_by (l ∷ ls) h =
    unique_devices-insert_by l (sort_by link_before ls)
      (ground (arith, has_device-sort_by l.device ls)) (unique_devices-sort_by ls (ground arith))

has_device-drop_rings :
    (k : Text) (ls : List Link) (padre : Dict Text)
    → has_device k ls ≡ false
    → has_device k (drop_rings ls padre) ≡ false
unfolding drop_rings any
has_device-drop_rings k [] padre h = refl
has_device-drop_rings k (l ∷ ls) padre h =
    ground (
      arith,
      has_device-drop_rings k ls padre,
      has_device-drop_rings k ls (put padre l.device l.via),
    )

unique_devices-drop_rings :
    (ls : List Link) (padre : Dict Text)
    → unique_devices ls ≡ true
    → unique_devices (drop_rings ls padre) ≡ true
unfolding drop_rings unique_devices
unique_devices-drop_rings [] padre h = refl
unique_devices-drop_rings (l ∷ ls) padre h = ground (
  arith,
  unique_devices-drop_rings ls padre,
  unique_devices-drop_rings ls (put padre l.device l.via),
  has_device-drop_rings l.device ls (put padre l.device l.via),
)

unique_devices-all_links :
    (hosts : List Host) (devices : List Device) → unique_devices (all_links hosts devices) ≡ true
unfolding all_links keyed unique_keys named
unique_devices-all_links hosts devices =
    let ix = index_devices 0 devices empty_index in
    let found =
      lldp_hosts (map (λ h. h.ip) hosts) ix (sort_by (λ a b. text_before a.ip b.ip) hosts)
        (record { links = []; uplink = [] }) in
    unique_devices-values
      (add_candidates (sort_by key_before (fdb_hosts found ix hosts [])) found.links)
      (good-add_candidates (sort_by key_before (fdb_hosts found ix hosts [])) found.links
        (named-sort_by (fdb_hosts found ix hosts []) (named-fdb_hosts found ix hosts [] refl))
        (good-lldp_hosts (map (λ h. h.ip) hosts) ix (sort_by (λ a b. text_before a.ip b.ip) hosts)
          (record { links = []; uplink = [] }) refl))

-- `build_topology` answers at most one link for each device.
pub build_topology-unique_devices :
    (hosts : List Host) (devices : List Device)
    → unique_devices (build_topology hosts devices) ≡ true
unfolding build_topology
build_topology-unique_devices hosts devices =
    unique_devices-drop_rings (sort_by link_before (all_links hosts devices)) []
      (unique_devices-sort_by (all_links hosts devices) (unique_devices-all_links hosts devices))

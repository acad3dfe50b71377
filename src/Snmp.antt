-- ===== src/Snmp.antt =====
-- backend/services/snmp.py: the bandwidth from two readings of a counter (`rate_bps`) and the links
-- between devices and the switches that they hang on (`build_topology`). Times are counts of
-- nanoseconds; a rate is the pair of bits and nanoseconds whose quotient the source rounds.
pub mod Wrap
pub mod Ends
pub mod Forest
pub mod Unique
pub mod Profile
pub mod Poll
mod Tests
use lan_manager.Prelude.{
  ℕ, zero, suc, ◌+◌, ◌-◌, ◌*◌, ◌^◌, Bool, true, false, not, ◌&&◌, ◌||◌, List, [], ◌∷◌, ◌++◌, map,
  Option, none, some, Text, lit, text_eq, text_before, nonempty, or_text, strip, lower, upper, Dict,
  get, put, any, length, is_some, ltb, leb, ◌==◌, if◌then◌else◌, or_else, sort_by,
}
use lan_manager.Python.Split.{split_parts}

-- A reading of a counter: what `rate_bps` reads of a dictionary.
pub record Reading : Type 0 where
  pub octets : Option ℕ
  pub t : ℕ
  pub uptime_s : Option ℕ
  pub bits : ℕ

-- How many values a counter of 32 bits has.
abbrev pub c32 : ℕ
c32 = 2 ^ 32

-- The device was restarted between the readings.
unfoldable pub restarted : Option ℕ → Option ℕ → Bool
restarted (some pu) (some cu) = ltb cu pu
restarted (some pu) none = false
restarted none cu = false

-- The octets between two counts, with one turn of a counter of 32 bits.
unfoldable pub octets_between : ℕ → ℕ → Bool → Option ℕ
octets_between p c wraps =
    if leb p c
    then some (c - p)
    else if not wraps
    then none
    else if ltb (c + c32) p
    then none
    else some (c + c32 - p)

-- The rate as bits and nanoseconds.
unfoldable pub rate_bps : Option Reading → Reading → Option (ℕ × ℕ)
unfolding restarted octets_between
rate_bps none cur = none
rate_bps (some prev) cur = elim prev.octets [
  | none ↦ none
  | some p ↦ elim cur.octets [
    | none ↦ none
    | some c ↦
        if leb cur.t prev.t || restarted prev.uptime_s cur.uptime_s
        then none
        else elim (octets_between p c (cur.bits == 32 && prev.bits == 32)) [
          | none ↦ none
          | some delta ↦ some (delta * 8, cur.t - prev.t)
        ]
  ]
]

pub record Device : Type 0 where
  pub key : Text
  pub mac : Text
  pub ips : List Text
  pub hostname : Text
  pub name : Text

pub record Neighbour : Type 0 where
  pub chassis : Text
  pub sys_name : Text
  pub local_port : Text

pub record FdbEntry : Type 0 where
  pub mac : Text
  pub port : Text

pub record Host : Type 0 where
  pub ip : Text
  pub lldp : List Neighbour
  pub fdb : List FdbEntry

pub record Link : Type 0 where
  pub device : Text
  pub via : Text
  pub port : Text
  -- `source` is "lldp", or else "fdb".
  pub is_lldp : Bool

unfoldable pub nome_corto : Text → Text
unfolding split_parts
nome_corto s = lower (strip (split_parts b'.' s).0)

-- `d.setdefault(k, v)`
unfoldable pub setdefault {ℓ} : {V : Type ℓ} → Dict V → Text → V → Dict V
setdefault d k v = if is_some (get d k) then d else put d k v

-- The devices by MAC, IP and short name; a device is known by its place in the list.
pub record Index : Type 0 where
  pub by_mac : Dict (ℕ × Device)
  pub by_ip : Dict (ℕ × Device)
  pub by_name : Dict (ℕ × Device)

unfoldable pub index_all :
    (Text → Text) → List Text → ℕ × Device → Dict (ℕ × Device) → Dict (ℕ × Device)
unfolding setdefault
index_all norm [] d dict = dict
index_all norm (k ∷ ks) d dict = index_all norm ks d (setdefault dict (norm k) d)

abbrev pub filled : Text → List Text
filled [] = []
filled (c ∷ s) = (c ∷ s) ∷ []

unfoldable pub index_device : ℕ × Device → Index → Index
unfolding index_all nome_corto
index_device (i, d) ix = record {
  by_mac = index_all upper (filled d.mac) (i, d) ix.by_mac;
  by_ip = index_all (λ ip. ip) d.ips (i, d) ix.by_ip;
  by_name = index_all nome_corto (filled d.hostname ++ filled d.name) (i, d) ix.by_name;
}

unfoldable pub index_devices : ℕ → List Device → Index → Index
unfolding index_device
index_devices i [] ix = ix
index_devices i (d ∷ ds) ix = index_devices (i + 1) ds (index_device (i, d) ix)

abbrev pub empty_index : Index
empty_index = record { by_mac = []; by_ip = []; by_name = [] }

-- The links by device, and the ports that lead to another SNMP host.
pub record Found : Type 0 where
  pub links : Dict Link
  pub uplink : List (Text × Text)

-- `by_mac.get(…) or by_name.get(…)`
unfoldable pub neighbour_device : Index → Neighbour → Option (ℕ × Device)
neighbour_device ix n = elim (get ix.by_mac (upper n.chassis)) [
  | some d ↦ some d
  | none ↦ get ix.by_name (nome_corto n.sys_name)
]

-- The body of the loop over the neighbours of a host.
unfoldable pub lldp_link : List Text → Index → Text → ℕ × Device → Neighbour → Found → Found
lldp_link snmp_ips ix ip (v, via) n found = elim (neighbour_device ix n) [
  | none ↦ found
  | some (i, dev) ↦ if i == v then found else record {
    uplink =
        if any (λ a. any (text_eq a) snmp_ips) dev.ips
        then (ip, n.local_port) ∷ found.uplink
        else found.uplink;
    links =
        setdefault found.links dev.key
          (record { device = dev.key; via = via.key; port = n.local_port; is_lldp = true });
  }
]

unfoldable pub lldp_links : List Text → Index → Text → ℕ × Device → List Neighbour → Found → Found
lldp_links snmp_ips ix ip via [] found = found
lldp_links snmp_ips ix ip via (n ∷ ns) found =
    lldp_links snmp_ips ix ip via ns (lldp_link snmp_ips ix ip via n found)

unfoldable pub lldp_hosts : List Text → Index → List Host → Found → Found
lldp_hosts snmp_ips ix [] found = found
lldp_hosts snmp_ips ix (h ∷ hs) found = lldp_hosts snmp_ips ix hs (elim (get ix.by_ip h.ip) [
  | none ↦ found
  | some via ↦ lldp_links snmp_ips ix h.ip via h.lldp found
])

-- `conta`
unfoldable pub port_counts : List FdbEntry → Dict ℕ → Dict ℕ
port_counts [] conta = conta
port_counts (e ∷ es) conta = port_counts es (put conta e.port (or_else (get conta e.port) 0 + 1))

-- `n < candidati[k][0]`, or no candidate yet.
abbrev pub is_nearer : ℕ → Option (ℕ × Link) → Bool
is_nearer n none = true
is_nearer n (some (m, l)) = ltb n m

-- The body of the loop over the learnt addresses of a host.
unfoldable pub fdb_link :
    Found → Index → Text → ℕ × Device → Dict ℕ → FdbEntry → Dict (ℕ × Link) → Dict (ℕ × Link)
fdb_link found ix ip (v, via) conta e candidati =
    if any (λ p. text_eq p.0 ip && text_eq p.1 e.port) found.uplink
    then candidati
    else elim (get ix.by_mac (upper e.mac)) [
      | none ↦ candidati
      | some (i, dev) ↦
          let n = or_else (get conta e.port) 0 in
          if i == v || is_some (get found.links dev.key)
          then candidati
          else if is_nearer n (get candidati dev.key)
          then put candidati dev.key
              (n, record { device = dev.key; via = via.key; port = e.port; is_lldp = false })
          else candidati
    ]

unfoldable pub fdb_links :
    Found → Index → Text → ℕ × Device → Dict ℕ → List FdbEntry → Dict (ℕ × Link) → Dict (ℕ × Link)
fdb_links found ix ip via conta [] candidati = candidati
fdb_links found ix ip via conta (e ∷ es) candidati =
    fdb_links found ix ip via conta es (fdb_link found ix ip via conta e candidati)

unfoldable pub fdb_hosts : Found → Index → List Host → Dict (ℕ × Link) → Dict (ℕ × Link)
fdb_hosts found ix [] candidati = candidati
fdb_hosts found ix (h ∷ hs) candidati = fdb_hosts found ix hs (elim (get ix.by_ip h.ip) [
  | none ↦ candidati
  | some via ↦ fdb_links found ix h.ip via (port_counts h.fdb []) h.fdb candidati
])

-- The candidates, in the order of their keys, that have no link yet.
unfoldable pub add_candidates : Dict (ℕ × Link) → Dict Link → Dict Link
add_candidates [] links = links
add_candidates ((k, (n, l)) ∷ rest) links = add_candidates rest (setdefault links k l)

-- The loop from `via` upwards; `none` where the fuel runs out.
unfoldable pub climb : ℕ → Dict Text → Text → List Text → Option (Text × List Text)
climb zero padre cur visti = none
climb (suc fuel) padre cur visti = elim (get padre cur) [
  | none ↦ some (cur, visti)
  | some next ↦
      let rest = climb fuel padre next (cur ∷ visti) in
      if any (text_eq cur) visti then some (cur, visti) else rest
]

-- The loop over the links, with the links kept so far: those that close no ring.
unfoldable pub drop_rings : List Link → Dict Text → List Link
unfolding climb
drop_rings [] padre = []
drop_rings (l ∷ ls) padre =
    let kept = drop_rings ls (put padre l.device l.via) in
    let dropped = drop_rings ls padre in
    elim (climb (suc (length padre)) padre l.via (l.device ∷ [])) [
      | none ↦ dropped
      | some (cur, visti) ↦ if any (text_eq cur) visti then dropped else l ∷ kept
    ]

abbrev pub link_before : Link → Link → Bool
link_before a b =
    a.is_lldp && not b.is_lldp
    || (a.is_lldp && b.is_lldp || not a.is_lldp && not b.is_lldp) && text_before a.device b.device

-- The links that were found, before the rings are dropped.
unfoldable pub all_links : List Host → List Device → List Link
all_links hosts devices =
    let ix = index_devices 0 devices empty_index in
    let sorted_hosts = sort_by (λ a b. text_before a.ip b.ip) hosts in
    let found =
      lldp_hosts (map (λ h. h.ip) hosts) ix sorted_hosts (record { links = []; uplink = [] }) in
    let candidati = fdb_hosts found ix hosts [] in
    map (λ e. e.1) (add_candidates (sort_by (λ a b. text_before a.0 b.0) candidati) found.links)

unfoldable pub build_topology : List Host → List Device → List Link
build_topology hosts devices = drop_rings (sort_by link_before (all_links hosts devices)) []

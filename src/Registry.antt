-- ===== src/Registry.antt =====
-- `Device` and `DeviceRegistry` of backend/services/registry.py. The devices stand in the order in
-- which they were made, and the place of one is the identity of the object; both indices hold
-- places.
pub mod Addresses
pub mod Map
pub mod Invariant
pub mod Quiet
mod Tests
use lan_manager.Prelude.{
  ℕ, Bool, true, false, not, ◌&&◌, List, [], ◌∷◌, ◌++◌, Option, none, some, Text, lit, text_eq,
  nonempty, upper, strip, any, length, ◌==◌, if◌then◌else◌, Dict, get, put, is_some, or_else,
  or_text, nth, put_nth, map,
}
use lan_manager.Python.Split.{split_first}
use lan_manager.DeviceStore.{colon}

-- The fields that the modelled code reads or writes; `services` and `snmp` are texts here.
pub record Device : Type 0 where
  pub mac : Text
  pub ips : List Text
  pub hostname : Text
  pub name : Text
  pub type : Text
  pub os : Text
  pub subnet : Text
  pub services : Text
  pub notes : Text
  pub url : Text
  pub vendor : Text
  pub os_guess : Text
  pub open_ports : List ℕ
  pub discovered_by : List Text
  pub snmp : Text
  pub hidden : Bool
  pub online : Bool
  pub last_seen : ℕ

-- `Device(mac=mac)`
abbrev pub new_device : Text → Device
new_device mac = record {
  mac = mac;
  ips = [];
  hostname = [];
  name = [];
  type = lit "unknown";
  os = [];
  subnet = [];
  services = [];
  notes = [];
  url = [];
  vendor = [];
  os_guess = [];
  open_ports = [];
  discovered_by = [];
  snmp = [];
  hidden = false;
  online = false;
  last_seen = 0;
}

-- `key`
unfoldable pub key : Device → Text
unfolding upper
key d = elim d.ips [ ip ∷ ips ↦ ip | [] ↦ if nonempty d.mac then upper d.mac else lit "unknown" ]

-- `hostname.split(".")[0]`
unfoldable pub first_label : Text → Text
unfolding split_first
first_label s = elim (split_first b'.' s) [ none ↦ s | some (a, b) ↦ a ]

unfoldable pub display_name : Device → Text
unfolding first_label
display_name d =
    if nonempty d.name
    then d.name
    else if nonempty d.hostname
    then first_label d.hostname
    else elim d.ips [ ip ∷ ips ↦ ip | [] ↦ d.mac ]

unfoldable pub is_in_texts : Text → List Text → Bool
unfolding any text_eq
is_in_texts x xs = any (text_eq x) xs

unfoldable pub tag_source : Device → Text → Device
unfolding is_in_texts
tag_source d source =
    if is_in_texts source d.discovered_by
    then d
    else record d { discovered_by = d.discovered_by ++ source ∷ [] }

-- `merge_catalog`, on the fields of an entry
unfoldable pub merge_catalog : Device → Dict Text → Device
unfolding get
merge_catalog d entry = record d {
  name = or_else (get entry (lit "name")) d.name;
  type = or_else (get entry (lit "type")) d.type;
  os = or_else (get entry (lit "os")) d.os;
  services = or_else (get entry (lit "services")) d.services;
  notes = or_else (get entry (lit "notes")) d.notes;
  url = or_else (get entry (lit "url")) d.url;
}

pub record Registry : Type 0 where
  pub devices : List Device
  pub by_mac : Dict ℕ
  pub by_ip : Dict ℕ

abbrev pub empty : Registry
empty = record { devices = []; by_mac = []; by_ip = [] }

-- `mac.upper().strip().replace("-", ":")`
unfoldable pub canonical_mac : Text → Text
unfolding upper strip colon
canonical_mac mac = map colon (strip (upper mac))

-- The object that an observation is about, when there is one.
unfoldable pub find_device : Registry → Text → Text → Option ℕ
unfolding get
find_device r mac ip =
    if nonempty ip then get r.by_ip ip else if nonempty mac then get r.by_mac mac else none

unfoldable pub with_mac : Device → Text → Device
with_mac d mac = if nonempty mac && not (nonempty d.mac) then record d { mac = mac } else d

unfoldable pub with_ip : Device → Text → Device
unfolding is_in_texts
with_ip d ip =
    if nonempty ip && not (is_in_texts ip d.ips) then record d { ips = d.ips ++ ip ∷ [] } else d

unfoldable pub with_hostname : Device → Text → Device
with_hostname d hostname =
    if nonempty hostname && not (nonempty d.hostname) then record d { hostname = hostname } else d

unfoldable pub with_source : Device → Text → Device
unfolding tag_source
with_source d source = if nonempty source then tag_source d source else d

-- What an observation adds to its device.
unfoldable pub observe : Device → Text → Text → Text → Text → Device
unfolding with_mac with_ip with_hostname with_source
observe d mac ip hostname source =
    with_source (with_hostname (with_ip (with_mac d mac) ip) hostname) source

-- `d.setdefault(k, v)`
unfoldable pub set_default : Dict ℕ → Text → ℕ → Dict ℕ
unfolding get put
set_default d k v = if is_some (get d k) then d else put d k v

-- The two indices after an observation of the device at a place.
unfoldable pub indexed : Registry → Text → Text → ℕ → Registry
unfolding set_default put
indexed r mac ip place = record r {
  by_mac = if nonempty mac then set_default r.by_mac mac place else r.by_mac;
  by_ip = if nonempty ip then put r.by_ip ip place else r.by_ip;
}

-- `upsert` on canonical addresses, once the object is found or to be made.
unfoldable pub upsert_new : Registry → Text → Text → Text → Text → ℕ × Registry
unfolding observe indexed
upsert_new r mac ip hostname source =
    let place = length r.devices in
    let dev = observe (new_device mac) mac ip hostname source in
    (place, indexed (record r { devices = r.devices ++ dev ∷ [] }) mac ip place)

unfoldable pub upsert_known :
    Registry → Text → Text → Text → Text → ℕ → Option Device → ℕ × Registry
unfolding observe indexed
upsert_known r mac ip hostname source place none = (place, r)
upsert_known r mac ip hostname source place (some d) =
    let dev = observe d mac ip hostname source in
    (place, indexed (record r { devices = put_nth r.devices place dev }) mac ip place)

unfoldable pub upsert_at : Registry → Text → Text → Text → Text → Option ℕ → ℕ × Registry
unfolding upsert_new upsert_known
upsert_at r mac ip hostname source none = upsert_new r mac ip hostname source
upsert_at r mac ip hostname source (some place) =
    upsert_known r mac ip hostname source place (nth r.devices place)

unfoldable pub upsert : Registry → Text → Text → Text → Text → ℕ × Registry
unfolding canonical_mac strip find_device upsert_at
upsert r mac ip hostname source =
    let m = canonical_mac mac in
    let a = strip ip in upsert_at r m a hostname source (find_device r m a)

unfoldable pub find_by_ip : Registry → Text → Option ℕ
unfolding get strip
find_by_ip r ip = get r.by_ip (strip ip)

-- The places without repetition, as a dictionary on `id(dev)` keeps them.
unfoldable pub distinct : List ℕ → List ℕ → List ℕ
unfolding any
distinct [] seen = seen
distinct (p ∷ ps) seen = distinct ps (if any (λ q. q == p) seen then seen else seen ++ p ∷ [])

unfoldable pub values : Dict ℕ → List ℕ
values [] = []
values ((k, p) ∷ d) = p ∷ values d

unfoldable pub devices_at : List Device → List ℕ → List Device
devices_at devs [] = []
devices_at devs (p ∷ ps) =
    let rest = devices_at devs ps in elim (nth devs p) [ none ↦ rest | some d ↦ d ∷ rest ]

-- `all`
unfoldable pub all_places : Registry → List ℕ
unfolding distinct values
all_places r = distinct (values r.by_mac ++ values r.by_ip) []

unfoldable pub all : Registry → List Device
unfolding all_places devices_at
all r = devices_at r.devices (all_places r)

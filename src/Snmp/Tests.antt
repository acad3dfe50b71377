-- ===== src/Snmp/Tests.antt =====
-- The theorems on the bandwidth and the topology at concrete readings and networks.
use lan_manager.Prelude.{
  suc, ◌+◌, ◌≡◌, refl, true, List, [], ◌∷◌, some, Text, lit, is_some, Dict, map, arith,
}
use lan_manager.Snmp.{Host, Device, FdbEntry, rate_bps, climb, build_topology}
use lan_manager.Snmp.Wrap.{reading, rate_bps-reading}
use lan_manager.Snmp.Ends.{climb-length}
use lan_manager.Snmp.Forest.{Rooted, parents, build_topology-Rooted}
use lan_manager.Snmp.Unique.{unique_devices, build_topology-unique_devices}

-- The counter turns over between the readings.
rate_bps-reading_example :
    rate_bps
      (some (reading 4_294_967_000 5 100))
      (reading (4_294_967_000 + 1000) (5 + 30) (100 + 3))
    ≡ some (8000, 30)
rate_bps-reading_example =
    rate_bps-reading 4_294_967_000 1000 5 30 100 3 (omega arith) (omega arith)

abbrev ring : Dict Text
ring = (lit "a", lit "b") ∷ (lit "b", lit "a") ∷ []

climb-length_example : is_some (climb (suc 2) ring (lit "a") (lit "c" ∷ [])) ≡ true
climb-length_example = climb-length ring (lit "a") (lit "c")

abbrev device : Text → Text → Text → Device
device key mac ip = record { key = key; mac = mac; ips = ip ∷ []; hostname = key; name = [] }

-- Two switches that see each other, and a computer behind the second.
abbrev devices : List Device
devices =
    device (lit "sw1") (lit "AA") (lit "10.0.0.1")
    ∷ device (lit "sw2") (lit "BB") (lit "10.0.0.2")
    ∷ device (lit "pc") (lit "CC") (lit "10.0.0.3")
    ∷ []

abbrev sees : Text → Text → Text → List FdbEntry → Host
sees ip chassis port fdb = record {
  ip = ip;
  lldp = record { chassis = chassis; sys_name = []; local_port = port } ∷ [];
  fdb = fdb;
}

abbrev hosts : List Host
hosts =
    sees (lit "10.0.0.1") (lit "bb") (lit "p1") (record { mac = lit "cc"; port = lit "p1" } ∷ [])
    ∷ sees (lit "10.0.0.2") (lit "aa") (lit "p9") (record { mac = lit "cc"; port = lit "p2" } ∷ [])
    ∷ []

-- The link of sw2 to sw1 would close a ring with that of sw1 to sw2.
topology :
    map {B = Text × Text} (λ l. (l.device, l.via)) (build_topology hosts devices)
    ≡ (lit "sw1", lit "sw2") ∷ (lit "pc", lit "sw2") ∷ []
unfolding build_topology lan_manager.Snmp.drop_rings lan_manager.Prelude.sort_by
    lan_manager.Snmp.all_links lan_manager.Snmp.add_candidates lan_manager.Snmp.fdb_hosts
    lan_manager.Prelude.get lan_manager.Snmp.index_devices lan_manager.Prelude.put
    lan_manager.Prelude.text_eq lan_manager.Snmp.fdb_links lan_manager.Snmp.fdb_link
    lan_manager.Prelude.any lan_manager.Snmp.lldp_hosts lan_manager.Prelude.text_before
    lan_manager.Snmp.lldp_links lan_manager.Snmp.lldp_link lan_manager.Prelude.insert_by
    lan_manager.Prelude.strip lan_manager.Prelude.lower lan_manager.Prelude.upper
    lan_manager.Python.Split.split_parts lan_manager.Snmp.climb lan_manager.Snmp.index_all
    lan_manager.Snmp.index_device lan_manager.Snmp.neighbour_device lan_manager.Snmp.nome_corto
    lan_manager.Snmp.port_counts lan_manager.Snmp.setdefault
topology = refl

build_topology-Rooted_example : Rooted (parents (build_topology hosts devices) []) (lit "pc")
build_topology-Rooted_example = build_topology-Rooted hosts devices (lit "pc")

build_topology-unique_devices_example : unique_devices (build_topology hosts devices) ≡ true
build_topology-unique_devices_example = build_topology-unique_devices hosts devices

-- ===== src/DeviceStore/Catalog.antt =====
-- The views of the catalogue that the scanner reads: `catalog_by_mac`, `catalog_by_ip` and
-- `entries` of backend/services/device_store.py.
use lan_manager.Prelude.{not, ◌&&◌, List, [], ◌∷◌, nonempty, Dict, put, if◌then◌else◌, or_else}
use lan_manager.DeviceStore.{Entry, Store, normalize, ip_of}

-- Only the entries without an IP: with one, the MAC describes the device at that address.
unfoldable pub by_mac : List Entry → Dict Entry → Dict Entry
by_mac [] out = out
by_mac (e ∷ devices) out =
    let mac = normalize (or_else e.mac []) in
    by_mac devices (if nonempty mac && not (nonempty (ip_of e)) then put out mac e else out)

unfoldable pub catalog_by_mac : Store → Dict Entry
unfolding by_mac
catalog_by_mac s = by_mac s.devices []

unfoldable pub by_ip : List Entry → Dict Entry → Dict Entry
by_ip [] out = out
by_ip (e ∷ devices) out = by_ip devices (if nonempty (ip_of e) then put out (ip_of e) e else out)

unfoldable pub catalog_by_ip : Store → Dict Entry
unfolding by_ip
catalog_by_ip s = by_ip s.devices []

unfoldable pub entries : Store → List Entry
entries s = s.devices

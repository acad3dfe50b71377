-- ===== src/Registry/Tests.antt =====
-- A registry with a machine and its guest behind one MAC.
use lan_manager.Prelude.{
  ◌≡◌, refl, true, [], Text, lit, text_eq, some, nonempty, strip, if◌then◌else◌,
}
use lan_manager.Registry.{Registry, empty, upsert, observe, canonical_mac}
use lan_manager.Registry.Addresses.{device_of, owner, IsAddressed, empty-IsAddressed}
use lan_manager.Registry.Invariant.{upsert-device_of}
use lan_manager.Registry.Quiet.{upsert-IsAddressed}

abbrev mac : Text
mac = lit "aa-bb-cc-00-11-22"

abbrev host : Text
host = lit "192.0.2.10"

abbrev guest : Text
guest = lit "192.0.2.11"

abbrev one : Registry
one = (upsert empty mac host (lit "nas") (lit "dhcp")).1

-- An observation of the MAC alone, then the host.
upsert-IsAddressed_example : IsAddressed (upsert empty mac host (lit "nas") (lit "dhcp")).1
upsert-IsAddressed_example =
    upsert-IsAddressed empty mac host (lit "nas") (lit "dhcp") empty-IsAddressed

one_addressed : IsAddressed one
one_addressed = upsert-IsAddressed empty mac host (lit "nas") (lit "dhcp") empty-IsAddressed

guest_address : nonempty (strip guest) ≡ true
unfolding strip
guest_address = refl

upsert-device_of_example : device_of (upsert one mac guest [] (lit "arp")).1 host ≡ (
    if text_eq (strip guest) host
    then some (
        observe
          (owner one (canonical_mac mac) (strip guest))
          (canonical_mac mac)
          (strip guest)
          []
          (lit "arp"))
    else device_of one host)
upsert-device_of_example =
    upsert-device_of one mac guest [] (lit "arp") host one_addressed guest_address

-- ===== src/Python/Tests.antt =====
-- Runs of the library functions.
use lan_manager.Prelude.{◌+◌, ◌*◌, ◌^◌, ◌≡◌, refl, true, none, some, lit, strip}
use lan_manager.Python.Decimal.{show, parse_int}
use lan_manager.Python.Ip.{v4, v6, ip_address, ip_network, is_loopback}

int_test :
    (parse_int (lit " -1_000 ") ≡ some (record { negative = true; size = 1000 }))
    × (show 1755 ≡ lit "1755")
unfolding parse_int strip show
int_test = (refl, refl)

ip_test :
    (ip_address (lit "192.0.2.7") ≡ some (v4 3221225991))
    × (ip_address (lit "192.0.2.07") ≡ none)
    × (ip_address (lit "fe80::1%eth0") ≡ some (v6 (0xfe80 * 2 ^ 112 + 1)))
    × (ip_address (lit "::ffff:10.0.0.1") ≡ some (v6 281470849515521))
    × (ip_address (lit "1::2::3") ≡ none)
unfolding ip_address
ip_test = (refl, refl, refl, refl, refl)

network_test :
    (ip_network (lit "10.1.2.3/255.255.0.0")
      ≡ some (record { address = v4 167838211; prefix = 16 }))
    × (ip_network (lit "10.0.0.0/33") ≡ none)
    × (is_loopback (v4 2130706433) ≡ true)
unfolding ip_network is_loopback
network_test = (refl, refl, refl)

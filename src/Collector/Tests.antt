-- ===== src/Collector/Tests.antt =====
-- Runs of the collector's sources and rates on small inputs.
use lan_manager.Prelude.{
  ℕ, ◌+◌, ◌*◌, true, false, ◌≡◌, refl, arith, List, [], ◌∷◌, ◌++◌, Option, none, some, Text, lit,
  take_last, drop,
}
use lan_manager.Collector.{
  Source, Network, Reading, fmt_uptime, mark_shared_devices, pick_wan_interface,
}
use lan_manager.Collector.Sources.{
  Attempt, after, after_lem, of_source, failures, down_since, last_success, state_of,
}
use lan_manager.Collector.Traffic.{stops, goes, run_rates, run_rates_lem, bits_of}

abbrev attempts : List Attempt
attempts =
    record { nome = lit "docker"; at = 70; outcome = some (lit "timeout") }
    ∷ record { nome = lit "system"; at = 60; outcome = none }
    ∷ record { nome = lit "docker"; at = 60; outcome = some (lit "refused") }
    ∷ record { nome = lit "docker"; at = 50; outcome = none }
    ∷ []

after_example :
    let x = state_of (after attempts) (lit "docker") in
    let mine = of_source (lit "docker") attempts in
    (x.fails ≡ failures mine) × (x.since ≡ down_since mine) × (x.ts ≡ last_success mine)
after_example =
    after_lem attempts (lit "docker") (omega arith, (omega arith, (omega arith, (omega arith, tt))))

docker_state : Source
docker_state = state_of (after attempts) (lit "docker")

failures_test :
    docker_state
    ≡ record { ok = false; ts = some 50; error = lit "timeout"; since = some 60; fails = 2 }
unfolding after docker_state lan_manager.Prelude.text_eq
failures_test = refl

abbrev lan : Network
lan = record {
  name = lit "lan";
  ifname = lit "br0";
  rx_bytes = 0;
  tx_bytes = 0;
  counters_own = false;
  shared_with = [];
}

abbrev wan : Network
wan = record {
  name = lit "wan";
  ifname = lit "eth0";
  rx_bytes = 1500;
  tx_bytes = 300;
  counters_own = false;
  shared_with = [];
}

abbrev start : Reading
start = record { name = lit "wan"; rx = 500; tx = 300; t = 10 }

abbrev finish : Reading
finish = record { name = lit "wan"; rx = 1500; tx = 300; t = 20 }

run_rates_example :
    let bits = bits_of (run_rates (some start) ((some wan, 20) ∷ [])) in
    (bits.0 + start.rx * 8 ≡ finish.rx * 8) × (bits.1 + start.tx * 8 ≡ finish.tx * 8)
run_rates_example =
    run_rates_lem start finish ((some wan, 20) ∷ [])
      (goes wan 20 refl (omega arith) (omega arith) (omega arith) stops)

marks_test :
    mark_shared_devices (lan ∷ record lan { name = lit "lab" } ∷ wan ∷ [])
    ≡ record lan { counters_own = true; shared_with = lit "lab" ∷ [] }
      ∷ record lan { name = lit "lab"; shared_with = lit "lan" ∷ [] }
      ∷ record wan { counters_own = true }
      ∷ []
unfolding mark_shared_devices lan_manager.Prelude.filter
marks_test = refl

uptime_test : fmt_uptime 93784 ≡ lit "1d 2h 3m"
unfolding fmt_uptime
uptime_test = refl

busy_test :
    pick_wan_interface
      (record { wan_interface = lit "ppp0"; wan_candidates = lit "wwan" ∷ [] })
      (lan ∷ wan ∷ [])
    ≡ some wan
unfolding pick_wan_interface
busy_test = refl

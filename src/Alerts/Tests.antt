-- ===== src/Alerts/Tests.antt =====
-- The theorems on the registry of alerts at a concrete catalogue; the snapshots of the tests are
-- texts.
use mathlib.Core.List.{Memᴰ, Permᴰ}
use lan_manager.Alerts.Network.{
  Peer, WgInterface, host_endpoint, handshake_attivo, peers_of, relay_giu, relay_non_trovato,
}
use lan_manager.Alerts.Watch.{relay_watched}
use lan_manager.Prelude.{
  ◌≤◌, nonempty, unique_keys, ℕ, ◌+◌, ◌≡◌, refl, Bool, true, false, List, [], ◌∷◌, ◌++◌, Option,
  none, some, Text, lit, text_eq, Dict, get, put, map, length,
}
use lan_manager.Alerts.{
  Alert, Regola, AlertsConfig, AlertRegistry, AlertSilence, AlertRule, alert_id, build, grezzi,
}
use lan_manager.Alerts.Order.{in_order}
use lan_manager.Alerts.Memory.{build-memory}
use lan_manager.Alerts.Build.{to_tell, build_lem}

abbrev about : Text → Alert
about subject = record {
  rule = [];
  subject = subject;
  level = [];
  scope = [];
  title = lit "down";
  detail = [];
  action = [];
  source = [];
  since = 0;
}

-- One alert on the text of the snapshot, unless it is empty.
abbrev down : Text → Option (List Alert)
down [] = some []
down (c ∷ s) = some (about (c ∷ s) ∷ [])

abbrev broken : Text → Option (List Alert)
broken s = none

abbrev host_down : Regola Text
host_down = record {
  fn = down;
  level = lit "critical";
  scope = lit "services";
  min_seconds = some (record { negative = false; size = 60 });
  enabled = true;
}

abbrev failing : Regola Text
failing = record host_down { fn = broken }

abbrev catalogo : Dict (Regola Text)
catalogo = (lit "bad", failing) ∷ (lit "host", host_down) ∷ []

abbrev cfg : AlertsConfig
cfg = record {
  enabled = true;
  min_seconds = record { negative = false; size = 120 };
  rules = [];
  silenced = record { rule = lit "host"; subject = lit "nas" } ∷ [];
}

-- Seen first at 1000 and last at 1500.
abbrev seen : AlertRegistry
seen = record { primo = (lit "host:pc", 1000) ∷ []; visto = (lit "host:pc", 1500) ∷ [] }

build_lem_example :
    Permᴰ (build cfg catalogo 2000 (lit "pc") seen).0 (to_tell cfg catalogo 2000 (lit "pc") seen)
    × (in_order (build cfg catalogo 2000 (lit "pc") seen).0 ≡ true)
build_lem_example = build_lem cfg catalogo 2000 (lit "pc") seen refl

-- It comes back within the window, so it lasts since 1000.
build-memory_example :
    (get (build cfg catalogo 2000 (lit "pc") seen).1.primo (lit "host:pc") ≡ some 1000)
    × (get (build cfg catalogo 2000 (lit "pc") seen).1.visto (lit "host:pc") ≡ some 2000)
    × (unique_keys (build cfg catalogo 2000 (lit "pc") seen).1.visto ≡ true)
unfolding unique_keys get lan_manager.Alerts.collect grezzi put text_eq alert_id
build-memory_example = build-memory cfg catalogo 2000 (lit "pc") seen (lit "host:pc") refl refl

told : map (λ a. a.since) (build cfg catalogo 2000 (lit "pc") seen).0 ≡ 1000 ∷ []
unfolding build lan_manager.Alerts.sort lan_manager.Alerts.collect grezzi get put
    lan_manager.Alerts.zittito lan_manager.Prelude.any text_eq lan_manager.Alerts.scorda alert_id
told = refl

silent : (build cfg catalogo 2000 (lit "nas") seen).0 ≡ []
unfolding build lan_manager.Alerts.sort lan_manager.Alerts.collect grezzi get put
    lan_manager.Alerts.zittito lan_manager.Prelude.any text_eq
silent = refl

too_young : (build cfg catalogo 2000 (lit "tv") seen).0 ≡ []
unfolding build lan_manager.Alerts.sort lan_manager.Alerts.collect grezzi get put
    lan_manager.Alerts.zittito lan_manager.Prelude.any text_eq lan_manager.Alerts.scorda alert_id
too_young = refl

abbrev some_alerts : List Alert
some_alerts =
    record (about (lit "a")) { level = lit "critical" }
    ∷ record (about (lit "b")) { level = lit "odd"; scope = lit "wan" }
    ∷ []

-- The relay made its last handshake 100 seconds ago.
abbrev router : List WgInterface
router =
    record {
      name = lit "wg0";
      peers =
          record { name = lit "vps"; endpoint = lit "203.0.113.5:51820"; last_handshake = 900 }
          ∷ [];
    }
    ∷ []

relay_declared : nonempty (host_endpoint (lit " 203.0.113.5")) ≡ true
unfolding host_endpoint lan_manager.Prelude.strip
relay_declared = refl

relay_up : relay_giu (lit " 203.0.113.5") 1000 router ≡ []
unfolding relay_giu host_endpoint lan_manager.Prelude.strip lan_manager.Prelude.filter text_eq
    lan_manager.Python.Split.split_last
relay_up = refl

relay_known : relay_non_trovato (lit " 203.0.113.5") router ≡ []
unfolding relay_non_trovato host_endpoint lan_manager.Prelude.strip lan_manager.Prelude.any text_eq
    lan_manager.Python.Split.split_last
relay_known = refl

router_peers : nonempty (peers_of router) ≡ true
unfolding peers_of
router_peers = refl

relay_watched_example :
    (p : Peer) × Memᴰ p (peers_of router)
    × (host_endpoint p.endpoint ≡ host_endpoint (lit " 203.0.113.5"))
    × (1000 ≤ p.last_handshake + handshake_attivo)
relay_watched_example =
    relay_watched (lit " 203.0.113.5") 1000 router relay_declared router_peers relay_up relay_known

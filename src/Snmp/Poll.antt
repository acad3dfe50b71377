-- ===== src/Snmp/Poll.antt =====
-- `SnmpState` of backend/services/snmp.py: the hosts that the discovery found and the readings of
-- their counters. What an agent answers is an argument, and so are the two clocks.
use lan_manager.Prelude.{
  ℕ, ◌+◌, ◌/◌, Bool, true, false, not, ◌&&◌, ◌||◌, List, [], ◌∷◌, filter, Option, none, some, Text,
  lit, text_eq, nonempty, Dict, get, put, is_some, ltb, leb, ◌==◌, if◌then◌else◌,
}
use lan_manager.Snmp.{Reading, rate_bps}

pub record Iface : Type 0 where
  pub index : ℕ
  pub name : Text
  pub oper : Text
  pub in_octets : Option ℕ
  pub out_octets : Option ℕ
  pub counter_bits : ℕ
  pub rx_bps : Option (ℕ × ℕ)
  pub tx_bps : Option (ℕ × ℕ)

-- The fields of `SnmpHostData` that change here.
pub record HostData : Type 0 where
  pub ip : Text
  pub reachable : Bool
  pub error : Text
  pub uptime_s : Option ℕ
  pub interfaces : List Iface
  pub polled_at : ℕ

pub record Previous : Type 0 where
  pub name : Text
  pub rx : Reading
  pub tx : Reading

-- `_prev`, by address and index of the interface.
abbrev pub Readings : Type 0
Readings = List ((Text × ℕ) × Previous)

unfoldable pub same_key : Text × ℕ → Text × ℕ → Bool
same_key k j = text_eq k.0 j.0 && k.1 == j.1

unfoldable pub get_prev : Readings → Text × ℕ → Option Previous
unfolding same_key
get_prev [] k = none
get_prev ((j, p) ∷ rest) k = let later = get_prev rest k in if same_key j k then some p else later

unfoldable pub put_prev : Readings → Text × ℕ → Previous → Readings
unfolding same_key
put_prev [] k p = (k, p) ∷ []
put_prev ((j, q) ∷ rest) k p =
    let later = put_prev rest k p in if same_key j k then (j, p) ∷ rest else (j, q) ∷ later

pub record SnmpState : Type 0 where
  pub hosts : Dict HostData
  pub prev : Readings
  pub last_poll : ℕ

-- The host that the discovery found, with what the poller has read before.
unfoldable pub keep_polled : Option HostData → HostData → HostData
keep_polled none r = r
keep_polled (some vecchio) r =
    if leb 1 vecchio.polled_at || not (nonempty r.interfaces)
    then record r { interfaces = vecchio.interfaces; polled_at = vecchio.polled_at }
    else r

unfoldable pub nuovi : Dict HostData → List HostData → Dict HostData → Dict HostData
unfolding keep_polled
nuovi hosts [] found = found
nuovi hosts (r ∷ results) found =
    nuovi hosts results (put found r.ip (keep_polled (get hosts r.ip) r))

unfoldable pub set_discovered : SnmpState → List HostData → SnmpState
unfolding nuovi
set_discovered s results =
    let found = nuovi s.hosts results [] in
    record s { hosts = found; prev = filter (λ e. is_some (get found e.0.0)) s.prev }

-- The settings of `discovery.snmp`; `traffic_interval` is in nanoseconds.
pub record SnmpConfig : Type 0 where
  pub enabled : Bool
  pub interfaces : Bool
  pub traffic : Bool
  pub traffic_interval : ℕ

unfoldable pub due : SnmpConfig → SnmpState → ℕ → Bool
due cfg s now =
    if not cfg.enabled || not (cfg.interfaces || cfg.traffic) || not (nonempty s.hosts)
    then false
    else leb (s.last_poll + cfg.traffic_interval) now

-- `MAX_IFACES_HISTORY`
abbrev pub max_ifaces_history : ℕ
max_ifaces_history = 64

-- What an agent answered: an error, or its uptime, that of the machine, and the interfaces.
pub data Answer : Type 0 where
  failed : Text → Answer
  answered : Option ℕ → Option ℕ → List Iface → Answer

abbrev pub reading_of : Iface → Option ℕ → ℕ → Option ℕ → Reading
reading_of i octets now uptime = record {
  octets = octets;
  t = now;
  uptime_s = uptime;
  bits = i.counter_bits;
}

-- The reading before, unless the interface has another name now.
unfoldable pub comparable : Option Previous → Text → Option Previous
comparable none name = none
comparable (some p) name = if text_eq p.name name then some p else none

abbrev pub prev_rx : Option Previous → Option Reading
prev_rx none = none
prev_rx (some p) = some p.rx

abbrev pub prev_tx : Option Previous → Option Reading
prev_tx none = none
prev_tx (some p) = some p.tx

-- The body of the loop over the interfaces.
unfoldable pub poll_iface : Bool → Text → ℕ → Option ℕ → Iface → Readings → Iface × Readings
unfolding comparable
poll_iface traffic ip now uptime i prev =
    let cur_rx = reading_of i i.in_octets now uptime in
    let cur_tx = reading_of i i.out_octets now uptime in
    let before = comparable (get_prev prev (ip, i.index)) i.name in
    (
      record i {
        rx_bps = if traffic then rate_bps (prev_rx before) cur_rx else none;
        tx_bps = if traffic then rate_bps (prev_tx before) cur_tx else none;
      },
      put_prev prev (ip, i.index) (record { name = i.name; rx = cur_rx; tx = cur_tx }),
    )

unfoldable pub poll_ifaces :
    Bool → Text → ℕ → Option ℕ → List Iface → Readings → List Iface × Readings
unfolding poll_iface
poll_ifaces traffic ip now uptime [] prev = ([], prev)
poll_ifaces traffic ip now uptime (i ∷ ifaces) prev =
    let (i', prev') = poll_iface traffic ip now uptime i prev in
    let (rest, prev'') = poll_ifaces traffic ip now uptime ifaces prev' in (i' ∷ rest, prev'')

-- The points for the history, at most as many as it takes.
unfoldable pub punti : Bool → ℕ → List Iface → List Iface
punti traffic taken [] = []
punti traffic taken (i ∷ ifaces) =
    let skipped = punti traffic taken ifaces in
    let kept = punti traffic (taken + 1) ifaces in
    if traffic && text_eq i.oper (lit "up") && ltb taken max_ifaces_history
    then i ∷ kept
    else skipped

abbrev pub first_uptime : Option ℕ → Option ℕ → Option ℕ
first_uptime none old = old
first_uptime (some n) old = some n

-- `host_uptime`, of the ticks of the machine and of the agent.
unfoldable pub host_uptime : Option ℕ → Option ℕ → Option ℕ
host_uptime (some ticks) sys = some (ticks / 100)
host_uptime none (some ticks) = some (ticks / 100)
host_uptime none none = none

-- `_poll_one`: the points, the host and the readings afterwards.
unfoldable pub poll_one :
    Bool → ℕ → ℕ → HostData → Answer → Readings → List Iface × HostData × Readings
unfolding poll_ifaces punti
poll_one traffic now epoch h (failed error) prev =
    ([], record h { reachable = false; error = error }, filter (λ e. not (text_eq e.0.0 h.ip)) prev)
poll_one traffic now epoch h (answered uptime acceso ifaces) prev =
    let (read, prev') = poll_ifaces traffic h.ip now uptime ifaces prev in
    (
      punti traffic 0 read,
      record h {
        interfaces = read;
        reachable = true;
        error = [];
        polled_at = epoch;
        uptime_s = first_uptime acceso h.uptime_s;
      },
      prev',
    )

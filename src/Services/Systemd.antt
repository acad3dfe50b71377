-- ===== src/Services/Systemd.antt =====
-- backend/services/systemd_monitor.py with the units of several hosts. A host answers the output of
-- `systemctl show` for each unit, where `none` is an error of the command, or is not reached.
use lan_manager.Prelude.{
  Bool, false, List, [], ◌∷◌, Option, none, some, Text, lit, text_eq, nonempty, Dict, get, put,
  or_else, strip, map,
}
use lan_manager.Python.Lines.{splitlines, translate}
use lan_manager.Python.Split.{split_first}
use lan_manager.Services.{by_host}

-- An entry of the catalogue.
pub record UnitEntry : Type 0 where
  pub unit : Text
  pub label : Text
  pub host : Text
  pub critical : Option Bool
  pub dashboard : Option Bool

pub record UnitStatus : Type 0 where
  pub unit : Text
  pub label : Text
  pub load_state : Text
  pub active_state : Text
  pub sub_state : Text
  pub critical : Bool
  pub available : Bool
  pub host : Text
  pub dashboard : Bool

-- `UnitStatus.ok`
unfoldable pub ok : UnitStatus → Bool
unfolding text_eq
ok u = text_eq u.active_state (lit "active")

-- One line `KEY=VALUE`.
unfoldable pub add_prop : Text → Dict Text → Dict Text
unfolding split_first strip put
add_prop line props = elim (split_first b'=' line) [
  | none ↦ props
  | some (k, v) ↦ put props (strip k) (strip v)
]

unfoldable pub add_props : List Text → Dict Text → Dict Text
unfolding add_prop
add_props [] props = props
add_props (l ∷ lines) props = add_props lines (add_prop l props)

-- `_parse_props`
unfoldable pub parse_props : Text → Dict Text
unfolding add_props splitlines translate
parse_props raw = add_props (splitlines (translate raw)) []

-- `_in_dashboard`: what is not chosen is what is critical.
unfoldable pub in_dashboard : UnitEntry → Bool
in_dashboard u = or_else u.dashboard (or_else u.critical false)

-- `_from_props`
unfoldable pub from_props : UnitEntry → Dict Text → UnitStatus
unfolding get in_dashboard strip
from_props u props = record {
  unit = u.unit;
  label = u.label;
  load_state = or_else (get props (lit "LoadState")) (lit "unknown");
  active_state = or_else (get props (lit "ActiveState")) (lit "unknown");
  sub_state = or_else (get props (lit "SubState")) (lit "unknown");
  critical = or_else u.critical false;
  available = nonempty props;
  host = strip u.host;
  dashboard = in_dashboard u;
}

-- `_unavailable`
unfoldable pub unavailable : UnitEntry → UnitStatus
unfolding in_dashboard strip
unavailable u = record {
  unit = u.unit;
  label = u.label;
  load_state = lit "unknown";
  active_state = lit "unknown";
  sub_state = lit "unknown";
  critical = or_else u.critical false;
  available = false;
  host = strip u.host;
  dashboard = in_dashboard u;
}

-- What the hosts answer to `systemctl show`, by host and unit.
abbrev pub Shell : Type 0
Shell = Text → Option (Text → Option Text)

-- `_show_ssh`
unfoldable pub show_ssh : (Text → Option Text) → Text → Dict Text
unfolding parse_props
show_ssh run unit = elim (run unit) [ none ↦ [] | some raw ↦ parse_props raw ]

-- `_status_ssh_host`
unfoldable pub status_ssh_host : Shell → Text → List UnitEntry → List UnitStatus
unfolding show_ssh from_props unavailable
status_ssh_host shell host units = elim (shell host) [
  | none ↦ map unavailable units
  | some run ↦ map (λ u. from_props u (show_ssh run u.unit)) units
]

-- The host of an entry: no host is the default one.
unfoldable pub host_of : UnitEntry → Text
unfolding strip
host_of u = strip u.host

-- `_status_ssh_multi`
unfoldable pub status_ssh_multi : Shell → List UnitEntry → List UnitStatus
unfolding by_host status_ssh_host host_of
status_ssh_multi shell units = by_host host_of (status_ssh_host shell) units

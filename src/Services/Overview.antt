-- ===== src/Services/Overview.antt =====
-- backend/services/services_overview.py: the view of all services, from what Docker, systemd,
-- Windows and the healthchecks answered.
use lan_manager.Prelude.{
  ℕ, ◌+◌, ◌-◌, Bool, true, false, not, List, [], ◌∷◌, Option, none, some, Text, text_eq,
  text_before, Dict, get, put, or_else, length, map, sort_by, if◌then◌else◌, ◌==◌,
}
use lan_manager.Services.Systemd
use lan_manager.Services.Systemd.{UnitStatus}
use lan_manager.Services.Windows
use lan_manager.Services.Windows.{WindowsServiceStatus}

-- A container as a host lists it, less what is only shown.
pub record Container : Type 0 where
  pub name : Text
  pub host : Text
  pub is_running : Bool

-- An entry of the catalogue for a container.
pub record Pin : Type 0 where
  pub name : Text
  pub label : Option Text
  pub url : Option Text
  pub dashboard : Option Bool

pub record DockerItem : Type 0 where
  pub name : Text
  pub host : Text
  pub running : Bool
  pub label : Text
  pub url : Text
  pub pinned : Bool
  pub dashboard : Bool

-- `CheckResult`, less what is only shown.
pub record CheckResult : Type 0 where
  pub name : Text
  pub ok : Bool
  pub dashboard : Bool

-- `name.lstrip("/")`
unfoldable pub no_slash : Text → Text
no_slash [] = []
no_slash (c ∷ s) = let rest = no_slash s in if c == b'/' then rest else c ∷ s

unfoldable pub pin_by_name : List Pin → Dict Pin → Dict Pin
unfolding put
pin_by_name [] out = out
pin_by_name (p ∷ pins) out = pin_by_name pins (put out p.name p)

-- The item of a container that has a pin, or has none.
unfoldable pub with_pin : Container → Option Pin → DockerItem
unfolding no_slash
with_pin c none = record {
  name = no_slash c.name;
  host = c.host;
  running = c.is_running;
  label = no_slash c.name;
  url = [];
  pinned = false;
  dashboard = false;
}
with_pin c (some p) = record {
  name = no_slash c.name;
  host = c.host;
  running = c.is_running;
  label = or_else p.label (no_slash c.name);
  url = or_else p.url [];
  pinned = true;
  dashboard = or_else p.dashboard true;
}

-- The order of the items: pinned, host, running, name.
unfoldable pub item_before : DockerItem → DockerItem → Bool
unfolding text_before text_eq
item_before a b =
    let by_name = text_before a.name b.name in
    let by_running =
      if a.running
      then (if b.running then by_name else true)
      else (if b.running then false else by_name) in
    let by_host = if text_eq a.host b.host then by_running else text_before a.host b.host in
    if a.pinned then (if b.pinned then by_host else true) else (if b.pinned then false else by_host)

pub record HostCount : Type 0 where
  pub running : ℕ
  pub total : ℕ

abbrev pub one_if : Bool → ℕ
one_if true = 1
one_if false = 0

unfoldable pub count_host : Dict HostCount → Container → Dict HostCount
unfolding put get
count_host per_host c =
    let before = or_else (get per_host c.host) (record { running = 0; total = 0 }) in
    put per_host c.host
      (record { running = before.running + one_if c.is_running; total = before.total + 1 })

unfoldable pub count_hosts : List Container → Dict HostCount → Dict HostCount
unfolding count_host
count_hosts [] per_host = per_host
count_hosts (c ∷ containers) per_host = count_hosts containers (count_host per_host c)

-- `sum(1 for x in xs if p(x))`
unfoldable pub count {ℓ} : {A : Type ℓ} → (A → Bool) → List A → ℕ
count p [] = 0
count p (x ∷ xs) = one_if (p x) + count p xs

pub record Docker : Type 0 where
  pub containers : List DockerItem
  pub per_host : Dict HostCount
  pub running : ℕ
  pub stopped : ℕ
  pub total : ℕ

-- `_docker_section`
unfoldable pub docker_section : List Pin → List Container → Docker
unfolding pin_by_name with_pin item_before count_hosts count sort_by no_slash get
docker_section pinned containers =
    let pins = pin_by_name pinned [] in
    record {
      containers =
          sort_by item_before (map (λ c. with_pin c (get pins (no_slash c.name))) containers);
      per_host = count_hosts containers [];
      running = count (λ c. c.is_running) containers;
      stopped = count (λ c. not c.is_running) containers;
      total = length containers;
    }

pub record Overview : Type 0 where
  pub docker : Docker
  pub systemd : List UnitStatus
  pub windows_services : List WindowsServiceStatus
  pub healthchecks : List CheckResult
  pub total : ℕ
  pub ok : ℕ
  pub down : ℕ

-- `build_services_overview`
unfoldable pub build_services_overview :
    Docker → List UnitStatus → List WindowsServiceStatus → List CheckResult → Overview
unfolding count Systemd.ok Windows.ok
build_services_overview docker systemd windows health =
    let ok =
      docker.running
      + count Systemd.ok systemd
      + count Windows.ok windows
      + count (λ c. c.ok) health in
    let total = docker.total + length systemd + length windows + length health in
    record {
      docker = docker;
      systemd = systemd;
      windows_services = windows;
      healthchecks = health;
      total = total;
      ok = ok;
      down = total - ok;
    }

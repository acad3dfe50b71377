-- ===== src/Services/Tests.antt =====
-- Services of two hosts, one of which does not answer.
use lan_manager.Prelude.{
  ℕ, ◌+◌, arith, strip, text_eq, ◌≡◌, refl, true, false, List, [], ◌∷◌, Option, none, some, Text,
  lit, get, map,
}
use mathlib.Core.List.{Permᴰ}
use lan_manager.Services.Systemd.{UnitEntry, Shell, status_ssh_multi, parse_props}
use lan_manager.Services.Windows.{WindowsEntry, PowerShell, Riga, righe, reached, status, quoted}
use lan_manager.Services.Complete.{unit_alone, status_ssh_multi_lem}
use lan_manager.Services.Batch.{service_state, status_lem}
use lan_manager.Services.Overview.{
  count, Container, Pin, CheckResult, Overview, docker_section, build_services_overview,
  pin_by_name, with_pin, no_slash,
}
use lan_manager.Services.Totals.{docker_section_lem, sum_hosts}
use lan_manager.Services.Store.{
  Section, Entry, Catalogue, done, add, remove, store, others, with_list, list_of, add-remove,
}
use lan_manager.Services.Forget.{http, dimentica_servizio}
use lan_manager.Services.Rebuild.{rebuilt, rows_named, dimentica_servizio_lem}

abbrev units : List UnitEntry
units =
    record { unit = lit "nginx"; label = []; host = []; critical = some true; dashboard = none }
    ∷ record { unit = lit "cups"; label = []; host = lit "nas"; critical = none; dashboard = none }
    ∷ record { unit = lit "ssh"; label = []; host = lit " "; critical = none; dashboard = none }
    ∷ []

-- The default host answers, the other one does not.
abbrev shell : Shell
shell [] = some (λ unit. some (lit "LoadState=loaded\nActiveState=active\nSubState=running\n"))
shell (c ∷ host) = none

status_ssh_multi_example : Permᴰ (status_ssh_multi shell units) (map (unit_alone shell) units)
status_ssh_multi_example = status_ssh_multi_lem shell units

props_test :
    get (parse_props (lit "LoadState=loaded\r\nActiveState = active")) (lit "ActiveState")
    ≡ some (lit "active")
unfolding parse_props get lan_manager.Prelude.text_eq
props_test = refl

in_order_test :
    map (λ u. u.unit) (status_ssh_multi shell units) ≡ lit "nginx" ∷ lit "ssh" ∷ lit "cups" ∷ []
unfolding status_ssh_multi lan_manager.Prelude.text_eq
in_order_test = refl

abbrev entries : List WindowsEntry
entries =
    record { name = lit "Spooler"; label = []; host = lit "pc"; critical = false; dashboard = true }
    ∷ record { name = lit "W*"; label = []; host = lit "pc"; critical = false; dashboard = true }
    ∷ record { name = lit "Spooler"; label = []; host = []; critical = false; dashboard = true }
    ∷ []

abbrev spooler : Riga
spooler = record {
  name = lit "Spooler";
  display_name = lit "Print Spooler";
  status = lit "StopPending";
  start_type = lit "Automatic";
}

abbrev power_shell : PowerShell
power_shell host = reached (λ asked. righe (spooler ∷ []))

status_example :
    Permᴰ (status power_shell entries) (map (service_state power_shell entries) entries)
status_example = status_lem power_shell entries

states_test :
    map (λ w. w.state) (status power_shell entries)
    ≡ lit "unknown" ∷ lit "stop-pending" ∷ lit "unknown" ∷ []
unfolding status lan_manager.Prelude.text_eq
states_test = refl

-- An apostrophe in a name is doubled.
quoted_test : quoted (lit "o'k") ≡ lit "'o''k'"
unfolding quoted
quoted_test = refl

abbrev pins : List Pin
pins = record { name = lit "web"; label = some (lit "Site"); url = none; dashboard = none } ∷ []

abbrev containers : List Container
containers =
    record { name = lit "/db"; host = lit "local"; is_running = true }
    ∷ record { name = lit "/web"; host = lit "nas"; is_running = false }
    ∷ []

docker_section_example :
    let d = docker_section pins containers in
    Permᴰ d.containers
      (map (λ c. with_pin c (get (pin_by_name pins []) (no_slash c.name))) containers)
    × (d.running + d.stopped ≡ d.total)
    × (sum_hosts (λ n. n.running) d.per_host ≡ d.running)
    × (sum_hosts (λ n. n.total) d.per_host ≡ d.total)
docker_section_example = docker_section_lem pins containers

labels_test :
    map (λ d. d.label) (docker_section pins containers).containers ≡ lit "Site" ∷ lit "db" ∷ []
unfolding docker_section
labels_test = refl

abbrev checks : List CheckResult
checks =
    record { name = lit "router"; ok = true; dashboard = false }
    ∷ record { name = lit "printer"; ok = false; dashboard = false }
    ∷ []

abbrev view : Overview
view = build_services_overview (docker_section pins containers) [] [] checks

dimentica_servizio_example :
    dimentica_servizio http (lit "printer") view ≡ (true, rebuilt http (lit "printer") view)
unfolding rows_named build_services_overview
dimentica_servizio_example =
    dimentica_servizio_lem http (lit "printer") view refl (refl, refl, refl)

counts_test :
    let o = (dimentica_servizio http (lit "printer") view).1 in
    o.total ∷ o.ok ∷ o.down ∷ [] ≡ 3 ∷ 2 ∷ 1 ∷ []
unfolding dimentica_servizio build_services_overview docker_section
counts_test = refl

abbrev catalogue : Catalogue
catalogue = record {
  pinned = [];
  units = record { ident = lit "nginx"; rest = [] } ∷ record { ident = lit "ssh"; rest = [] } ∷ [];
  services = [];
  checks = [];
}

abbrev nginx : Entry
nginx = record { ident = lit "nginx"; rest = lit "critical" }

add-remove_example :
    let stored = with_list Section.systemd (store nginx.ident nginx catalogue.units) catalogue in
    (add Section.systemd nginx catalogue ≡ done stored)
    × (remove Section.systemd nginx.ident stored
        ≡ done (with_list Section.systemd (others nginx.ident catalogue.units) catalogue, 1))
unfolding list_of strip count text_eq
add-remove_example =
    add-remove Section.systemd nginx catalogue catalogue.units refl refl refl (omega arith)

-- An identifier with a blank is stored twice, and is not found without its blank.
abbrev blank : Entry
blank = record { ident = lit "nas "; rest = [] }

blank_test : store (lit "nas") blank (store (lit "nas") blank []) ≡ blank ∷ blank ∷ []
unfolding store
blank_test = refl

blank_stays : others (lit "nas") (blank ∷ []) ≡ blank ∷ []
unfolding others
blank_stays = refl

-- ===== src/Services/Forget.antt =====
-- `DataCollector.dimentica_servizio` in backend/services/collector.py: a service that was deleted
-- leaves the view that the clients have.
use lan_manager.Prelude.{
  ◌-◌, Bool, true, false, not, ◌&&◌, List, [], ◌∷◌, Option, none, some, Text, text_eq, any, filter,
  length, ◌==◌, if◌then◌else◌,
}
use lan_manager.Services.Systemd
use lan_manager.Services.Windows
use lan_manager.Services.Systemd.{UnitStatus}
use lan_manager.Services.Windows.{WindowsServiceStatus}
use lan_manager.Services.Overview.{DockerItem, CheckResult, Overview}

pub data ServiceKind : Type 0 where
  docker : ServiceKind
  systemd : ServiceKind
  windows_service : ServiceKind
  http : ServiceKind
  other : ServiceKind

unfoldable pub after_it : DockerItem → Option (List DockerItem) → Option (List DockerItem)
after_it c none = none
after_it c (some items) = some (c ∷ items)

-- The first container of the name without its pin.
unfoldable pub unpin : Text → List DockerItem → Option (List DockerItem)
unfolding text_eq after_it
unpin ident [] = none
unpin ident (c ∷ items) =
    let rest = after_it c (unpin ident items) in
    if text_eq c.name ident
    then some (record c { pinned = false; dashboard = false; url = []; label = c.name } ∷ items)
    else rest

-- `[x for x in lista if x.get("name") != ident]`
unfoldable pub resta {ℓ} : {A : Type ℓ} → (A → Text) → Text → List A → List A
unfolding filter text_eq
resta name_of ident = filter (λ x. not (text_eq (name_of x) ident))

-- Whether one of the rows that go was ok.
unfoldable pub tolto_ok {ℓ} : {A : Type ℓ} → (A → Text) → (A → Bool) → Text → List A → Bool
unfolding any text_eq
tolto_ok name_of ok_of ident = any (λ x. text_eq (name_of x) ident && ok_of x)

-- One service less in the counts.
unfoldable pub one_less : Bool → Overview → Overview
one_less was_ok o = record o {
  total = o.total - 1;
  ok = if was_ok then o.ok - 1 else o.ok;
  down = if was_ok then o.down else o.down - 1;
}

-- What a list of rows becomes, when it loses some.
unfoldable pub dropped {ℓ} :
    {A : Type ℓ}
    → (A → Text)
    → (A → Bool)
    → Text
    → List A
    → (List A → Overview)
    → Overview
    → Bool × Overview
unfolding resta tolto_ok one_less
dropped name_of ok_of ident rows with_rows o =
    let left = resta name_of ident rows in
    if length left == length rows
    then (false, o)
    else (true, one_less (tolto_ok name_of ok_of ident rows) (with_rows left))

unfoldable pub unpinned : Overview → Option (List DockerItem) → Bool × Overview
unpinned o none = (false, o)
unpinned o (some items) = (true, record o { docker = record (o.docker) { containers = items } })

-- `dimentica_servizio`, with whether something was removed.
unfoldable pub dimentica_servizio : ServiceKind → Text → Overview → Bool × Overview
unfolding unpin unpinned dropped Systemd.ok Windows.ok
dimentica_servizio docker ident o = unpinned o (unpin ident o.docker.containers)
dimentica_servizio systemd ident o =
    dropped (λ (u : UnitStatus). u.unit) Systemd.ok ident o.systemd
      (λ rows. record o { systemd = rows }) o
dimentica_servizio windows_service ident o =
    dropped (λ (w : WindowsServiceStatus). w.name) Windows.ok ident o.windows_services
      (λ rows. record o { windows_services = rows }) o
dimentica_servizio http ident o =
    dropped (λ (c : CheckResult). c.name) (λ c. c.ok) ident o.healthchecks
      (λ rows. record o { healthchecks = rows }) o
dimentica_servizio other ident o = (false, o)

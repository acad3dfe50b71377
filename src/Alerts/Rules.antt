-- ===== src/Alerts/Rules.antt =====
-- The rules of backend/services/alerts.py on containers, services, sources and hosts, with their
-- texts. What the snapshot lacks is an empty text, or `false`.
use lan_manager.Prelude.{
  ℕ, Bool, not, ◌&&◌, ◌||◌, List, [], ◌∷◌, ◌++◌, map, filter, max, Text, lit, text_eq, nonempty,
  or_text, strip, Dict, any, leb, if◌then◌else◌, get, or_else,
}
use lan_manager.Python.Decimal.{show}
use lan_manager.Python.Split.{split_parts}
use lan_manager.Alerts.{Alert}

-- The parts of an f-string.
unfoldable pub join : List Text → Text
join [] = []
join (s ∷ rest) = s ++ join rest

-- `Alert(...)`; the registry fills in what a rule leaves out.
abbrev pub alert : Text → Text → Text → Text → Text → Alert
alert subject source title detail action = record {
  rule = [];
  subject = subject;
  level = [];
  scope = [];
  title = title;
  detail = detail;
  action = action;
  source = source;
  since = 0;
}

pub record Container : Type 0 where
  pub host : Text
  pub name : Text
  pub status : Text

unfoldable pub restart_loop_alert : Container → Alert
unfolding join
restart_loop_alert c =
    let nome = or_text c.name (lit "?") in
    alert (if nonempty c.host then join (c.host ∷ lit "/" ∷ nome ∷ []) else nome) (lit "docker")
      (join (lit "Container " ∷ nome ∷ lit " in restart loop" ∷ []))
      (join (
        lit "Docker su "
        ∷ or_text c.host (lit "locale")
        ∷ lit
            " lo sta riavviando in continuazione: il processo dentro il container esce subito dopo l'avvio."
        ∷ []))
      (join (lit "Guarda perche' esce: docker logs --tail 50 " ∷ nome ∷ []))

unfoldable pub docker_restart_loop : List Container → List Alert
unfolding restart_loop_alert
docker_restart_loop containers =
    map restart_loop_alert (filter (λ c. text_eq c.status (lit "restarting")) containers)

-- `reachable` and `seen_ok` are true where they are missing.
pub record DockerHost : Type 0 where
  pub name : Text
  pub error : Text
  pub reachable : Bool
  pub seen_ok : Bool

unfoldable pub docker_host_alert : DockerHost → Alert
unfolding join
docker_host_alert h =
    let nome = or_text h.name (lit "?") in
    alert nome (lit "docker") (join (lit "Host Docker " ∷ nome ∷ lit " non raggiungibile" ∷ []))
      (join (
        or_text h.error (lit "nessuna risposta")
        ∷ lit
            ". I container di questo host non compaiono piu' nell'elenco e i conteggi dei servizi sono calati senza che li' sia cambiato nulla."
        ∷ []))
      (lit
        "Controlla che la macchina sia accesa e che l'SSH risponda; poi che l'utente configurato possa lanciare docker ps.")

unfoldable pub docker_host_giu : List DockerHost → List Alert
unfolding docker_host_alert
docker_host_giu hosts = map docker_host_alert (filter (λ h. not h.reachable && h.seen_ok) hosts)

pub record SystemdUnit : Type 0 where
  pub name : Text
  pub host : Text
  pub label : Text
  pub active_state : Text
  pub status : Text
  pub critical : Bool
  pub ok : Bool

unfoldable pub systemd_alert : SystemdUnit → Alert
unfolding join
systemd_alert u =
    let nome = or_text u.name (lit "?") in
    let stato = or_text u.active_state (or_text u.status (lit "sconosciuto")) in
    alert (if nonempty u.host then join (u.host ∷ lit ":" ∷ nome ∷ []) else nome) (lit "services")
      (join (or_text u.label nome ∷ lit " non attivo" ∷ []))
      (join (
        lit "L'unit systemd "
        ∷ nome
        ∷ lit " su "
        ∷ or_text u.host (lit "host locale")
        ∷ lit " e' in stato '"
        ∷ stato
        ∷ lit "', ed e' marcata critica in services.yaml."
        ∷ []))
      (join (
        lit "systemctl status "
        ∷ nome
        ∷ lit " sull'host, poi journalctl -u "
        ∷ nome
        ∷ lit " -n 50"
        ∷ []))

unfoldable pub systemd_giu : List SystemdUnit → List Alert
unfolding systemd_alert
systemd_giu units = map systemd_alert (filter (λ u. u.critical && not u.ok) units)

pub record WindowsService : Type 0 where
  pub name : Text
  pub host : Text
  pub label : Text
  pub state : Text
  pub error : Text
  pub available : Bool
  pub critical : Bool
  pub ok : Bool

unfoldable pub windows_alert : WindowsService → Alert
unfolding join
windows_alert w =
    let nome = or_text w.name (lit "?") in
    let host = or_text w.host (lit "?") in
    let etichetta = or_text w.label nome in
    let told : Text → Text → Text → Alert =
      alert (join (host ∷ lit ":" ∷ nome ∷ [])) (lit "services") in
    if not w.available
    then told (join (etichetta ∷ lit ": stato non leggibile" ∷ []))
        (join (
          lit "Non si riesce a leggere lo stato di "
          ∷ nome
          ∷ lit " su "
          ∷ host
          ∷ lit ": "
          ∷ or_text w.error (lit "motivo non riportato")
          ∷ lit "."
          ∷ []))
        (lit
          "Verifica che il PC sia acceso e che utente, porta e chiave SSH di quell'host siano giusti in Impostazioni -> Host SSH.")
    else if text_eq w.state (lit "not-found")
    then told (join (etichetta ∷ lit " non installato" ∷ []))
        (join (
          lit "Il servizio "
          ∷ nome
          ∷ lit " non esiste su "
          ∷ host
          ∷ lit ", ed e' marcato critico in services.yaml."
          ∷ []))
        (join (
          lit "Controlla il nome con `sc query "
          ∷ nome
          ∷ lit "` su quell'host, oppure togli la voce dalla pagina Servizi."
          ∷ []))
    else told (join (etichetta ∷ lit " non in esecuzione" ∷ []))
        (join (
          lit "Il servizio Windows "
          ∷ nome
          ∷ lit " su "
          ∷ host
          ∷ lit " e' in stato '"
          ∷ or_text w.state (lit "sconosciuto")
          ∷ lit "', ed e' marcato critico in services.yaml."
          ∷ []))
        (join (lit "Su quell'host: services.msc, oppure `sc start " ∷ nome ∷ lit "`." ∷ []))

unfoldable pub windows_giu : List WindowsService → List Alert
unfolding windows_alert
windows_giu services = map windows_alert (filter (λ w. w.critical && not w.ok) services)

pub record Healthcheck : Type 0 where
  pub name : Text
  pub kind : Text
  pub target : Text
  pub detail : Text
  pub ok : Bool

unfoldable pub healthcheck_alert : Healthcheck → Alert
unfolding join
healthcheck_alert c =
    let nome = or_text c.name (lit "?") in
    alert nome (lit "services") (join (nome ∷ lit " non risponde" ∷ []))
      (join (
        lit "Il controllo "
        ∷ or_text c.kind (lit "?")
        ∷ lit " su "
        ∷ or_text c.target (lit "?")
        ∷ lit " non passa: "
        ∷ or_text c.detail (lit "nessuna risposta")
        ∷ lit "."
        ∷ []))
      (lit
        "Verifica che il servizio sia acceso e che indirizzo e porta in services.yaml siano ancora quelli giusti.")

unfoldable pub healthcheck_giu : List Healthcheck → List Alert
unfolding healthcheck_alert
healthcheck_giu checks = map healthcheck_alert (filter (λ c. not c.ok) checks)

-- `_NOMI_SORGENTE`
unfoldable pub nomi_sorgente : Dict Text
nomi_sorgente =
    (lit "system", lit "il router")
    ∷ (lit "interfaces", lit "le interfacce del router")
    ∷ (lit "traffic", lit "il traffico WAN")
    ∷ (lit "devices", lit "la scoperta dei dispositivi")
    ∷ (lit "docker", lit "Docker")
    ∷ (lit "services", lit "i servizi")
    ∷ (lit "resources", lit "le risorse degli host")
    ∷ (lit "wireguard", lit "WireGuard")
    ∷ (lit "host_network", lit "la rete dell'host")
    ∷ []

-- `_SCOPE_SORGENTE`
unfoldable pub scope_sorgente : Dict Text
scope_sorgente =
    (lit "system", lit "dashboard")
    ∷ (lit "interfaces", lit "wan")
    ∷ (lit "traffic", lit "stats")
    ∷ (lit "devices", lit "devices")
    ∷ (lit "docker", lit "services")
    ∷ (lit "services", lit "services")
    ∷ (lit "resources", lit "resources")
    ∷ (lit "wireguard", lit "wireguard")
    ∷ (lit "host_network", lit "host")
    ∷ []

pub record Source : Type 0 where
  pub ok : Bool
  pub fails : ℕ
  pub since : ℕ
  pub error : Text
  -- The time of the last reading that succeeded, or zero.
  pub ts : ℕ

unfoldable pub source_alert : ℕ → Text → Source → Alert
unfolding join nomi_sorgente scope_sorgente
source_alert critical_after nome s =
    let a =
      alert nome (lit "collector")
        (join (lit "Dati fermi: " ∷ or_else (get nomi_sorgente nome) nome ∷ []))
        (join (
          or_text s.error (lit "sorgente non raggiungibile")
          ∷ lit " ("
          ∷ show s.fails
          ∷ lit " tentativi falliti di fila; "
          ∷ (if leb 1 s.ts
              then lit "i numeri mostrati sono quelli dell'ultima raccolta riuscita)"
              else lit "non e' mai riuscita)")
          ∷ []))
        (lit
          "Controlla che l'host di quella sorgente sia acceso e raggiungibile; il motivo esatto e' nei log del servizio.") in
    record a {
      level = if leb (max critical_after 1) s.fails then lit "critical" else lit "warn";
      scope = or_else (get scope_sorgente nome) (lit "dashboard");
      since = s.since;
    }

unfoldable pub sorgente_giu : ℕ → Dict Source → List Alert
unfolding source_alert
sorgente_giu critical_after [] = []
sorgente_giu critical_after ((nome, s) ∷ sources) =
    let rest = sorgente_giu critical_after sources in
    if s.ok then rest else source_alert critical_after nome s ∷ rest

-- `_chiave_sicurezza`: the head of the message, before a long dash or a colon.
unfoldable pub chiave_sicurezza : Text → Text
unfolding split_parts
chiave_sicurezza motivo = strip (split_parts b':' (split_parts 0x2014 motivo).0).0

unfoldable pub api_aperta : List Text → List Alert
unfolding chiave_sicurezza
api_aperta [] = []
api_aperta (motivo ∷ security) =
    alert (chiave_sicurezza motivo) (lit "security") (lit "L'API e' raggiungibile senza login")
      motivo
      (lit
        "Impostazioni -> Sicurezza: metti auth.method: basic con bypass_lan: false e una password admin.")
    ∷ api_aperta security

unfoldable pub nessun_host : Text → List Alert
nessun_host avviso =
    if not (nonempty avviso)
    then []
    else alert [] (lit "resources") (lit "Nessun host configurato per le risorse") avviso
        (lit "Impostazioni -> Host SSH: aggiungi almeno un host.")
      ∷ []

pub record SeenDevice : Type 0 where
  pub online : Bool
  pub ips : List Text

pub record SshHost : Type 0 where
  pub host : Text
  pub name : Text
  pub error : Text
  pub reachable : Bool
  pub skipped : Bool

unfoldable pub ssh_host_alert : SshHost → Alert
unfolding join
ssh_host_alert h =
    let ip = or_text h.host (lit "?") in
    alert ip (lit "resources") (join (lit "Risorse non leggibili da " ∷ or_text h.name ip ∷ []))
      (join (
        lit "L'host risponde al ping ma la lettura via SSH fallisce: "
        ∷ or_text h.error (lit "motivo non riportato")
        ∷ lit "."
        ∷ []))
      (lit "Verifica utente, porta e chiave SSH di quell'host in Impostazioni -> Host SSH.")

-- The address is that of a device that is known to be off.
abbrev pub is_off : List SeenDevice → Text → Bool
is_off devices host = any (λ d. not d.online && any (text_eq host) d.ips) devices

unfoldable pub host_ssh_giu : List SeenDevice → List SshHost → List Alert
unfolding ssh_host_alert
host_ssh_giu devices hosts =
    map ssh_host_alert (filter (λ h. not (h.reachable || h.skipped || is_off devices h.host)) hosts)

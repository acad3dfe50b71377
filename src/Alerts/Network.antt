-- ===== src/Alerts/Network.antt =====
-- The rules of backend/services/alerts.py on the network of the host and on WireGuard, with their
-- texts. `isdigit` is that of ASCII.
use lan_manager.Prelude.{
  ℕ, ◌+◌, ◌-◌, ◌/◌, Bool, true, false, not, ◌&&◌, ◌||◌, List, [], ◌∷◌, ◌++◌, map, filter, max, Text,
  lit, text_eq, nonempty, or_text, strip, any, length, leb, ltb, ◌==◌, Option, none, some,
  if◌then◌else◌,
}
use lan_manager.Python.Decimal.{show}
use lan_manager.Python.Ip.{all_digits}
use lan_manager.Python.Split.{split_first, split_last}
use lan_manager.Alerts.{Alert}
use lan_manager.Alerts.Rules.{alert, join}

pub record HostInterface : Type 0 where
  pub name : Text
  pub state : Text
  pub virtual_ : Bool
  pub addresses : List Text

unfoldable pub link_giu_con_ip : List HostInterface → List Alert
unfolding join
link_giu_con_ip [] = []
link_giu_con_ip (i ∷ interfaces) =
    let rest = link_giu_con_ip interfaces in
    if i.virtual_ || not (text_eq i.state (lit "down")) || not (nonempty i.addresses)
    then rest
    else alert i.name (lit "host") (join (i.name ∷ lit " ha un IP ma il link e' giu'" ∷ []))
        (lit
          "L'interfaccia e' configurata ma non ha portante: il cavo e' staccato o la scheda non e' stata attivata.")
        (lit
          "Se non serve piu', toglile l'indirizzo: cosi' non compare fra le interfacce attive e non confonde la diagnosi.")
      ∷ rest

pub record Route : Type 0 where
  pub default : Bool
  pub metric : Option ℕ
  pub dev : Text
  pub gateway : Text

unfoldable pub same_metric : Option ℕ → Option ℕ → Bool
same_metric (some a) (some b) = a == b
same_metric (some a) none = false
same_metric none (some b) = false
same_metric none none = true

-- `per_metrica.setdefault(metric, []).append(r)`
unfoldable pub add_route : Route → List (Option ℕ × List Route) → List (Option ℕ × List Route)
unfolding same_metric
add_route r [] = (r.metric, r ∷ []) ∷ []
add_route r ((m, g) ∷ groups) =
    let rest = add_route r groups in
    if same_metric m r.metric then (m, g ++ r ∷ []) ∷ groups else (m, g) ∷ rest

unfoldable pub by_metric : List Route → List (Option ℕ × List Route) → List (Option ℕ × List Route)
unfolding add_route
by_metric [] groups = groups
by_metric (r ∷ routes) groups = by_metric routes (add_route r groups)

-- The first group of more than one route.
unfoldable pub first_tie : List (Option ℕ × List Route) → List Route
first_tie [] = []
first_tie ((m, g) ∷ groups) = let rest = first_tie groups in if ltb 1 (length g) then g else rest

abbrev pub metric_text : Option ℕ → Text
metric_text none = lit "None"
metric_text (some n) = show n

unfoldable pub routes_text : List Route → Text
unfolding join
routes_text [] = []
routes_text (r ∷ routes) =
    let rest = routes_text routes in
    let via =
      join (
        r.dev ∷ lit " via " ∷ r.gateway ∷ lit " (metrica " ∷ metric_text r.metric ∷ lit ")" ∷ []) in
    if nonempty routes then join (via ∷ lit ", " ∷ rest ∷ []) else via

unfoldable pub default_route_multipla : List Route → List Alert
unfolding by_metric first_tie routes_text
default_route_multipla routes =
    let rotte = first_tie (by_metric (filter (λ r. r.default) routes) []) in
    if ltb (length rotte) 2
    then []
    else alert [] (lit "host")
        (join (show (length rotte) ∷ lit " default route con la stessa metrica" ∷ []))
        (join (
          lit
            "A parita' di metrica il kernel non ha un criterio stabile: il traffico in uscita puo' cambiare strada senza preavviso fra "
          ∷ routes_text rotte
          ∷ lit "."
          ∷ []))
        (lit
          "Distanzia le metriche (piu' bassa = preferita) perche' la scelta sia prevedibile, o lascia una sola via predefinita.")
      ∷ []

unfoldable pub count : ℕ → Text → ℕ
count d [] = 0
count d (c ∷ s) = if c == d then count d s + 1 else count d s

-- `testa if coda.isdigit() else ep`, for the two parts at the last colon.
unfoldable pub without_port : Text → Text
unfolding all_digits
without_port ep = elim (split_last b':' ep) [
  | none ↦ ep
  | some (testa, coda) ↦ if nonempty coda && all_digits coda then testa else ep
]

unfoldable pub bracketed : Text → Text
bracketed ep = elim (split_first b']' ep) [ none ↦ ep | some (inside, rest) ↦ inside ]

unfoldable pub endpoint_host : Text → Text
unfolding bracketed count without_port
endpoint_host [] = []
endpoint_host (c ∷ ep) =
    if c == b'['
    then bracketed ep
    else if not (count b':' (c ∷ ep) == 1)
    then c ∷ ep
    else without_port (c ∷ ep)

-- `_host_endpoint`
unfoldable pub host_endpoint : Text → Text
unfolding endpoint_host
host_endpoint endpoint = endpoint_host (strip endpoint)

pub record Peer : Type 0 where
  pub name : Text
  pub endpoint : Text
  pub last_handshake : ℕ

pub record WgInterface : Type 0 where
  pub name : Text
  pub peers : List Peer

-- `HANDSHAKE_ATTIVO`
abbrev pub handshake_attivo : ℕ
handshake_attivo = 180

-- The peer is the relay and has made no handshake for too long.
unfoldable pub is_relay_down : ℕ → Text → Peer → Bool
is_relay_down now relay p =
    text_eq (host_endpoint p.endpoint) relay
    && not (leb 1 p.last_handshake && leb now (p.last_handshake + handshake_attivo))

unfoldable pub relay_alert : ℕ → Text → Text → Peer → Alert
unfolding join
relay_alert now relay name p =
    let nome = or_text name (lit "wg") in
    let a =
      alert (join (nome ∷ lit "/" ∷ relay ∷ [])) (lit "wireguard")
        (join (lit "Il tunnel WireGuard verso " ∷ relay ∷ lit " e' giu'" ∷ []))
        (if p.last_handshake == 0
          then lit "Nessun handshake da quando l'interfaccia e' stata caricata."
          else join (
              lit "Ultimo handshake "
              ∷ show (max 1 ((now - p.last_handshake) / 60))
              ∷ lit " minuti fa: con il tunnel su ce n'e' uno almeno ogni due minuti."
              ∷ []))
        (join (
          lit "Sul router: `wg show "
          ∷ nome
          ∷ lit
              "` e controlla che la WAN sia su. Se il relay ha cambiato indirizzo, aggiorna l'endpoint del peer e `wireguard.relay_host` in Impostazioni."
          ∷ [])) in
    record a { since = p.last_handshake }

unfoldable pub relay_alerts : ℕ → Text → List WgInterface → List Alert
unfolding is_relay_down relay_alert
relay_alerts now relay [] = []
relay_alerts now relay (i ∷ interfaces) =
    map (relay_alert now relay i.name) (filter (is_relay_down now relay) i.peers)
    ++ relay_alerts now relay interfaces

unfoldable pub relay_giu : Text → ℕ → List WgInterface → List Alert
unfolding relay_alerts
relay_giu relay_host now interfaces =
    let relay = host_endpoint relay_host in
    if not (nonempty relay) then [] else relay_alerts now relay interfaces

unfoldable pub peers_of : List WgInterface → List Peer
peers_of [] = []
peers_of (i ∷ interfaces) = i.peers ++ peers_of interfaces

unfoldable pub relay_non_trovato : Text → List WgInterface → List Alert
unfolding peers_of join
relay_non_trovato relay_host interfaces =
    let relay = host_endpoint relay_host in
    let peers = peers_of interfaces in
    if not (nonempty relay)
      || not (nonempty peers)
      || any (λ p. text_eq (host_endpoint p.endpoint) relay) peers
    then []
    else alert relay (lit "wireguard")
        (join (lit "Il relay " ∷ relay ∷ lit " non corrisponde a nessun peer" ∷ []))
        (lit
          "`wireguard.relay_host` dice che il tunnel va li', ma nessun peer del router ha quell'endpoint: l'avviso sul tunnel giu' non ha nulla da sorvegliare.")
        (lit
          "Correggi `wireguard.relay_host` in Impostazioni con l'endpoint vero del peer, oppure lascialo vuoto se non c'e' un tunnel che deve stare sempre su.")
      ∷ []

unfoldable pub peer_alert : Text → Peer → Alert
unfolding join
peer_alert name p =
    let nome = or_text p.name (lit "peer") in
    alert (join (or_text name (lit "wg") ∷ lit "/" ∷ nome ∷ [])) (lit "wireguard")
      (join (lit "Il peer " ∷ nome ∷ lit " non si e' mai collegato" ∷ []))
      (lit "Nessun handshake da quando il router ha caricato l'interfaccia.")
      (lit "Se il peer non serve piu', toglilo dalla configurazione del router.")

unfoldable pub peer_mai_connesso : List WgInterface → List Alert
unfolding peer_alert
peer_mai_connesso [] = []
peer_mai_connesso (i ∷ interfaces) =
    map (peer_alert i.name) (filter (λ p. p.last_handshake == 0) i.peers)
    ++ peer_mai_connesso interfaces

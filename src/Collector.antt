-- ===== src/Collector.antt =====
-- The state of `DataCollector` in backend/services/collector.py: the states of the sources, the
-- series of the traffic and the rates of the uplink, and the marks of shared devices. The clocks
-- and what the router answers are arguments.
pub mod Sources
pub mod Traffic
mod Tests
use lan_manager.Prelude.{
  ℕ, zero, suc, ◌+◌, ◌-◌, ◌*◌, ◌/◌, ◌%◌, Bool, true, false, not, ◌&&◌, ◌||◌, List, [], ◌∷◌, ◌++◌,
  Option, none, some, Text, lit, text_eq, nonempty, ltb, leb, ◌==◌, if◌then◌else◌, Dict, get, put,
  or_else, find, any, filter, drop, length, map,
}
use lan_manager.Python.Decimal.{show}

-- An entry of `sources`: a success has no error.
pub record Source : Type 0 where
  pub ok : Bool
  pub ts : Option ℕ
  pub error : Text
  pub since : Option ℕ
  pub fails : ℕ

abbrev pub Sources : Type 0
Sources = Dict Source

-- `_sorgente_ok`
unfoldable pub sorgente_ok : Sources → Text → ℕ → Sources
unfolding put
sorgente_ok sources nome now =
    put sources nome (record { ok = true; ts = some now; error = []; since = none; fails = 0 })

abbrev pub unknown_source : Source
unknown_source = record { ok = true; ts = none; error = []; since = none; fails = 0 }

-- `since or now`
abbrev pub or_now : Option ℕ → ℕ → ℕ
or_now none now = now
or_now (some zero) now = now
or_now (some (suc t)) now = suc t

-- The state of a source after a failure, from the one before.
unfoldable pub failed : Source → Text → ℕ → Source
failed prec error now = record {
  ok = false;
  ts = prec.ts;
  error = error;
  since = some (or_now prec.since now);
  fails = prec.fails + 1;
}

-- `_sorgente_ko`
unfoldable pub sorgente_ko : Sources → Text → Text → ℕ → Sources
unfolding put get failed
sorgente_ko sources nome error now =
    put sources nome (failed (or_else (get sources nome) unknown_source) error now)

-- A network of the router, with what `_mark_shared_devices` writes.
pub record Network : Type 0 where
  pub name : Text
  pub ifname : Text
  pub rx_bytes : ℕ
  pub tx_bytes : ℕ
  pub counters_own : Bool
  pub shared_with : List Text

-- The names of the networks on one device.
unfoldable pub names_on : Text → List Network → List Text
unfolding text_eq
names_on device [] = []
names_on device (r ∷ rows) =
    let rest = names_on device rows in if text_eq r.ifname device then r.name ∷ rest else rest

-- The row marked: whether another row of the device stands before it, and the names of all of them.
unfoldable pub mark_row : Bool → List Text → Network → Network
mark_row is_first names r = record r {
  counters_own = is_first;
  shared_with = if ltb 1 (length names) then filter (λ n. not (text_eq n r.name)) names else [];
}

-- `_mark_shared_devices`; a network without a device is left as it is.
unfoldable pub mark_from : List Network → List Text → List Network → List Network
unfolding names_on mark_row any text_eq
mark_from all seen [] = []
mark_from all seen (r ∷ rows) =
    if nonempty r.ifname
    then mark_row (not (any (text_eq r.ifname) seen)) (names_on r.ifname all) r
      ∷ mark_from all (r.ifname ∷ seen) rows
    else r ∷ mark_from all (r.ifname ∷ seen) rows

unfoldable pub mark_shared_devices : List Network → List Network
unfolding mark_from
mark_shared_devices rows = mark_from rows [] rows

-- `router.wan_interface` and `router.wan_candidates`
pub record WanConfig : Type 0 where
  pub wan_interface : Text
  pub wan_candidates : List Text

abbrev pub first_of : Option Network → Option Network → Option Network
first_of none o = o
first_of (some i) o = some i

-- `_pick_wan_interface`
unfoldable pub pick_wan_interface : WanConfig → List Network → Option Network
unfolding find any text_eq
pick_wan_interface cfg ifaces =
    let configured =
      if nonempty cfg.wan_interface
      then find (λ i. text_eq i.name cfg.wan_interface) ifaces
      else none in
    let candidate = find (λ i. any (text_eq i.name) cfg.wan_candidates) ifaces in
    let busy = find (λ i. ltb 0 i.rx_bytes) ifaces in first_of configured (first_of candidate busy)

-- `_last_wan`; the time is that of the monotonic clock.
pub record Reading : Type 0 where
  pub name : Text
  pub rx : ℕ
  pub tx : ℕ
  pub t : ℕ

-- A rate is a number of bits and the time they took.
pub record Rate : Type 0 where
  pub bits : ℕ
  pub elapsed : ℕ

-- Whether two readings can be compared.
unfoldable pub comparable : Reading → Reading → Bool
unfolding text_eq
comparable prev now =
    text_eq prev.name now.name && not (leb now.t prev.t || ltb now.rx prev.rx || ltb now.tx prev.tx)

unfoldable pub rates_between : Option Reading → Reading → Option (Rate × Rate)
unfolding comparable
rates_between none now = none
rates_between (some prev) now =
    if comparable prev now
    then some (
      record { bits = (now.rx - prev.rx) * 8; elapsed = now.t - prev.t },
      record { bits = (now.tx - prev.tx) * 8; elapsed = now.t - prev.t },
    )
    else none

-- `_wan_rates`: the rates, and the reading that is kept.
unfoldable pub wan_rates :
    Option Reading → Option Network → ℕ → Option (Rate × Rate) × Option Reading
unfolding rates_between
wan_rates prev none now = (none, none)
wan_rates prev (some wan) now =
    let reading : Reading = record {
      name = wan.name;
      rx = wan.rx_bytes;
      tx = wan.tx_bytes;
      t = now;
    } in
    (rates_between prev reading, some reading)

abbrev pub max_points : ℕ
max_points = 120

-- `series.append(point)`, and `series.pop(0)` when it is too long
unfoldable pub push_point {ℓ} : {A : Type ℓ} → List A → A → List A
push_point series p =
    let longer = series ++ p ∷ [] in
    if ltb max_points (length longer) then drop 1 longer else longer

-- `_fmt_uptime`
unfoldable pub fmt_uptime : ℕ → Text
unfolding show
fmt_uptime seconds =
    let d = seconds / 86400 in
    let h = seconds % 86400 / 3600 in
    let m = seconds % 3600 / 60 in
    if ltb 0 d
    then show d ++ (lit "d " ++ (show h ++ (lit "h " ++ (show m ++ lit "m"))))
    else if ltb 0 h
    then show h ++ (lit "h " ++ (show m ++ lit "m"))
    else show m ++ lit "m"

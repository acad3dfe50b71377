-- ===== src/Alerts.antt =====
-- `AlertRegistry` of backend/services/alerts.py: the evaluation of the rules of the catalogue on a
-- snapshot, with the memory of when each alert was seen. `time.time()` is a count of seconds,
-- passed as `now`; a rule is any function of the snapshot, `none` where it raises.
pub mod Order
pub mod Memory
pub mod Build
pub mod Summary
pub mod Rules
pub mod Network
pub mod Watch
mod Tests
use lan_manager.Prelude.{
  ℕ, ◌+◌, Bool, true, false, not, ◌&&◌, ◌||◌, List, [], ◌∷◌, ◌++◌, map, Option, none, some, Text,
  lit, text_before, text_eq, nonempty, or_text, Dict, get, put, pop, any, is_some, ltb, leb, ◌==◌,
  if◌then◌else◌, or_else,
}
use lan_manager.Python.Decimal.{Signed}

-- `FINESTRA_OBLIO`
abbrev pub finestra_oblio : ℕ
finestra_oblio = 600

pub record Alert : Type 0 where
  pub rule : Text
  pub subject : Text
  pub level : Text
  pub scope : Text
  pub title : Text
  pub detail : Text
  pub action : Text
  pub source : Text
  pub since : ℕ

-- `Alert.id`
unfoldable pub alert_id : Alert → Text
alert_id a = a.rule ++ b':' ∷ a.subject

pub record Regola (Snap : Type 0) : Type 0 where
  pub fn : Snap → Option (List Alert)
  pub level : Text
  pub scope : Text
  pub min_seconds : Option Signed
  pub enabled : Bool

-- `AlertRule`, the override of a rule in the configuration.
pub record AlertRule : Type 0 where
  pub enabled : Option Bool
  pub level : Option Text
  pub min_seconds : Option Signed

pub record AlertSilence : Type 0 where
  pub rule : Text
  pub subject : Text

pub record AlertsConfig : Type 0 where
  pub enabled : Bool
  pub min_seconds : Signed
  pub rules : Dict AlertRule
  pub silenced : List AlertSilence

pub record AlertRegistry : Type 0 where
  pub primo : Dict ℕ
  pub visto : Dict ℕ

-- `max(n, 0)`
abbrev pub at_least_zero : Signed → ℕ
at_least_zero n = if n.negative then 0 else n.size

unfoldable pub zittito : AlertsConfig → Alert → Bool
zittito cfg a =
    any (λ s. text_eq s.rule a.rule && (not (nonempty s.subject) || text_eq s.subject a.subject))
      cfg.silenced

-- `self._primo.setdefault(k, v)` and `visti.setdefault(k, v)`
unfoldable pub setdefault {ℓ} : {V : Type ℓ} → Dict V → Text → V → Dict V
setdefault d k v = if is_some (get d k) then d else put d k v

-- The alerts by their identifiers: of two with one identifier the first stays.
unfoldable pub collect : List Alert → Dict Alert → Dict Alert
unfolding setdefault
collect [] visti = visti
collect (a ∷ rest) visti = collect rest (setdefault visti (alert_id a) a)

-- The loop of `_scorda` over the entries of `_visto`.
unfoldable pub scorda_each : ℕ → Dict Alert → Dict ℕ → AlertRegistry → AlertRegistry
scorda_each now visti [] reg = reg
scorda_each now visti ((aid, quando) ∷ items) reg = scorda_each now visti items (
    if not (is_some (get visti aid)) && ltb (quando + finestra_oblio) now
    then record { primo = pop reg.primo aid; visto = pop reg.visto aid }
    else reg)

unfoldable pub scorda : ℕ → Dict Alert → AlertRegistry → AlertRegistry
unfolding scorda_each
scorda now visti reg = scorda_each now visti reg.visto reg

-- `a.since or primo`
unfoldable pub or_seconds : ℕ → ℕ → ℕ
or_seconds since primo = if since == 0 then primo else since

-- The first steps on an alert: the memory is written and `since` is set.
unfoldable pub stamp : ℕ → Alert → AlertRegistry → Alert × AlertRegistry
unfolding or_seconds setdefault
stamp now a reg =
    let primo = setdefault reg.primo (alert_id a) now in
    (
      record a { since = or_seconds a.since (or_else (get primo (alert_id a)) now) },
      record { primo = primo; visto = put reg.visto (alert_id a) now },
    )

-- The index in `_LIVELLI`, or 9.
unfoldable pub level_index : Text → ℕ
level_index level =
    if text_eq level (lit "critical")
    then 0
    else if text_eq level (lit "warn")
    then 1
    else if text_eq level (lit "info")
    then 2
    else 9

-- The order of the keys of `fuori.sort`.
unfoldable pub before : Alert → Alert → Bool
before a b =
    ltb (level_index a.level) (level_index b.level)
    || level_index a.level == level_index b.level
      && (text_before a.scope b.scope
          || text_eq a.scope b.scope
            && (text_before a.title b.title
                || text_eq a.title b.title && text_before a.subject b.subject))

-- The sort of Python is stable: an alert goes before those that are not before it.
unfoldable pub insert : Alert → List Alert → List Alert
insert a [] = a ∷ []
insert a (b ∷ bs) = let rest = insert a bs in if before b a then b ∷ rest else a ∷ b ∷ bs

unfoldable pub sort : List Alert → List Alert
unfolding insert
sort [] = []
sort (a ∷ rest) = insert a (sort rest)

abbrev pub over_level : Option AlertRule → Text
over_level none = []
over_level (some over) = or_else over.level []

abbrev pub over_seconds : Option AlertRule → Option Signed
over_seconds none = none
over_seconds (some over) = over.min_seconds

module _ {Snap : Type 0} where
  unfoldable pub abilitata : Regola Snap → Option AlertRule → Bool
  abilitata rule none = rule.enabled
  abilitata rule (some over) = or_else over.enabled rule.enabled

  abbrev pub rule_seconds : Option (Regola Snap) → Option Signed
  rule_seconds none = none
  rule_seconds (some rule) = rule.min_seconds

  unfoldable pub attesa : AlertsConfig → Option (Regola Snap) → Option AlertRule → ℕ
  attesa cfg rule over = elim (over_seconds over) [
    | some n ↦ at_least_zero n
    | none ↦ elim (rule_seconds rule) [
      | some n ↦ at_least_zero n
      | none ↦ at_least_zero cfg.min_seconds
    ]
  ]

  -- What `build` fills in of an alert that a rule made.
  unfoldable pub complete : Text → Regola Snap → Option AlertRule → Alert → Alert
  complete key rule over a = record a {
    rule = or_text a.rule key;
    level = or_text (over_level over) (or_text a.level rule.level);
    scope = or_text a.scope rule.scope;
  }

  -- The loop over the catalogue; a rule that raises adds nothing.
  unfoldable pub grezzi : AlertsConfig → Dict (Regola Snap) → Snap → List Alert
  unfolding abilitata complete
  grezzi cfg [] snap = []
  grezzi cfg ((key, rule) ∷ rules) snap =
      let rest = grezzi cfg rules snap in
      let over = get cfg.rules key in
      if not (abilitata rule over) then rest else elim (rule.fn snap) [
        | none ↦ rest
        | some prodotti ↦ map (complete key rule over) prodotti ++ rest
      ]

  -- Whether the alert is told: it is not silenced and has lasted.
  unfoldable pub suona : AlertsConfig → Dict (Regola Snap) → ℕ → Alert → Bool
  unfolding attesa
  suona cfg catalogo now a =
      let wait = attesa cfg (get catalogo a.rule) (get cfg.rules a.rule) in
      not (zittito cfg a) && (wait == 0 || leb (a.since + wait) now)

  -- The loop over the alerts.
  unfoldable pub judge :
      AlertsConfig
      → Dict (Regola Snap)
      → ℕ
      → Dict Alert
      → AlertRegistry
      → List Alert × AlertRegistry
  unfolding stamp suona
  judge cfg catalogo now [] reg = ([], reg)
  judge cfg catalogo now ((aid, a) ∷ visti) reg =
      let (a', reg') = stamp now a reg in
      let (rest, reg'') = judge cfg catalogo now visti reg' in
      (if suona cfg catalogo now a' then a' ∷ rest else rest, reg'')

  unfoldable pub build :
      AlertsConfig → Dict (Regola Snap) → ℕ → Snap → AlertRegistry → List Alert × AlertRegistry
  unfolding judge
  build cfg catalogo now snap reg =
      if not cfg.enabled
      then ([], record { primo = []; visto = [] })
      else (let visti = collect (grezzi cfg catalogo snap) [] in
          let (fuori, reg') = judge cfg catalogo now visti (scorda now visti reg) in
          (sort fuori, reg'))

-- ===== src/Alerts/Build.antt =====
-- Which alerts `build` of backend/services/alerts.py tells, and in which order.
use mathlib.Core.List.{Permᴰ}
use lan_manager.Prelude.{
  ℕ, ◌≡◌, refl, ap, ◌∙◌, true, false, List, [], ◌∷◌, ◌++◌, map, Option, none, Text, text_eq_iff,
  text_eq_refl, Dict, get, is_some, arith, or_else, filter,
}
use lan_manager.Alerts.{
  Alert, Regola, AlertsConfig, AlertRegistry, alert_id, scorda, stamp, setdefault, judge, build,
  grezzi, suona, or_seconds, sort,
}
use lan_manager.Alerts.Order.{in_order, in_order-sort, Permᴰ-sort}
use lan_manager.Alerts.Memory.{
  get-setdefault, own, own-collect, alerts_of, runs_out, scorda_each-primo,
}

-- The alert with the time from which it lasts: its own, or that of the memory, or now.
unfoldable pub dated : Dict ℕ → ℕ → Alert → Alert
dated primo now a = record a { since = or_seconds a.since (or_else (get primo (alert_id a)) now) }

abbrev pub values : Dict Alert → List Alert
values [] = []
values ((k, a) ∷ d) = a ∷ values d

-- A time that was set to now where there was none is now all the same.
or_else-setdefault :
    (primo : Dict ℕ) (now : ℕ) (aid k : Text)
    → or_else (get (setdefault primo aid now) k) now ≡ or_else (get primo k) now
or_else-setdefault primo now aid k =
    ground (arith, get-setdefault primo aid k now, text_eq_iff aid k)

-- The alerts that two memories date alike.
map-dated :
    (p q : Dict ℕ) (now : ℕ) (d : Dict Alert)
    → own d ≡ true
    → ((k : Text) → is_some (get d k) ≡ true → or_else (get p k) now ≡ or_else (get q k) now)
    → map (dated p now) (values d) ≡ map (dated q now) (values d)
unfolding dated own get
map-dated p q now [] h same = refl
map-dated p q now ((k, a) ∷ d) h same = rw (map-dated p q now d (ground arith) later) (
    ap (λ t. record a { since = or_seconds a.since t } ∷ map (dated q now) (values d))
      (same (alert_id a) first))
  where
    first : is_some (get ((k, a) ∷ d) (alert_id a)) ≡ true
    first = ground (arith, text_eq_iff (alert_id a) k, text_eq_refl k)

    later : (j : Text) → is_some (get d j) ≡ true → or_else (get p j) now ≡ or_else (get q j) now
    later j e = same j (ground arith)

module _ {Snap : Type 0} (cfg : AlertsConfig) (catalogo : Dict (Regola Snap)) (now : ℕ) where
  judge-filter :
      (visti : Dict Alert) (reg : AlertRegistry)
      → own visti ≡ true
      → (judge cfg catalogo now visti reg).0
        ≡ filter (suona cfg catalogo now) (map (dated reg.primo now) (values visti))
  unfolding judge filter dated own
  judge-filter [] reg mine = refl
  judge-filter ((k, a) ∷ visti) reg mine =
      let (_, reg') = stamp now a reg in
      rw
        (
          judge-filter visti reg' (ground arith),
          map-dated reg'.primo reg.primo now visti (ground arith)
              (λ j _. or_else-setdefault reg.primo now (alert_id a) j),
          or_else-setdefault reg.primo now (alert_id a) (alert_id a),
        )
        refl

  -- An alert that is raised is not forgotten.
  runs_out_raised :
      (visti : Dict Alert) (aid : Text) (items : Dict ℕ)
      → is_some (get visti aid) ≡ true
      → runs_out now visti aid items ≡ false
  unfolding runs_out
  runs_out_raised visti aid [] h = refl
  runs_out_raised visti aid ((k, quando) ∷ items) h =
      ground (arith, runs_out_raised visti aid items)

  get-scorda :
      (visti : Dict Alert) (reg : AlertRegistry) (aid : Text)
      → is_some (get visti aid) ≡ true
      → get (scorda now visti reg).primo aid ≡ get reg.primo aid
  unfolding scorda
  get-scorda visti reg aid h =
      ground (
        arith,
        scorda_each-primo now visti reg.visto reg aid,
        runs_out_raised visti aid reg.visto h,
      )

  -- The alerts to tell: those raised, dated by the memory as it was, that are not silenced and
  -- have lasted.
  abbrev pub to_tell : Snap → AlertRegistry → List Alert
  to_tell snap reg =
      filter (suona cfg catalogo now)
        (map (dated reg.primo now) (values (alerts_of cfg catalogo snap)))

  build-sort :
      (snap : Snap) (reg : AlertRegistry)
      → cfg.enabled ≡ true
      → (build cfg catalogo now snap reg).0
        ≡ sort
            (judge cfg catalogo now
              (alerts_of cfg catalogo snap)
              (scorda now (alerts_of cfg catalogo snap) reg)).0
  unfolding build
  build-sort snap reg on = ground arith

  build-to_tell :
      (snap : Snap) (reg : AlertRegistry)
      → cfg.enabled ≡ true
      → (build cfg catalogo now snap reg).0 ≡ sort (to_tell snap reg)
  unfolding own
  build-to_tell snap reg on =
      let visti = alerts_of cfg catalogo snap in
      let mine = own-collect (grezzi cfg catalogo snap) [] refl in
      build-sort snap reg on
      ∙ ap sort (
          judge-filter visti (scorda now visti reg) mine
          ∙ ap (filter (suona cfg catalogo now)) (
              map-dated (scorda now visti reg).primo reg.primo now visti mine
                (λ k h. ap (λ (o : Option ℕ). or_else o now) (get-scorda visti reg k h))))

  -- `build` tells the alerts that are raised, not silenced and old enough, each dated by its rule
  -- or else by the memory as it was before, and no others, in the order of level, scope, title
  -- and subject, when the alerts are enabled.
  pub build_lem :
      (snap : Snap) (reg : AlertRegistry)
      → cfg.enabled ≡ true
      → Permᴰ (build cfg catalogo now snap reg).0 (to_tell snap reg)
        × (in_order (build cfg catalogo now snap reg).0 ≡ true)
  build_lem snap reg on =
      rw (build-to_tell snap reg on)
        (Permᴰ-sort (to_tell snap reg), in_order-sort (to_tell snap reg))

-- A rule that raises hides no alert of the others: the alerts are those of the catalogue
-- without it.
pub grezzi-raises :
    {Snap : Type 0} (cfg : AlertsConfig) (front back : Dict (Regola Snap)) (key : Text)
    (rule : Regola Snap) (snap : Snap)
    → rule.fn snap ≡ none
    → grezzi cfg (front ++ (key, rule) ∷ back) snap ≡ grezzi cfg (front ++ back) snap
unfolding grezzi
grezzi-raises cfg [] back key rule snap h = ground arith
grezzi-raises cfg ((k, r) ∷ rules) back key rule snap h =
    ground (arith, grezzi-raises cfg rules back key rule snap h)

-- ===== src/Alerts/Memory.antt =====
-- What `AlertRegistry` of backend/services/alerts.py remembers after a `build`.
use lan_manager.Prelude.{
  unique_keys, unique_keys-put, unique_keys-pop, ℕ, ◌+◌, ◌≡◌, refl, Bool, true, false, not, ◌&&◌,
  ◌||◌, List, [], ◌∷◌, none, some, Text, text_eq, text_eq_iff, text_eq_refl, Dict, get, put, pop,
  get-put, get-pop, is_some, ltb, arith, if◌then◌else◌, or_else,
}
use lan_manager.Alerts.{
  Alert, Regola, AlertsConfig, AlertRegistry, alert_id, setdefault, collect, scorda_each, scorda,
  stamp, judge, build, grezzi, finestra_oblio,
}

pub get-setdefault {ℓ} :
    {V : Type ℓ} (d : Dict V) (k j : Text) (v : V)
    → get (setdefault d k v) j ≡ (if text_eq k j then some (or_else (get d k) v) else get d j)
unfolding setdefault
get-setdefault d k j v = ground (arith, get-put d k j v, text_eq_iff k j)

-- Every alert stands under its own identifier.
unfoldable pub own : Dict Alert → Bool
own [] = true
own ((k, a) ∷ d) = text_eq (alert_id a) k && own d

own-put : (d : Dict Alert) (a : Alert) → own d ≡ true → own (put d (alert_id a) a) ≡ true
unfolding own put
own-put [] a h = ground (arith, text_eq_refl (alert_id a))
own-put ((k, b) ∷ d) a h =
    ground (arith, own-put d a, text_eq_iff k (alert_id a), text_eq_refl (alert_id a))

pub own-collect : (xs : List Alert) (d : Dict Alert) → own d ≡ true → own (collect xs d) ≡ true
unfolding collect setdefault
own-collect [] d h = h
own-collect (a ∷ xs) d h =
    own-collect xs (setdefault d (alert_id a) a) (ground (arith, own-put d a))

-- The memory of an identifier has run out: it is not among the alerts and some entry of the list
-- is older than the window.
unfoldable pub runs_out : ℕ → Dict Alert → Text → Dict ℕ → Bool
runs_out now visti aid [] = false
runs_out now visti aid ((k, quando) ∷ items) =
    text_eq k aid && not (is_some (get visti aid)) && ltb (quando + finestra_oblio) now
    || runs_out now visti aid items

pub scorda_each-primo :
    (now : ℕ) (visti : Dict Alert) (items : Dict ℕ) (reg : AlertRegistry) (aid : Text)
    → get (scorda_each now visti items reg).primo aid
      ≡ (if runs_out now visti aid items then none else get reg.primo aid)
unfolding scorda_each runs_out
scorda_each-primo now visti [] reg aid = refl
scorda_each-primo now visti ((k, quando) ∷ items) reg aid = ground (
  arith,
  scorda_each-primo now visti items reg aid,
  scorda_each-primo now visti items (record { primo = pop reg.primo k; visto = pop reg.visto k })
      aid,
  get-pop reg.primo k aid,
  text_eq_iff k aid,
)

pub judge-primo :
    {Snap : Type 0} (cfg : AlertsConfig) (catalogo : Dict (Regola Snap)) (now : ℕ)
    (visti : Dict Alert) (reg : AlertRegistry) (aid : Text)
    → own visti ≡ true
    → get (judge cfg catalogo now visti reg).1.primo aid ≡ (
        if is_some (get visti aid)
        then some (or_else (get reg.primo aid) now)
        else get reg.primo aid)
unfolding judge own get
judge-primo cfg catalogo now [] reg aid h = refl
judge-primo cfg catalogo now ((k, a) ∷ visti) reg aid h = ground (
  arith,
  judge-primo cfg catalogo now visti (stamp now a reg).1 aid,
  get-setdefault reg.primo (alert_id a) aid now,
  text_eq_iff (alert_id a) k,
  text_eq_iff k aid,
  text_eq_iff (alert_id a) aid,
)

scorda_each-visto :
    (now : ℕ) (visti : Dict Alert) (items : Dict ℕ) (reg : AlertRegistry) (aid : Text)
    → get (scorda_each now visti items reg).visto aid
      ≡ (if runs_out now visti aid items then none else get reg.visto aid)
unfolding scorda_each runs_out
scorda_each-visto now visti [] reg aid = refl
scorda_each-visto now visti ((k, quando) ∷ items) reg aid = ground (
  arith,
  scorda_each-visto now visti items reg aid,
  scorda_each-visto now visti items (record { primo = pop reg.primo k; visto = pop reg.visto k })
      aid,
  get-pop reg.visto k aid,
  text_eq_iff k aid,
)

judge-visto :
    {Snap : Type 0} (cfg : AlertsConfig) (catalogo : Dict (Regola Snap)) (now : ℕ)
    (visti : Dict Alert) (reg : AlertRegistry) (aid : Text)
    → own visti ≡ true
    → get (judge cfg catalogo now visti reg).1.visto aid
      ≡ (if is_some (get visti aid) then some now else get reg.visto aid)
unfolding judge own get
judge-visto cfg catalogo now [] reg aid h = refl
judge-visto cfg catalogo now ((k, a) ∷ visti) reg aid h = ground (
  arith,
  judge-visto cfg catalogo now visti (stamp now a reg).1 aid,
  get-put reg.visto (alert_id a) aid now,
  text_eq_iff (alert_id a) k,
  text_eq_iff k aid,
  text_eq_iff (alert_id a) aid,
)

scorda_each-unique_keys :
    (now : ℕ) (visti : Dict Alert) (items : Dict ℕ) (reg : AlertRegistry)
    → unique_keys reg.visto ≡ true
    → unique_keys (scorda_each now visti items reg).visto ≡ true
unfolding scorda_each
scorda_each-unique_keys now visti [] reg h = h
scorda_each-unique_keys now visti ((k, quando) ∷ items) reg h = ground (
  arith,
  scorda_each-unique_keys now visti items reg,
  scorda_each-unique_keys now visti items
      (record { primo = pop reg.primo k; visto = pop reg.visto k }),
  unique_keys-pop reg.visto k,
)

judge-unique_keys :
    {Snap : Type 0} (cfg : AlertsConfig) (catalogo : Dict (Regola Snap)) (now : ℕ)
    (visti : Dict Alert) (reg : AlertRegistry)
    → unique_keys reg.visto ≡ true
    → unique_keys (judge cfg catalogo now visti reg).1.visto ≡ true
unfolding judge
judge-unique_keys cfg catalogo now [] reg h = h
judge-unique_keys cfg catalogo now ((k, a) ∷ visti) reg h =
    judge-unique_keys cfg catalogo now visti (stamp now a reg).1
      (unique_keys-put reg.visto (alert_id a) now h)

-- The alert is gone, and for longer than the window.
abbrev pub expired : ℕ → Dict Alert → AlertRegistry → Text → Bool
expired now visti reg aid =
    not (is_some (get visti aid))
    && elim (get reg.visto aid) [ none ↦ false | some quando ↦ ltb (quando + finestra_oblio) now ]

runs_out_absent :
    (now : ℕ) (visti : Dict Alert) (aid : Text) (items : Dict ℕ)
    → is_some (get items aid) ≡ false
    → runs_out now visti aid items ≡ false
unfolding runs_out get
runs_out_absent now visti aid [] h = refl
runs_out_absent now visti aid ((k, quando) ∷ items) h =
    ground (arith, runs_out_absent now visti aid items)

runs_out-get :
    (now : ℕ) (visti : Dict Alert) (aid : Text) (items : Dict ℕ)
    → unique_keys items ≡ true
    → runs_out now visti aid items ≡ (
        not (is_some (get visti aid))
        && elim (get items aid) [ none ↦ false | some quando ↦ ltb (quando + finestra_oblio) now ])
unfolding runs_out unique_keys get
runs_out-get now visti aid [] h = ground arith
runs_out-get now visti aid ((k, quando) ∷ items) h = ground (
  arith,
  runs_out-get now visti aid items,
  runs_out_absent now visti aid items,
  text_eq_iff k aid,
)

module _ {Snap : Type 0} (cfg : AlertsConfig) (catalogo : Dict (Regola Snap)) where
  abbrev pub alerts_of : Snap → Dict Alert
  alerts_of snap = collect (grezzi cfg catalogo snap) []

  -- After a `build` with the alerts enabled, on a registry where no alert has two entries in `visto`,
  -- an alert that was raised has the time at which it was first seen, which is now where nothing was
  -- remembered of it, and was last seen now; of one that was not raised the two times stay, but for
  -- those last seen more than ten minutes ago, which are forgotten. No alert has two entries in
  -- `visto` afterwards.
  pub build-memory :
      (now : ℕ) (snap : Snap) (reg : AlertRegistry) (aid : Text)
      → cfg.enabled ≡ true
      → unique_keys reg.visto ≡ true
      → (get (build cfg catalogo now snap reg).1.primo aid ≡ (
          if is_some (get (alerts_of snap) aid)
          then some (or_else (get reg.primo aid) now)
          else if expired now (alerts_of snap) reg aid
          then none
          else get reg.primo aid))
        × (get (build cfg catalogo now snap reg).1.visto aid ≡ (
            if is_some (get (alerts_of snap) aid)
            then some now
            else if expired now (alerts_of snap) reg aid
            then none
            else get reg.visto aid))
        × (unique_keys (build cfg catalogo now snap reg).1.visto ≡ true)
  unfolding build scorda own
  build-memory now snap reg aid on keyed =
      let visti = alerts_of snap in
      let left = scorda now visti reg in
      let mine = own-collect (grezzi cfg catalogo snap) [] refl in
      (
        ground (
          arith,
          judge-primo cfg catalogo now visti left aid mine,
          scorda_each-primo now visti reg.visto reg aid,
          runs_out-get now visti aid reg.visto keyed,
        ),
        ground (
          arith,
          judge-visto cfg catalogo now visti left aid mine,
          scorda_each-visto now visti reg.visto reg aid,
          runs_out-get now visti aid reg.visto keyed,
        ),
        ground (
          arith,
          judge-unique_keys cfg catalogo now visti left
              (scorda_each-unique_keys now visti reg.visto reg keyed),
        ),
      )

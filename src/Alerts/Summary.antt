-- ===== src/Alerts/Summary.antt =====
-- `summary` of backend/services/alerts.py: the counts for each level and each scope.
use native.Mathlib.Nat.{zero-add}
use lan_manager.Prelude.{
  ℕ, ◌+◌, ◌≡◌, ◌∙◌, refl, Bool-cases, inl, inr, List, [], ◌∷◌, Text, lit, text_eq, text_eq_iff,
  or_text, Dict, get, put, get-put, length, filter, arith, if◌then◌else◌, or_else,
}
use lan_manager.Alerts.{Alert}

pub record Row : Type 0 where
  pub critical : ℕ
  pub warn : ℕ
  pub info : ℕ
  pub total : ℕ

abbrev pub no_alerts : Row
no_alerts = record { critical = 0; warn = 0; info = 0; total = 0 }

-- `row[lv] += 1` and `row["total"] += 1`; a level that is none of the three counts as `info`.
unfoldable pub count_level : Text → Row → Row
count_level level r =
    if text_eq level (lit "critical")
    then record r { critical = r.critical + 1; total = r.total + 1 }
    else if text_eq level (lit "warn")
    then record r { warn = r.warn + 1; total = r.total + 1 }
    else record r { info = r.info + 1; total = r.total + 1 }

-- `a.get("scope") or "dashboard"`
abbrev pub scope_of : Alert → Text
scope_of a = or_text a.scope (lit "dashboard")

-- The counts over all alerts, and for each scope.
pub record Counts : Type 0 where
  pub all : Row
  pub by_scope : Dict Row

unfoldable pub count_alert : Alert → Counts → Counts
unfolding count_level
count_alert a c = record {
  all = count_level a.level c.all;
  by_scope =
      put c.by_scope (scope_of a)
        (count_level a.level (or_else (get c.by_scope (scope_of a)) no_alerts));
}

unfoldable pub count_alerts : List Alert → Counts → Counts
unfolding count_alert
count_alerts [] c = c
count_alerts (a ∷ rest) c = count_alerts rest (count_alert a c)

unfoldable pub summary : List Alert → Counts
unfolding count_alerts
summary alerts = count_alerts alerts (record { all = no_alerts; by_scope = [] })

abbrev pub row_of : Counts → Text → Row
row_of c scope = or_else (get c.by_scope scope) no_alerts

-- The three levels make up the total.
abbrev pub AddsUp : Row → Type 0
AddsUp r = r.critical + r.warn + r.info ≡ r.total

AddsUp-count_level : (level : Text) (r : Row) → AddsUp r → AddsUp (count_level level r)
unfolding count_level
AddsUp-count_level level r h = ground arith

total-count_level : (level : Text) (r : Row) → (count_level level r).total ≡ r.total + 1
unfolding count_level
total-count_level level r = ground arith

-- How many of the alerts have the scope.
abbrev pub in_scope : Text → List Alert → ℕ
in_scope scope alerts = length (filter (λ a. text_eq (scope_of a) scope) alerts)

row_of-count_alert :
    (a : Alert) (c : Counts) (scope : Text)
    → row_of (count_alert a c) scope ≡ (
        if text_eq (scope_of a) scope then count_level a.level (row_of c scope) else row_of c scope)
unfolding count_alert
row_of-count_alert a c scope = ground (
  arith,
  get-put c.by_scope (scope_of a) scope (count_level a.level (row_of c (scope_of a))),
  text_eq_iff (scope_of a) scope,
)

AddsUp-count_alert :
    (a : Alert) (c : Counts) (scope : Text)
    → AddsUp (row_of c scope)
    → AddsUp (row_of (count_alert a c) scope)
AddsUp-count_alert a c scope h = elim (Bool-cases (text_eq (scope_of a) scope)) [
  | inl e ↦ rw (row_of-count_alert a c scope, e) (AddsUp-count_level a.level (row_of c scope) h)
  | inr e ↦ rw (row_of-count_alert a c scope, e) h
]

count_alerts-AddsUp :
    (alerts : List Alert) (c : Counts) (scope : Text)
    → AddsUp (row_of c scope)
    → AddsUp (row_of (count_alerts alerts c) scope)
unfolding count_alerts
count_alerts-AddsUp [] c scope h = h
count_alerts-AddsUp (a ∷ rest) c scope h =
    count_alerts-AddsUp rest (count_alert a c) scope (AddsUp-count_alert a c scope h)

count_alerts-total :
    (alerts : List Alert) (c : Counts) (scope : Text)
    → (row_of (count_alerts alerts c) scope).total ≡ (row_of c scope).total + in_scope scope alerts
unfolding count_alerts filter
count_alerts-total [] c scope = ground arith
count_alerts-total (a ∷ rest) c scope = elim (Bool-cases (text_eq (scope_of a) scope)) [
  | inl e ↦
      rw (count_alerts-total rest (count_alert a c) scope, row_of-count_alert a c scope, e)
        (omega (arith, total-count_level a.level (row_of c scope)))
  | inr e ↦
      rw (count_alerts-total rest (count_alert a c) scope, row_of-count_alert a c scope, e) refl
]

count_alerts-all :
    (alerts : List Alert) (c : Counts) → AddsUp c.all → AddsUp (count_alerts alerts c).all
unfolding count_alerts count_alert
count_alerts-all [] c h = h
count_alerts-all (a ∷ rest) c h =
    count_alerts-all rest (count_alert a c) (AddsUp-count_level a.level c.all h)

count_alerts-length :
    (alerts : List Alert) (c : Counts)
    → (count_alerts alerts c).all.total ≡ c.all.total + length alerts
unfolding count_alerts count_alert
count_alerts-length [] c = ground arith
count_alerts-length (a ∷ rest) c =
    omega (arith, count_alerts-length rest (count_alert a c), total-count_level a.level c.all)

-- The three levels of `summary` add up to the number of alerts; in each scope they add up to its
-- total, which is the number of alerts of that scope.
pub summary_lem :
    (alerts : List Alert) (scope : Text)
    → ((summary alerts).all.critical + (summary alerts).all.warn + (summary alerts).all.info
        ≡ length alerts)
      × AddsUp (row_of (summary alerts) scope)
      × ((row_of (summary alerts) scope).total ≡ in_scope scope alerts)
unfolding summary get
summary_lem alerts scope =
    let empty : Counts = record { all = no_alerts; by_scope = [] } in
    (
      count_alerts-all alerts empty refl
          ∙ count_alerts-length alerts empty
          ∙ zero-add (length alerts),
      count_alerts-AddsUp alerts empty scope refl,
      count_alerts-total alerts empty scope ∙ zero-add (in_scope scope alerts),
    )

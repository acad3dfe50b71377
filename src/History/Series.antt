-- ===== src/History/Series.antt =====
-- The series that backend/services/history_store.py answers: `_span` and `_campioni`, on one column
-- of a table of samples. An average is its sum and the number of its values; none of them is `NULL`.
pub mod Buckets
pub mod Window
use lan_manager.Prelude.{
  ℕ, zero, suc, ◌+◌, ◌-◌, ◌*◌, ◌/◌, min, max, Bool, true, false, not, ◌&&◌, List, [], ◌∷◌, Option,
  none, some, ltb, leb, ◌==◌, if◌then◌else◌,
}

-- A row: its time in milliseconds, and what the column holds.
pub record Sample : Type 0 where
  pub t : ℕ
  pub value : Option ℕ

-- An average at a time.
pub record Mean : Type 0 where
  pub t : ℕ
  pub sum : ℕ
  pub count : ℕ

-- `-(-a // b)` for `b > 0`
abbrev pub ceil_div : ℕ → ℕ → ℕ
ceil_div a b = (a + (b - 1)) / b

-- `max_points or settings.history.max_points`
abbrev pub or_default : ℕ → ℕ → ℕ
or_default zero d = d
or_default (suc n) d = suc n

-- `_span`
unfoldable pub span : ℕ → ℕ → ℕ → ℕ → ℕ
span default finestra max_points passo =
    let points = or_default max_points default in
    let pavimento = min (max passo 1000 * 2) (max (finestra / 30) 1000) in
    max (ceil_div finestra (max points 1)) pavimento

-- The sum and the number of values that a bucket has so far.
unfoldable pub total : List Mean → ℕ → ℕ × ℕ
total [] t = (0, 0)
total (g ∷ gs) t = let rest = total gs t in if g.t == t then (g.sum, g.count) else rest

abbrev pub add_value : Option ℕ → ℕ × ℕ → ℕ × ℕ
add_value none p = p
add_value (some v) p = (p.0 + v, p.1 + 1)

abbrev pub mean : ℕ → ℕ × ℕ → Mean
mean t p = record { t = t; sum = p.0; count = p.1 }

-- A value goes to the bucket at `t`.
unfoldable pub add_group : ℕ → Option ℕ → List Mean → List Mean
add_group t v [] = mean t (add_value v (0, 0)) ∷ []
add_group t v (g ∷ gs) =
    let rest = add_group t v gs in
    if g.t == t then mean t (add_value v (g.sum, g.count)) ∷ gs else g ∷ rest

-- `WHERE t >= ? AND t <= ?`
abbrev pub is_within : ℕ → ℕ → Sample → Bool
is_within since fino r = leb since r.t && leb r.t fino

-- `SELECT (t / span) * span AS t, AVG(c) … GROUP BY t / span`: the order is lost in the dictionary
-- that the groups are put in.
unfoldable pub group : ℕ → ℕ → ℕ → List Sample → List Mean → List Mean
unfolding add_group
group span since fino [] gs = gs
group span since fino (r ∷ rows) gs =
    group span since fino rows
      (if is_within since fino r then add_group (r.t / span * span) r.value gs else gs)

-- `[trovati.get(t) or vuoto for t in range(…)]`, for `n` steps
unfoldable pub points : ℕ → ℕ → ℕ → List Mean → List Mean
unfolding total
points zero t step gs = []
points (suc n) t step gs = mean t (total gs t) ∷ points n (t + step) step gs

-- The number of `range(first, last + 1, step)`, for `first <= last`
abbrev pub steps : ℕ → ℕ → ℕ → ℕ
steps first last step = (last - first) / step + 1

-- `_campioni` on the rows of one series, `fino` being the time now
unfoldable pub campioni : ℕ → List Sample → ℕ → ℕ → ℕ → ℕ → List Mean
unfolding span group points
campioni default rows since fino max_points passo =
    if leb fino since
    then []
    else let s = span default (fino - since) max_points passo in
      let first = since / s * s in points (steps first fino s) first s (group s since fino rows [])

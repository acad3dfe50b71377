-- ===== src/History/Series/Buckets.antt =====
-- Each point of a series is the average of the rows of its own interval.
use lan_manager.Prelude.{
  ℕ, zero, suc, ◌+◌, ◌*◌, ◌/◌, ◌<◌, ◌≡◌, refl, ap, ◌∙◌, inl, inr, Bool, true, false, ◌&&◌, List, [],
  ◌∷◌, Option, none, some, ◌==◌, if◌then◌else◌, filter, length, nth, arith, Bool-cases,
}
use lan_manager.History.Series.{
  Sample, Mean, total, add_value, mean, add_group, is_within, group, points,
}

-- The sum and the number of the values of some rows.
unfoldable pub tally : List Sample → ℕ × ℕ
tally [] = (0, 0)
tally (r ∷ rows) = add_value r.value (tally rows)

abbrev plus : ℕ × ℕ → ℕ × ℕ → ℕ × ℕ
plus p q = (p.0 + q.0, p.1 + q.1)

total-add_group :
    (t : ℕ) (v : Option ℕ) (gs : List Mean) (j : ℕ)
    → total (add_group t v gs) j ≡ (if t == j then add_value v (total gs j) else total gs j)
unfolding total add_group
total-add_group t v [] j = ground arith
total-add_group t v (g ∷ gs) j = ground (arith, total-add_group t v gs j)

-- The rows of the window whose bucket starts at `j`.
abbrev pub bucket : ℕ → ℕ → ℕ → ℕ → List Sample → List Sample
bucket s since fino j = filter (λ r. is_within since fino r && r.t / s * s == j)

one_more :
    (b : Bool) (r : Sample) (p : ℕ × ℕ) (rows : List Sample)
    → plus (if b then add_value r.value p else p) (tally rows)
      ≡ plus p (tally (if b then r ∷ rows else rows))
unfolding tally
one_more true r p rows =
    elim r.value as (λ v. plus (add_value v p) (tally rows) ≡ plus p (add_value v (tally rows))) [
      | none ↦ refl
      | some v ↦ ground arith
    ]
one_more false r p rows = refl

total-group :
    (s since fino : ℕ) (rows : List Sample) (gs : List Mean) (j : ℕ)
    → total (group s since fino rows gs) j ≡ plus (total gs j) (tally (bucket s since fino j rows))
unfolding group filter tally
total-group s since fino [] gs j = ground arith
total-group s since fino (r ∷ rows) gs j = elim (Bool-cases (is_within since fino r)) [
  | inl inside ↦ rw inside (
      total-group s since fino rows (add_group (r.t / s * s) r.value gs) j
      ∙ ap (λ p. plus p (tally (bucket s since fino j rows)))
          (total-add_group (r.t / s * s) r.value gs j)
      ∙ one_more (r.t / s * s == j) r (total gs j) (bucket s since fino j rows))
  | inr outside ↦ rw outside (total-group s since fino rows gs j)
]

plus_zero : (p : ℕ × ℕ) → plus (0, 0) p ≡ p
plus_zero p = ground arith

pub total-group_first :
    (s since fino : ℕ) (rows : List Sample) (j : ℕ)
    → total (group s since fino rows []) j ≡ tally (bucket s since fino j rows)
unfolding total
total-group_first s since fino rows j =
    total-group s since fino rows [] j ∙ plus_zero (tally (bucket s since fino j rows))

pub nth-points :
    (n t step : ℕ) (gs : List Mean) (i : ℕ)
    → i < n
    → nth (points n t step gs) i ≡ some (mean (t + i * step) (total gs (t + i * step)))
unfolding points
nth-points zero t step gs i h = absurd (omega arith)
nth-points (suc n) t step gs zero h =
    let e : t ≡ t + 0 * step = omega arith in ap (λ u. some (mean u (total gs u))) e
nth-points (suc n) t step gs (suc i) h =
    let e : t + step + i * step ≡ t + suc i * step = omega arith in
    nth-points n (t + step) step gs i (omega arith) ∙ ap (λ u. some (mean u (total gs u))) e

pub length-points : (n t step : ℕ) (gs : List Mean) → length (points n t step gs) ≡ n
unfolding points
length-points zero t step gs = refl
length-points (suc n) t step gs = ap suc (length-points n (t + step) step gs)

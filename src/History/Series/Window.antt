-- ===== src/History/Series/Window.antt =====
-- A series covers its window with equal intervals, and each point is the average of its interval.
use native.Mathlib.Nat.{
  div-mul-le_self, lt-div-mul-add, le-div_iff_mul-le, div-lt_iff_lt-mul, add-mul, mul-le-mul_left,
  mul_comm,
}
use lan_manager.Prelude.{
  ℕ, ◌+◌, ◌-◌, ◌*◌, ◌/◌, ◌≤◌, ◌<◌, min, max, ◌≡◌, refl, subst, ap, sym, ◌∙◌, Bool, false, ◌&&◌,
  List, [], ◌∷◌, some, ltb, leb, ◌==◌, filter, length, nth, arith,
}
use lan_manager.History.Series.{
  Sample, span, total, mean, is_within, group, points, steps, campioni, ceil_div, or_default,
}
use lan_manager.History.Series.Buckets.{tally, bucket, total-group_first, nth-points, length-points}

same_bucket : (t q s : ℕ) → 0 < s → q * s ≤ t → t < q * s + s → t / s * s ≡ q * s
same_bucket t q s pos low high =
    let above : q ≤ t / s = (le-div_iff_mul-le pos).1 low in
    let below : t / s < q + 1 = (div-lt_iff_lt-mul pos).1 (omega (arith, add-mul q 1 s, high)) in
    let same : t / s ≡ q = omega arith in ap (λ k. k * s) same

bucket_interval : (t q s : ℕ) → 0 < s → (t / s * s == q * s) ≡ (leb (q * s) t && ltb t (q * s + s))
bucket_interval t q s pos =
    ground (arith, div-mul-le_self t s, lt-div-mul-add pos, same_bucket t q s pos)

span-positive : (default finestra max_points passo : ℕ) → 0 < span default finestra max_points passo
unfolding span
span-positive default finestra max_points passo = omega arith

-- The rows of the window from `j` on, up to before `j + s`.
abbrev pub interval : ℕ → ℕ → ℕ → ℕ → List Sample → List Sample
interval s since fino j = filter (λ r. is_within since fino r && (leb j r.t && ltb r.t (j + s)))

filter_same :
    {A : Type 0} (p q : A → Bool) (xs : List A) → ((x : A) → p x ≡ q x) → filter p xs ≡ filter q xs
unfolding filter
filter_same p q [] e = refl
filter_same p q (x ∷ xs) e = rw (e x, filter_same p q xs e) refl

bucket-interval :
    (s since fino q : ℕ) (rows : List Sample)
    → 0 < s
    → bucket s since fino (q * s) rows ≡ interval s since fino (q * s) rows
bucket-interval s since fino q rows pos =
    filter_same _ _ rows (λ r. ap (λ b. is_within since fino r && b) (bucket_interval r.t q s pos))

ceil_div_enough : (a b : ℕ) → 0 < b → a ≤ ceil_div a b * b
ceil_div_enough a b pos =
    let h : a + (b - 1) < (a + (b - 1)) / b * b + b = lt-div-mul-add pos in omega arith

ceil_max_enough : (a b pav : ℕ) → 0 < b → a ≤ b * max (ceil_div a b) pav
ceil_max_enough a b pav pos =
    let enough = ceil_div_enough a b pos in
    let wider : b * ceil_div a b ≤ b * max (ceil_div a b) pav = mul-le-mul_left b (omega arith) in
    omega (arith, enough, wider, mul_comm (ceil_div a b) b)

span_enough :
    (default finestra max_points passo : ℕ)
    → 0 < or_default max_points default
    → finestra ≤ or_default max_points default * span default finestra max_points passo
unfolding span
span_enough default finestra max_points passo pos =
    let b = or_default max_points default in
    let one : max b 1 ≡ b = omega arith in
    let pav = min (max passo 1000 * 2) (max (finestra / 30) 1000) in
    subst (λ m. finestra ≤ b * max (ceil_div finestra m) pav) (sym one)
      (ceil_max_enough finestra b pav pos)

campioni_open :
    (default : ℕ) (rows : List Sample) (since fino max_points passo : ℕ)
    → since < fino
    → let s = span default (fino - since) max_points passo in
      campioni default rows since fino max_points passo
      ≡ points (steps (since / s * s) fino s) (since / s * s) s (group s since fino rows [])
unfolding campioni
campioni_open default rows since fino max_points passo h =
    let closed : leb fino since ≡ false = ground arith in rw closed refl

-- The number of the intervals from the one of the start on.
few_steps :
    (since fino s points : ℕ)
    → since < fino
    → 0 < s
    → fino - since ≤ points * s
    → steps (since / s * s) fino s ≤ points + 1
few_steps since fino s points h pos wide =
    let near : since < since / s * s + s = lt-div-mul-add pos in
    let few : (fino - since / s * s) / s < points + 1 =
      (div-lt_iff_lt-mul pos).1 (omega (arith, add-mul points 1 s, near, wide)) in
    omega arith

steps_reach : (first fino s : ℕ) → first ≤ fino → 0 < s → fino < first + steps first fino s * s
steps_reach first fino s h pos =
    let far : fino - first < (fino - first) / s * s + s = lt-div-mul-add pos in
    omega (arith, add-mul ((fino - first) / s) 1 s, far)

point :
    (s since fino q i : ℕ) (rows : List Sample)
    → 0 < s
    → total (group s since fino rows []) (q * s + i * s)
      ≡ tally (interval s since fino (q * s + i * s) rows)
point s since fino q i rows pos =
    let at : (q + i) * s ≡ q * s + i * s = add-mul q i s in
    subst (λ j. total (group s since fino rows []) j ≡ tally (interval s since fino j rows)) at
      (total-group_first s since fino rows ((q + i) * s)
        ∙ ap tally (bucket-interval s since fino (q + i) rows pos))

campioni_points :
    (default : ℕ) (rows : List Sample) (since fino max_points passo : ℕ)
    → since < fino
    → 0 < or_default max_points default
    → let s = span default (fino - since) max_points passo in
      let first = since / s * s in
      let n = length (campioni default rows since fino max_points passo) in
      (n ≤ or_default max_points default + 1)
      × (first ≤ since)
      × (fino < first + n * s)
      × ((i : ℕ)
          → i < n
          → nth (campioni default rows since fino max_points passo) i
            ≡ some (mean (first + i * s) (tally (interval s since fino (first + i * s) rows))))
campioni_points default rows since fino max_points passo h pos =
    let s = span default (fino - since) max_points passo in
    let first = since / s * s in
    let above : 0 < s = span-positive default (fino - since) max_points passo in
    let start : first ≤ since = div-mul-le_self since s in
    let gs = group s since fino rows [] in
    let n = steps first fino s in
    subst
      (λ out.
        (length out ≤ or_default max_points default + 1)
        × (first ≤ since)
        × (fino < first + length out * s)
        × ((i : ℕ)
            → i < length out
            → nth out i
              ≡ some (mean (first + i * s) (tally (interval s since fino (first + i * s) rows)))))
      (sym (campioni_open default rows since fino max_points passo h))
      (rw (length-points n first s gs) (
        few_steps since fino s (or_default max_points default) h above
            (span_enough default (fino - since) max_points passo pos),
        start,
        steps_reach first fino s (omega arith) above,
        λ i inside.
            nth-points n first s gs i inside
            ∙ ap some (ap (mean (first + i * s)) (point s since fino (since / s) i rows above)),
      ))

-- For a window that is not empty, `campioni` answers at most one point more than are asked for. They
-- stand at equal intervals from the one of the start of the window on until past now, and each of
-- them is the average of the rows of the window in its interval, empty where there is none.
pub campioni_lem :
    (default : ℕ) (rows : List Sample) (since fino max_points passo i : ℕ)
    → since < fino
    → 0 < or_default max_points default
    → i < length (campioni default rows since fino max_points passo)
    → let s = span default (fino - since) max_points passo in
      let first = since / s * s in
      let out = campioni default rows since fino max_points passo in
      (length out ≤ or_default max_points default + 1)
      × (first ≤ since)
      × (fino < first + length out * s)
      × (nth out i
          ≡ some (mean (first + i * s) (tally (interval s since fino (first + i * s) rows))))
campioni_lem default rows since fino max_points passo i h pos inside =
    let (few, start, reach, all) = campioni_points default rows since fino max_points passo h pos in
    (few, start, reach, all i inside)

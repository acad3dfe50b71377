-- ===== src/History/Tests.antt =====
-- The history at concrete tables.
use lan_manager.Prelude.{
  ◌+◌, ◌-◌, ◌*◌, ◌/◌, ◌≡◌, ◌≤◌, ◌<◌, refl, true, false, [], ◌∷◌, List, Text, lit, text_eq,
  text_eq_iff, none, some, length, nth, arith,
}
use lan_manager.History.{Seen, History, prime}
use lan_manager.History.Restart.{
  Step, collected, compacted, restarted, run, uninterrupted, run-uninterrupted,
}
use lan_manager.History.Series.{Sample, mean, span, campioni}
use lan_manager.History.Series.Buckets.{tally}
use lan_manager.History.Series.Window.{interval, campioni_lem}

abbrev nas : Text
nas = lit "192.0.2.9"

abbrev empty : History Text
empty = record { rows = []; last = [] }

abbrev seen : List (Seen Text)
seen = record { key = nas; up = true } ∷ []

abbrev life : List (Step Text)
life =
    collected 1000 seen
    ∷ restarted
    ∷ collected 2000 seen
    ∷ compacted 5000
    ∷ restarted
    ∷ collected 3000 (record { key = nas; up = false } ∷ [])
    ∷ []

run-uninterrupted_example :
    (run text_eq life (prime text_eq empty)).rows
    ≡ (run text_eq (uninterrupted life) (prime text_eq empty)).rows
run-uninterrupted_example = run-uninterrupted text_eq text_eq_iff life empty

abbrev samples : List Sample
samples =
    record { t = 10500; value = some 4 }
    ∷ record { t = 11000; value = none }
    ∷ record { t = 11500; value = some 8 }
    ∷ record { t = 70000; value = some 1 }
    ∷ []

campioni_test : nth (campioni 600 samples 10000 70000 0 1000) 0 ≡ some (mean 10000 (12, 2))
unfolding campioni
campioni_test = refl

inside : 0 < length (campioni 600 samples 10000 70000 0 1000)
unfolding campioni
inside = omega arith

campioni_lem_example :
    let s = span 600 (70000 - 10000) 0 1000 in
    let first = 10000 / s * s in
    let out = campioni 600 samples 10000 70000 0 1000 in
    (length out ≤ 601)
    × (first ≤ 10000)
    × (70000 < first + length out * s)
    × (nth out 0
        ≡ some (mean (first + 0 * s) (tally (interval s 10000 70000 (first + 0 * s) samples))))
campioni_lem_example =
    campioni_lem 600 samples 10000 70000 0 1000 0 (omega arith) (omega arith) inside

-- ===== src/HostMetrics/Tests.antt =====
-- A host that is read three times, once too early.
use lan_manager.Prelude.{
  ℕ, ◌+◌, ◌≡◌, refl, arith, List, [], ◌∷◌, none, some, lit, get, sort_by, map,
}
use lan_manager.HostMetrics.{Lettura, Prev}
use lan_manager.HostMetrics.Window.{
  Look, stops, close, wide, reading, run, run_lem, windows, wholes, total_of,
}

abbrev jiffies : ℕ → ℕ → Lettura
jiffies total idle = record {
  uptime_seconds = 50;
  cpu_totals = (lit "cpu", record { total = total; idle = idle }) ∷ [];
  disk_counters = (lit "sda", record { read = total; written = 0 }) ∷ [];
}

abbrev first : Prev
first = reading (1000, jiffies 100 80)

abbrev looks : List Look
looks = (1500, jiffies 150 120) ∷ (6000, jiffies 300 180) ∷ []

run_example :
    let rs = run (some first) looks in
    let last = reading (6000, jiffies 300 180) in
    (windows rs + first.t ≡ last.t) × (wholes rs + total_of first ≡ total_of last)
unfolding get lan_manager.Prelude.text_eq
run_example = run_lem first (reading (6000, jiffies 300 180)) looks (omega arith) (
    close (1500, jiffies 150 120) (omega arith) (omega arith)
      (wide (6000, jiffies 300 180) (record { total = 100; idle = 80 })
        (record { total = 300; idle = 180 }) (omega arith) (omega arith) refl refl (omega arith)
        (omega arith) stops))

percent_test :
    map (λ r. r.cpu.percent) (run (some first) looks)
    ≡ none ∷ some (record { busy = 100; whole = 200 }) ∷ []
unfolding run
percent_test = refl

disks_test :
    map (λ r. r.disk_io) (run (some first) looks)
    ≡ ((lit "sda", none) ∷ []) ∷ ((lit "sda", some (record { read = 200; written = 0 })) ∷ []) ∷ []
unfolding run
disks_test = refl

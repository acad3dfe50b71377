-- ===== src/HostMetrics/Window.antt =====
-- The windows over which the work of a processor is averaged.
use lan_manager.Prelude.{
  ℕ, zero, suc, ◌+◌, ◌-◌, ◌≤◌, ◌<◌, ◌≡◌, refl, ap, true, false, List, [], ◌∷◌, Option, none, some,
  lit, get, ltb, leb, or_else, arith,
}
use lan_manager.HostMetrics.{
  Jiffies, Lettura, Prev, Share, Resources, cpu_percent, cpu_section, min_window, since_boot,
  cpu_of, componi, if_positive,
}

-- When a host is read, and what it answers.
abbrev pub Look : Type 0
Look = ℕ × Lettura

unfoldable pub run : Option Prev → List Look → List Resources
unfolding componi
run prev [] = []
run prev (l ∷ looks) = let step = componi prev l.0 l.1 in step.0 ∷ run step.1 looks

-- The length of all windows.
unfoldable pub windows : List Resources → ℕ
windows [] = 0
windows (r ∷ rs) = or_else r.cpu.window 0 + windows rs

unfoldable pub share_whole : Option Share → ℕ
share_whole none = 0
share_whole (some s) = s.whole

-- The jiffies that the percentages account for.
unfoldable pub wholes : List Resources → ℕ
unfolding share_whole
wholes [] = 0
wholes (r ∷ rs) = share_whole r.cpu.percent + wholes rs

abbrev pub reading : Look → Prev
reading l = record {
  t = l.0;
  cpu = l.1.cpu_totals;
  disk = l.1.disk_counters;
  uptime = l.1.uptime_seconds;
}

-- Readings of a host whose uptime and counters, the idle one too, do not go down, from one reading to
-- another: some of them too close to the one that stands.
pub data Runs : Prev → List Look → Prev → Type 0 where
  stops : {p : Prev} → Runs p [] p
  close :
      {p last : Prev} (l : Look) {looks : List Look}
      → l.0 < p.t + min_window
      → p.uptime ≤ l.1.uptime_seconds
      → Runs p looks last
      → Runs p (l ∷ looks) last
  wide :
      {p last : Prev} (l : Look) (before now : Jiffies) {looks : List Look}
      → p.t + min_window ≤ l.0
      → p.uptime ≤ l.1.uptime_seconds
      → get p.cpu (lit "cpu") ≡ some before
      → get l.1.cpu_totals (lit "cpu") ≡ some now
      → before.total ≤ now.total
      → before.idle ≤ now.idle
      → Runs (reading l) looks last
      → Runs p (l ∷ looks) last

abbrev total_in : Option Jiffies → ℕ
total_in none = 0
total_in (some j) = j.total

abbrev pub total_of : Prev → ℕ
total_of p = total_in (get p.cpu (lit "cpu"))

or_else-if_positive : (n : ℕ) → or_else (if_positive n) 0 ≡ n
or_else-if_positive zero = refl
or_else-if_positive (suc n) = refl

cpu_percent-none : (now : Option Jiffies) → cpu_percent now none ≡ none
unfolding cpu_percent
cpu_percent-none none = refl
cpu_percent-none (some j) = refl

-- A reading that is too close changes nothing.
componi_close :
    (p : Prev) (now : ℕ) (l : Lettura)
    → 0 < p.t
    → now < p.t + min_window
    → p.uptime ≤ l.uptime_seconds
    → let r = componi (some p) now l in
      (r.1 ≡ some p) × (r.0.cpu.window ≡ none) × (r.0.cpu.percent ≡ none)
unfolding componi since_boot cpu_section get
componi_close p now l pos near up =
    let stays : ltb l.uptime_seconds p.uptime ≡ false = ground (arith, up) in
    let started : ltb 0 p.t ≡ true = ground (arith, pos) in
    let narrow : leb min_window (now - p.t) ≡ false = ground (arith, near) in
    rw (stays, started, narrow) (refl, refl, cpu_percent-none (get l.cpu_totals (lit "cpu")))

-- A reading that is far enough closes the window.
componi_wide :
    (p : Prev) (now : ℕ) (l : Lettura)
    → 0 < p.t
    → p.t + min_window ≤ now
    → p.uptime ≤ l.uptime_seconds
    → let r = componi (some p) now l in
      (r.1 ≡ some (reading (now, l)))
      × (or_else r.0.cpu.window 0 ≡ now - p.t)
      × (r.0.cpu.percent ≡ cpu_percent (get l.cpu_totals (lit "cpu")) (get p.cpu (lit "cpu")))
unfolding componi since_boot cpu_section cpu_of
componi_wide p now l pos far up =
    let stays : ltb l.uptime_seconds p.uptime ≡ false = ground (arith, up) in
    let started : ltb 0 p.t ≡ true = ground (arith, pos) in
    let wide_enough : leb min_window (now - p.t) ≡ true = ground (arith, far) in
    rw (stays, started, wide_enough) (refl, or_else-if_positive (now - p.t), refl)

whole_between :
    (before now : Jiffies)
    → before.total ≤ now.total
    → before.idle ≤ now.idle
    → share_whole (cpu_percent (some now) (some before)) + before.total ≡ now.total
unfolding cpu_percent share_whole
whole_between before now t i = ground (arith, t, i)

-- From a kept reading at a positive time on, let no reading tell an uptime below that of the reading
-- that is kept, and let each that comes two seconds after it or more have a row `cpu`, as the kept one
-- has, with a total and an idle count (which has the waiting for disks in it) that are not below
-- those of the kept one. Then, however many readings come too early in between, the windows have the
-- length between the first and the last reading that were kept, and the percentages account for all
-- the jiffies in between, each once.
pub run_lem :
    (p last : Prev) (looks : List Look)
    → 0 < p.t
    → Runs p looks last
    → let rs = run (some p) looks in
      (windows rs + p.t ≡ last.t) × (wholes rs + total_of p ≡ total_of last)
unfolding run windows wholes
run_lem p last looks pos stops = (omega arith, omega arith)
run_lem p last looks pos (close l {looks = later} near up rest) =
    let (same, unseen, unknown) = componi_close p l.0 l.1 pos near up in
    let tail = run_lem p last later pos rest in
    rw (same, unseen, unknown) (omega (arith, tail.0), omega (arith, tail.1))
run_lem p last looks pos (wide l before now {looks = later} far up b n t i rest) =
    let (kept, length_is, percent_is) = componi_wide p l.0 l.1 pos far up in
    let tail = run_lem (reading l) last later (omega (arith, far)) rest in
    let here = whole_between before now t i in
    let there : total_of (reading l) ≡ now.total = ap total_in n in
    rw (kept, length_is, percent_is, b, n)
      (omega (arith, tail.0, far), omega (arith, tail.1, here, there))

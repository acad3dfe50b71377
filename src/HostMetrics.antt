-- ===== src/HostMetrics.antt =====
-- The resources of the hosts in backend/services/host_metrics.py: what one reading becomes with the
-- one before it. The monotonic clock counts milliseconds; the parsers of the readings and the
-- connections are not modelled.
pub mod Window
mod Tests
use lan_manager.Prelude.{
  ℕ, zero, suc, ◌+◌, ◌-◌, ◌*◌, max, Bool, true, false, not, ◌&&◌, ◌||◌, List, [], ◌∷◌, ◌++◌, Option,
  none, some, Text, lit, text_eq, text_before, Dict, get, put, pop, or_else, sort_by, map, filter,
  take_last, ltb, leb, if◌then◌else◌,
}

-- Jiffies of a processor: all of them, and those without work.
pub record Jiffies : Type 0 where
  pub total : ℕ
  pub idle : ℕ

-- Bytes of a disk.
pub record DiskBytes : Type 0 where
  pub read : ℕ
  pub written : ℕ

-- `Lettura`, as far as it changes with time.
pub record Lettura : Type 0 where
  pub uptime_seconds : ℕ
  pub cpu_totals : Dict Jiffies
  pub disk_counters : Dict DiskBytes

-- An entry of `_prev`.
pub record Prev : Type 0 where
  pub t : ℕ
  pub cpu : Dict Jiffies
  pub disk : Dict DiskBytes
  pub uptime : ℕ

-- A percentage, as the part that was busy and the whole.
pub record Share : Type 0 where
  pub busy : ℕ
  pub whole : ℕ

-- `_cpu_percent`, before it rounds
unfoldable pub cpu_percent : Option Jiffies → Option Jiffies → Option Share
cpu_percent none before = none
cpu_percent (some now) none = none
cpu_percent (some now) (some before) =
    if leb now.total before.total || ltb now.idle before.idle
    then none
    else some (record {
      busy = (now.total - before.total) - (now.idle - before.idle);
      whole = now.total - before.total;
    })

pub record CpuSection : Type 0 where
  pub percent : Option Share
  pub per_core : List (Option Share)
  pub window : Option ℕ

unfoldable pub names_of {ℓ} : {V : Type ℓ} → Dict V → List Text
unfolding sort_by text_before
names_of d = sort_by text_before (map (λ e. e.0) d)

abbrev pub if_positive : ℕ → Option ℕ
if_positive zero = none
if_positive (suc n) = some (suc n)

-- `_cpu_section`
unfoldable pub cpu_section : Dict Jiffies → Dict Jiffies → ℕ → CpuSection
unfolding cpu_percent names_of get filter text_eq
cpu_section totals prev_totals elapsed =
    let cores = filter (λ k. not (text_eq k (lit "cpu"))) (names_of totals) in
    record {
      percent = cpu_percent (get totals (lit "cpu")) (get prev_totals (lit "cpu"));
      per_core = map (λ c. cpu_percent (get totals c) (get prev_totals c)) cores;
      window = if_positive elapsed;
    }

-- The bytes of a disk in the window, which the source divides by its length.
unfoldable pub disk_rate : ℕ → Option DiskBytes → Option DiskBytes → Option DiskBytes
disk_rate elapsed none old = none
disk_rate elapsed (some now) none = none
disk_rate elapsed (some now) (some old) =
    if ltb 0 elapsed && leb old.read now.read && leb old.written now.written
    then some (record { read = now.read - old.read; written = now.written - old.written })
    else none

-- `_disk_rates`
unfoldable pub disk_rates : Dict DiskBytes → Dict DiskBytes → ℕ → List (Text × Option DiskBytes)
unfolding disk_rate names_of get
disk_rates now before elapsed =
    map (λ name. (name, disk_rate elapsed (get now name) (get before name))) (names_of now)

-- `_MIN_WINDOW`
abbrev pub min_window : ℕ
min_window = 2000

-- What is left of the reading before, when the host did not start again.
unfoldable pub since_boot : Option Prev → ℕ → Option Prev
since_boot none uptime = none
since_boot (some p) uptime = if ltb uptime p.uptime then none else some p

abbrev pub start_of : Option Prev → ℕ
start_of none = 0
start_of (some p) = p.t

pub record Resources : Type 0 where
  pub cpu : CpuSection
  pub disk_io : List (Text × Option DiskBytes)

unfoldable pub cpu_of : Option Prev → Dict Jiffies
cpu_of none = []
cpu_of (some p) = p.cpu

unfoldable pub disk_of : Option Prev → Dict DiskBytes
disk_of none = []
disk_of (some p) = p.disk

-- `_componi`: the resources, and the reading from which the next window starts.
unfoldable pub componi : Option Prev → ℕ → Lettura → Resources × Option Prev
unfolding since_boot cpu_section disk_rates cpu_of disk_of
componi before now l =
    let prev = since_boot before l.uptime_seconds in
    let started = ltb 0 (start_of prev) in
    let elapsed = if started then now - start_of prev else 0 in
    let usable = leb min_window elapsed in
    let kept : Prev = record {
      t = now;
      cpu = l.cpu_totals;
      disk = l.disk_counters;
      uptime = l.uptime_seconds;
    } in
    (
      record {
        cpu =
            cpu_section l.cpu_totals (if usable then cpu_of prev else [])
              (if usable then elapsed else 0);
        disk_io =
            disk_rates l.disk_counters (if usable then disk_of prev else [])
              (if usable then elapsed else 0);
      },
      if usable || not started then some kept else before,
    )

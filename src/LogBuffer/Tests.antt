-- ===== src/LogBuffer/Tests.antt =====
-- Runs of the log buffer, and its theorems at concrete inputs.
use lan_manager.Prelude.{
  map, ℕ, ◌-◌, ◌≡◌, refl, max, List, [], ◌∷◌, ◌++◌, some, take_last, last?, filter, if◌then◌else◌,
  ◌==◌, arith, Text, lit, Option, none, Bool, false,
}
use lan_manager.LogBuffer.Handler.{LogRecord}
use lan_manager.LogBuffer.{LogBuffer, new, add, tail, drain}
use lan_manager.LogBuffer.History.{since, Refines, new-Refines, add-Refines, tail-since}
use lan_manager.LogBuffer.Archive.{Event, log, archive, run, logged, run_complete}

abbrev empty : LogBuffer ℕ
empty = record { maxlen = 2; righe = []; seq = 0; flushed = 0 }

empty-Refines : Refines 2 [] empty
unfolding new
empty-Refines = new-Refines {A = ℕ} (some 2) 0

-- Three lines at once are more than this buffer holds: the first is lost to the archive.
abbrev bursts : List (Event ℕ)
bursts = log 7 ∷ log 8 ∷ log 9 ∷ archive ∷ log 10 ∷ archive ∷ []

bursts_test : map (λ r. r.line) (run bursts empty).0 ≡ 8 ∷ 9 ∷ 10 ∷ []
unfolding run add drain take_last last? filter
bursts_test = refl

abbrev steady : List (Event ℕ)
steady = log 7 ∷ log 8 ∷ archive ∷ log 9 ∷ archive ∷ log 10 ∷ []

run_complete_example :
    (run steady empty).0 ++ since (run steady empty).1.flushed (logged steady)
    ≡ since 0 (logged steady)
run_complete_example = run_complete [] steady empty empty-Refines (omega arith)

tail-since_example :
    tail (add empty 7) 5 0 ≡ since (max (max (1 - 2) 0) (if 5 == 0 then 0 else 1 - 5)) (7 ∷ [])
tail-since_example = tail-since (7 ∷ []) (add-Refines [] 7 empty-Refines) 5 0

abbrev no_regex : Text → Option Text
no_regex s = none

abbrev never : Text → Text → Option Bool
never rx s = some false

abbrev warning : LogRecord
warning = record {
  name = lit "services.scanner";
  levelno = 35;
  message = some (lit "slow");
  created_ms = 5;
  exc = [];
}

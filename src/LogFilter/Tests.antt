-- ===== src/LogFilter/Tests.antt =====
-- Runs of the log filter, and its theorems at concrete inputs. The expressions of the tests are
-- texts that are searched for as they are.
use lan_manager.Prelude.{
  Bool, true, false, not, ◌&&◌, List, [], ◌∷◌, Option, none, some, Text, lit, text_eq, contains,
  lower, strip, any, ◌≡◌, refl, inl, nonempty, if◌then◌else◌,
}
use lan_manager.LogFilter.{
  LogExclude, Riga, FilterState, intoccabile, compila, vale_per, scarta_regola, scarta, reset,
}
use lan_manager.LogFilter.Rules.{discards, re_search, scarta-discards}

abbrev compile : Text → Option Text
compile s = if nonempty s then some s else none

abbrev occurs : Text → Text → Bool
occurs rx s = contains s rx

abbrev noisy : LogExclude
noisy = record {
  pattern = lit " GET /health ";
  src = [];
  regex = false;
  sources = [];
  note = [];
  enabled = true;
}

abbrev blank : LogExclude
blank = record {
  pattern = lit "  ";
  src = [];
  regex = false;
  sources = [];
  note = [];
  enabled = true;
}

abbrev exclude : List LogExclude
exclude = blank ∷ noisy ∷ []

abbrev health : Riga
health = record { src = lit "uvicorn"; msg = lit "10.0.0.1 get /HEALTH 200"; raw = [] }

health_discarded :
    ((scarta compile (re_search compile occurs) exclude reset health (lit "backend")).0 ≡ true)
    × ((scarta compile (re_search compile occurs) exclude reset health (lit "Audit")).0 ≡ false)
    × ((scarta compile (re_search compile occurs) (blank ∷ []) reset health (lit "backend")).0
        ≡ false)
unfolding scarta reset contains lower strip text_eq compila vale_per scarta_regola
health_discarded = (refl, refl, refl)

scarta-discards_example :
    (scarta compile (re_search compile occurs) exclude reset health (lit "backend")).0 ≡ (
      not (text_eq (lower (lit "backend")) intoccabile)
      && any (discards compile occurs health (lit "backend")) exclude)
scarta-discards_example =
    scarta-discards compile occurs exclude reset health (lit "backend") (inl refl)

abbrev compiling : FilterState Text
compiling = record { compiled = none; in_compilazione = true }

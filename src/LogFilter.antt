-- ===== src/LogFilter.antt =====
-- backend/services/log_filter.py: the rules of `logs.exclude`, their compilation, and the test
-- whether a log line is discarded. The regular expressions of `re` are the parameters `re_compile`
-- (`none` for `re.error`) and `re_search` (`none` for an exception during the search).
pub mod Rules
pub mod Router
mod Tests
use lan_manager.Prelude.{
  is_some, Bool, true, false, not, ◌&&◌, ◌||◌, List, [], ◌∷◌, ◌++◌, map, Option, none, some, Text,
  lit, text_eq, nonempty, or_text, starts_with, contains, strip, lower, filter, if◌then◌else◌,
}

-- An item of `logs.exclude` (`LogExclude` in backend/config.py).
pub record LogExclude : Type 0 where
  pub pattern : Text
  pub src : Text
  pub regex : Bool
  pub sources : List Text
  pub note : Text
  pub enabled : Bool

-- The keys of a log line that the filter reads; a missing key is the empty text.
pub record Riga : Type 0 where
  pub src : Text
  pub msg : Text
  pub raw : Text

abbrev pub intoccabile : Text
intoccabile = lit "audit"

abbrev pub journal : Text
journal = lit "journal"

pub record Regola (Rx : Type 0) : Type 0 where
  pub pattern : Text
  pub src : Text
  pub rx : Option Rx
  pub sources : List Text
  pub note : Text

-- What `_compila` writes to the log of a rule that it leaves out.
pub data Warning : Type 0 where
  empty_rule : Warning
  bad_regex : Text → Warning

-- The loop of `vale_per` over the declared sources.
unfoldable pub declares : List Text → Text → Bool
declares [] s = false
declares (d ∷ ds) s =
    text_eq s d || (text_eq d journal && starts_with s (journal ++ lit ":")) || declares ds s

-- The text that a rule looks at: the message, and the raw line where there is none.
unfoldable pub testo : Riga → Text
testo riga = or_text riga.msg riga.raw

-- The sources of a rule, without the blank ones.
unfoldable pub clean_sources : List Text → List Text
clean_sources [] = []
clean_sources (s ∷ ss) =
    let rest = clean_sources ss in if nonempty (strip s) then lower (strip s) ∷ rest else rest

module _ {Rx : Type 0} where
  unfoldable pub vale_per : Regola Rx → Text → Bool
  unfolding declares
  vale_per r source = if nonempty r.sources then declares r.sources (lower source) else true

  -- The `return Regola(...)` of `_compila`.
  unfoldable pub make_regola : LogExclude → Text → Option Rx → Regola Rx
  unfolding clean_sources
  make_regola voce pattern rx = record {
    pattern = if is_some rx then [] else lower pattern;
    src = lower (strip voce.src);
    rx = rx;
    sources = clean_sources voce.sources;
    note = strip voce.note;
  }

  -- `pattern_per_grep`: what the router can leave out itself.
  unfoldable pub grep_patterns : List (Regola Rx) → Text → List Text
  grep_patterns [] source = []
  grep_patterns (r ∷ rs) source =
      let rest = grep_patterns rs source in
      if nonempty r.pattern && not (is_some r.rx) && not (nonempty r.src) && vale_per r source
      then r.pattern ∷ rest
      else rest

-- The module's two globals, `_regole` and `_in_compilazione`.
pub record FilterState (Rx : Type 0) : Type 0 where
  pub compiled : Option (List (Regola Rx))
  pub in_compilazione : Bool

unfoldable pub reset : {Rx : Type 0} → FilterState Rx
reset = record { compiled = none; in_compilazione = false }

module _ {Rx : Type 0} (re_compile : Text → Option Rx) (re_search : Rx → Text → Option Bool) where
  -- `Regola.scarta`; `none` is an exception of the search.
  unfoldable pub scarta_regola : Regola Rx → Riga → Option Bool
  unfolding testo
  scarta_regola r riga =
      if nonempty r.src && not (contains (lower riga.src) r.src)
      then some false
      else if not (nonempty r.pattern) && not (is_some r.rx)
      then some (nonempty r.src)
      else elim r.rx [
        | some rx ↦ re_search rx (testo riga)
        | none ↦ some (contains (lower (testo riga)) r.pattern)
      ]

  unfoldable pub compila : LogExclude → Option (Regola Rx) × List Warning
  unfolding make_regola
  compila voce =
      let pattern = strip voce.pattern in
      let src = lower (strip voce.src) in
      if not (nonempty pattern) && not (nonempty src)
      then (none, empty_rule ∷ [])
      else if nonempty pattern && voce.regex
      then elim (re_compile pattern) [
        | none ↦ (none, bad_regex pattern ∷ [])
        | some rx ↦ (some (make_regola voce pattern (some rx)), [])
      ]
      else (some (make_regola voce pattern none), [])

  -- The comprehension in `regole`: the enabled items that compile, with the warnings on the way.
  unfoldable pub compila_tutte : List LogExclude → List (Regola Rx) × List Warning
  compila_tutte [] = ([], [])
  compila_tutte (v ∷ vs) =
      let (rs, ws) = compila_tutte vs in
      let (r, w) = compila v in
      if v.enabled then elim r [ none ↦ (rs, w ++ ws) | some r' ↦ (r' ∷ rs, w ++ ws) ] else (rs, ws)

  -- `regole()`, with the warnings that it logs. Each of them comes back through the log handler
  -- into `scarta` while `in_compilazione` holds.
  unfoldable pub regole :
      List LogExclude → FilterState Rx → List (Regola Rx) × FilterState Rx × List Warning
  unfolding compila_tutte
  regole exclude st = elim st.compiled [
    | some rs ↦ (rs, st, [])
    | none ↦
        if st.in_compilazione
        then ([], st, [])
        else let (rs, ws) = compila_tutte exclude in
          (rs, record { compiled = some rs; in_compilazione = false }, ws)
  ]

  -- The loop of `scarta` over the rules; an exception ends it.
  unfoldable pub scarta_una : List (Regola Rx) → Riga → Text → Option Bool
  scarta_una [] riga source = some false
  scarta_una (r ∷ rs) riga source =
      let rest = scarta_una rs riga source in
      if vale_per r source
      then elim (scarta_regola r riga) [ none ↦ none | some true ↦ some true | some false ↦ rest ]
      else rest

  -- `scarta`, which keeps the line when an exception was raised.
  unfoldable pub scarta : List LogExclude → FilterState Rx → Riga → Text → Bool × FilterState Rx
  unfolding regole scarta_una
  scarta exclude st riga source =
      if text_eq (lower source) intoccabile
      then (false, st)
      else let (rs, st', _) = regole exclude st in
        (elim (scarta_una rs riga source) [ none ↦ false | some b ↦ b ], st')

  unfoldable pub pattern_per_grep :
      List LogExclude → FilterState Rx → Text → List Text × FilterState Rx
  unfolding regole grep_patterns
  pattern_per_grep exclude st source =
      let (rs, st', _) = regole exclude st in (grep_patterns rs source, st')

-- ===== src/LogFilter/Rules.antt =====
-- What the compiled rules discard, read off the items of the configuration.
use lan_manager.Prelude.{
  Bool, true, false, not, ◌&&◌, ◌||◌, List, [], ◌∷◌, Option, none, some, Text, text_eq, nonempty,
  contains, strip, lower, if◌then◌else◌, any, ◌≡◌, refl, ◌⊎◌, inl, inr, arith, Bool-cases,
}
use lan_manager.LogFilter.{
  LogExclude, Riga, Regola, FilterState, intoccabile, testo, declares, clean_sources, vale_per,
  scarta_regola, compila, compila_tutte, regole, scarta_una, scarta, reset,
}

nonempty-lower : (s : Text) → nonempty (lower s) ≡ nonempty s
unfolding lower
nonempty-lower [] = refl
nonempty-lower (c ∷ s) = refl

-- The log handler asks while the rules are compiled, and gets none.
abbrev pub IsCompiling : {Rx : Type 0} → FilterState Rx → Type 0
IsCompiling st = (st.compiled ≡ none) × (st.in_compilazione ≡ true)

module _ {Rx : Type 0} (re_compile : Text → Option Rx) (re_search : Rx → Text → Option Bool) where
  -- The rules are not compiled yet, or are those of the configuration.
  abbrev pub IsReady : List LogExclude → FilterState Rx → Type 0
  IsReady exclude st =
      (st ≡ reset) ⊎ (st.compiled ≡ some (compila_tutte re_compile re_search exclude).0)

module _ {Rx : Type 0} (re_compile : Text → Option Rx) (matches : Rx → Text → Bool) where
  abbrev pub re_search : Rx → Text → Option Bool
  re_search rx t = some (matches rx t)

  -- The message of an item, against the line: a plain text is looked for in lower case, an
  -- expression is searched for, one that does not compile fits nothing; an item with no pattern
  -- asks only for its `src`, and must have one.
  pub text_fits : LogExclude → Riga → Bool
  text_fits v riga =
      if nonempty (strip v.pattern)
      then (if v.regex
          then elim (re_compile (strip v.pattern)) [
            | none ↦ false
            | some rx ↦ matches rx (testo riga)
          ]
          else contains (lower (testo riga)) (lower (strip v.pattern)))
      else nonempty (lower (strip v.src))

  pub src_fits : LogExclude → Riga → Bool
  src_fits v riga =
      not (nonempty (lower (strip v.src))) || contains (lower riga.src) (lower (strip v.src))

  pub source_fits : LogExclude → Text → Bool
  source_fits v source =
      not (nonempty (clean_sources v.sources)) || declares (clean_sources v.sources) (lower source)

  pub discards : Riga → Text → LogExclude → Bool
  discards riga source v =
      v.enabled && (source_fits v source && (src_fits v riga && text_fits v riga))

  -- One item: what its rule answers when it applies.
  answer : Option (Regola Rx) → Riga → Text → Option Bool
  answer none riga source = some false
  answer (some r) riga source =
      if vale_per r source then scarta_regola re_compile re_search r riga else some false

  answer-compila :
      (v : LogExclude) (riga : Riga) (source : Text)
      → answer (compila re_compile re_search v).0 riga source
        ≡ some (source_fits v source && (src_fits v riga && text_fits v riga))
  unfolding answer compila vale_per scarta_regola source_fits src_fits text_fits
  answer-compila v riga source = ground (arith, nonempty-lower (strip v.pattern))

  scarta_una-compila_tutte :
      (riga : Riga) (source : Text) (vs : List LogExclude)
      → scarta_una re_compile re_search (compila_tutte re_compile re_search vs).0 riga source
        ≡ some (any (discards riga source) vs)
  unfolding scarta_una compila_tutte any discards answer
  scarta_una-compila_tutte riga source [] = refl
  scarta_una-compila_tutte riga source (v ∷ vs) =
      ground (arith, answer-compila v riga source, scarta_una-compila_tutte riga source vs)

  rules : List LogExclude → FilterState Rx → List (Regola Rx)
  rules exclude st = (regole re_compile re_search exclude st).0

  rules-IsReady :
      (exclude : List LogExclude) (st : FilterState Rx)
      → IsReady re_compile re_search exclude st
      → rules exclude st ≡ (compila_tutte re_compile re_search exclude).0
  unfolding rules regole reset
  rules-IsReady exclude st (inl e) = ground arith
  rules-IsReady exclude st (inr e) = ground arith

  -- A line is discarded exactly when its source is not the audit and some enabled item fits it,
  -- whether the rules were compiled before or have to be now.
  pub scarta-discards :
      (exclude : List LogExclude) (st : FilterState Rx) (riga : Riga) (source : Text)
      → IsReady re_compile re_search exclude st
      → (scarta re_compile re_search exclude st riga source).0
        ≡ (not (text_eq (lower source) intoccabile) && any (discards riga source) exclude)
  unfolding scarta rules
  scarta-discards exclude st riga source ready =
      ground (arith, scarta_una-compila_tutte riga source exclude, rules-IsReady exclude st ready)

  scarta-state :
      (exclude : List LogExclude) (st : FilterState Rx) (riga : Riga) (source : Text)
      → (scarta re_compile re_search exclude st riga source).1 ≡ (
          if text_eq (lower source) intoccabile
          then st
          else (regole re_compile re_search exclude st).1)
  unfolding scarta
  scarta-state exclude st riga source = ground arith

  regole-IsReady :
      (exclude : List LogExclude) (st : FilterState Rx)
      → IsReady re_compile re_search exclude st
      → (regole re_compile re_search exclude st).1.compiled
        ≡ some (compila_tutte re_compile re_search exclude).0
  unfolding regole reset
  regole-IsReady exclude st (inl e) = ground arith
  regole-IsReady exclude st (inr e) = ground arith

  -- Every call leaves the rules compiled, or has asked for none (an audit line).
  pub scarta-IsReady :
      (exclude : List LogExclude) (st : FilterState Rx) (riga : Riga) (source : Text)
      → IsReady re_compile re_search exclude st
      → IsReady re_compile re_search exclude (scarta re_compile re_search exclude st riga source).1
  scarta-IsReady exclude st riga source ready =
      elim (Bool-cases (text_eq (lower source) intoccabile)) [
        | inl audit ↦ rw (scarta-state exclude st riga source, audit) ready
        | inr other ↦
            rw (scarta-state exclude st riga source, other) (inr (regole-IsReady exclude st ready))
      ]

module _ {Rx : Type 0} (re_compile : Text → Option Rx) (re_search : Rx → Text → Option Bool) where
  -- A line that is logged while the rules are compiled is kept, and does not start the compilation
  -- again.
  pub scarta_compiling :
      (exclude : List LogExclude) (st : FilterState Rx) (riga : Riga) (source : Text)
      → IsCompiling st
      → scarta re_compile re_search exclude st riga source ≡ (false, st)
  unfolding scarta regole scarta_una
  scarta_compiling exclude st riga source h = ground arith

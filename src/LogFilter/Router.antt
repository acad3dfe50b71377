-- ===== src/LogFilter/Router.antt =====
-- `pattern_per_grep`: the patterns that the router leaves out before its `tail` discard nothing
-- that the filter here would have kept.
use lan_manager.Prelude.{
  Bool, true, false, List, [], ◌∷◌, Option, some, Text, text_eq, text_eq_iff, contains, lower, any,
  ◌≡◌, arith,
}
use lan_manager.LogFilter.{
  LogExclude, Riga, Regola, FilterState, intoccabile, testo, scarta_regola, regole, scarta_una,
  scarta, grep_patterns, pattern_per_grep,
}
use lan_manager.LogFilter.Rules.{re_search}

module _ {Rx : Type 0} (re_compile : Text → Option Rx) (matches : Rx → Text → Bool) where
  grep-scarta_una :
      (rs : List (Regola Rx)) (riga : Riga) (source p : Text)
      → any (λ q. text_eq q p) (grep_patterns rs source) ≡ true
      → contains (lower (testo riga)) p ≡ true
      → scarta_una re_compile (re_search re_compile matches) rs riga source ≡ some true
  unfolding grep_patterns any scarta_una scarta_regola
  grep-scarta_una [] riga source p among found = cc
  grep-scarta_una (r ∷ rs) riga source p among found =
      ground (arith, text_eq_iff r.pattern p, grep-scarta_una rs riga source p)

  -- A line in which one of the router's patterns occurs is one that `scarta` discards too.
  pub scarta-pattern_per_grep :
      (exclude : List LogExclude) (st : FilterState Rx) (riga : Riga) (source p : Text)
      → text_eq (lower source) intoccabile ≡ false
      → any
          (λ q. text_eq q p)
          (pattern_per_grep re_compile (re_search re_compile matches) exclude st source).0
        ≡ true
      → contains (lower (testo riga)) p ≡ true
      → (scarta re_compile (re_search re_compile matches) exclude st riga source).0 ≡ true
  unfolding scarta pattern_per_grep
  scarta-pattern_per_grep exclude st riga source p other among found = ground (
    arith,
    grep-scarta_una (regole re_compile (re_search re_compile matches) exclude st).0 riga source p
        among found,
  )

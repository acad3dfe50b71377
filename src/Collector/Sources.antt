-- ===== src/Collector/Sources.antt =====
-- The state of a source tells its history.
use lan_manager.Prelude.{
  ℕ, zero, suc, ◌+◌, ◌<◌, ◌≡◌, refl, ap, sym, ◌∙◌, true, false, List, [], ◌∷◌, Option, none, some,
  Text, text_eq, text_eq_iff, subst, get, get-put, get-put_self, or_else, if◌then◌else◌, arith, All,
  inl, inr, Bool-cases,
}
use lan_manager.Collector.{
  Source, Sources, sorgente_ok, sorgente_ko, failed, unknown_source, or_now,
}

-- A collection of one source: when, and the error if it failed.
pub record Attempt : Type 0 where
  pub nome : Text
  pub at : ℕ
  pub outcome : Option Text

unfoldable pub record_outcome : Sources → Text → ℕ → Option Text → Sources
unfolding sorgente_ok sorgente_ko
record_outcome sources nome at none = sorgente_ok sources nome at
record_outcome sources nome at (some error) = sorgente_ko sources nome error at

-- The attempts of all sources, the newest first.
unfoldable pub after : List Attempt → Sources
unfolding record_outcome
after [] = []
after (a ∷ before) = record_outcome (after before) a.nome a.at a.outcome

-- The attempts of one source.
unfoldable pub of_source : Text → List Attempt → List Attempt
of_source nome [] = []
of_source nome (a ∷ before) =
    let rest = of_source nome before in if text_eq a.nome nome then a ∷ rest else rest

abbrev if_failed {ℓ} : {A : Type ℓ} → Option Text → A → A → A
if_failed none x y = y
if_failed (some e) x y = x

-- The number of failures since the last success.
unfoldable pub failures : List Attempt → ℕ
failures [] = 0
failures (a ∷ before) = if_failed a.outcome (failures before + 1) 0

-- The time of the first failure since the last success.
unfoldable pub down_since : List Attempt → Option ℕ
down_since [] = none
down_since (a ∷ before) = if_failed a.outcome (some (or_else (down_since before) a.at)) none

-- The time of the last success.
unfoldable pub last_success : List Attempt → Option ℕ
last_success [] = none
last_success (a ∷ before) = if_failed a.outcome (last_success before) (some a.at)

-- The state of a source, where one that was never tried counts as good.
abbrev pub state_of : Sources → Text → Source
state_of sources nome = or_else (get sources nome) unknown_source

abbrev pub IsLate : Attempt → Type 0
IsLate a = 0 < a.at

abbrev IsPositive : Option ℕ → Type 0
IsPositive none = Unit
IsPositive (some t) = 0 < t

if_failed-IsPositive :
    (o : Option Text) (before : Option ℕ) (at : ℕ)
    → 0 < at
    → IsPositive before
    → IsPositive (if_failed o (some (or_else before at)) none)
if_failed-IsPositive none before at h k = tt
if_failed-IsPositive (some e) none at h k = h
if_failed-IsPositive (some e) (some t) at h k = k

down_since-IsPositive : (before : List Attempt) → All IsLate before → IsPositive (down_since before)
unfolding down_since
down_since-IsPositive [] h = tt
down_since-IsPositive (a ∷ before) h =
    if_failed-IsPositive a.outcome (down_since before) a.at h.0 (down_since-IsPositive before h.1)

-- What the attempts of a source say of its state.
record Tells (before : List Attempt) (x : Source) : Type 0 where
  fails_are : x.fails ≡ failures before
  since_is : x.since ≡ down_since before
  ts_is : x.ts ≡ last_success before

or_now_late : (o : Option ℕ) (now : ℕ) → IsPositive o → or_now o now ≡ or_else o now
or_now_late none now h = refl
or_now_late (some zero) now h = absurd (omega arith)
or_now_late (some (suc t)) now h = refl

state_of-record_outcome :
    (sources : Sources) (nome : Text) (at : ℕ) (o : Option Text)
    → state_of (record_outcome sources nome at o) nome ≡ (elim o [
      | none ↦ record { ok = true; ts = some at; error = []; since = none; fails = 0 }
      | some error ↦ failed (state_of sources nome) error at
    ])
unfolding record_outcome sorgente_ok sorgente_ko
state_of-record_outcome sources nome at none = rw (get-put_self sources nome) refl
state_of-record_outcome sources nome at (some error) = rw (get-put_self sources nome) refl

other_source :
    (sources : Sources) (nome other : Text) (at : ℕ) (o : Option Text)
    → text_eq nome other ≡ false
    → state_of (record_outcome sources nome at o) other ≡ state_of sources other
unfolding record_outcome sorgente_ok sorgente_ko
other_source sources nome other at none h = rw (get-put sources nome other, h) refl
other_source sources nome other at (some error) h = rw (get-put sources nome other, h) refl

failed-Tells :
    (before : List Attempt) (nome : Text) (at : ℕ) (error : Text) (x : Source)
    → IsPositive (down_since before)
    → Tells before x
    → Tells (record { nome = nome; at = at; outcome = some error } ∷ before) (failed x error at)
unfolding failed failures down_since last_success
failed-Tells before nome at error x late t =
    let since : or_now x.since at ≡ or_else (down_since before) at =
      ap (λ o. or_now o at) t.since_is ∙ or_now_late (down_since before) at late in
    record { fails_are = ap (λ n. n + 1) t.fails_are; since_is = ap some since; ts_is = t.ts_is }

outcome-Tells :
    (before : List Attempt) (sources : Sources) (nome : Text) (at : ℕ) (o : Option Text)
    → IsPositive (down_since before)
    → Tells before (state_of sources nome)
    → Tells
        (record { nome = nome; at = at; outcome = o } ∷ before)
        (state_of (record_outcome sources nome at o) nome)
unfolding failures down_since last_success
outcome-Tells before sources nome at none late t =
    subst (Tells (record { nome = nome; at = at; outcome = none } ∷ before))
      (sym (state_of-record_outcome sources nome at none))
      (record { fails_are = refl; since_is = refl; ts_is = refl })
outcome-Tells before sources nome at (some error) late t =
    subst (Tells (record { nome = nome; at = at; outcome = some error } ∷ before))
      (sym (state_of-record_outcome sources nome at (some error)))
      (failed-Tells before nome at error (state_of sources nome) late t)

of_source-All :
    (nome : Text) (attempts : List Attempt)
    → All IsLate attempts
    → All IsLate (of_source nome attempts)
unfolding of_source
of_source-All nome [] h = tt
of_source-All nome (a ∷ before) h = elim (Bool-cases (text_eq a.nome nome)) [
  | inl same ↦ rw same (h.0, of_source-All nome before h.1)
  | inr other ↦ rw other (of_source-All nome before h.1)
]

after-Tells :
    (attempts : List Attempt) (nome : Text)
    → All IsLate attempts
    → Tells (of_source nome attempts) (state_of (after attempts) nome)
unfolding after of_source failures down_since last_success get
after-Tells [] nome h = record { fails_are = refl; since_is = refl; ts_is = refl }
after-Tells (a ∷ before) nome h = elim (Bool-cases (text_eq a.nome nome)) [
  | inl same ↦
      let eq = (text_eq_iff a.nome nome).0 same in
      let late = down_since-IsPositive (of_source nome before) (of_source-All nome before h.1) in
      rw same (
        subst
          (λ n.
            Tells (record { nome = n; at = a.at; outcome = a.outcome } ∷ of_source nome before)
              (state_of (record_outcome (after before) n a.at a.outcome) nome))
          (sym eq)
          (outcome-Tells (of_source nome before) (after before) nome a.at a.outcome late
            (after-Tells before nome h.1)))
  | inr other ↦ rw other (
      subst (Tells (of_source nome before))
        (sym (other_source (after before) a.nome nome a.at a.outcome other))
        (after-Tells before nome h.1))
]

-- However the collections of all sources follow each other, at times after the epoch, the state of
-- a source has the number of its failures since its last success, the time of the first of them, and
-- the time of that success; collections of other sources do not touch it.
pub after_lem :
    (attempts : List Attempt) (nome : Text)
    → All IsLate attempts
    → let x = state_of (after attempts) nome in
      let mine = of_source nome attempts in
      (x.fails ≡ failures mine) × (x.since ≡ down_since mine) × (x.ts ≡ last_success mine)
after_lem attempts nome h =
    let t = after-Tells attempts nome h in (t.fails_are, t.since_is, t.ts_is)

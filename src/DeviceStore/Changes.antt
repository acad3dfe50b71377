-- ===== src/DeviceStore/Changes.antt =====
-- No method of `DeviceStore` makes the catalogue of device_store.py ambiguous.
use native.Mathlib.Nat.{zero-add}
use lan_manager.Prelude.{
  Dict, ℕ, zero, suc, ◌+◌, ◌-◌, ◌≤◌, ◌≡◌, refl, sym, subst, Option-cases, true, false, not, ◌&&◌,
  List, [], ◌∷◌, ◌++◌, Option, none, some, Text, nonempty, or_text, strip, length, arith,
  Bool-cases, inl, inr, ◌⊎◌,
}
use lan_manager.DeviceStore.{
  Entry, Store, Error, Result, ok, err, find_from, normalize, ident_of, identifies, is_mac, at,
}
use lan_manager.DeviceStore.Methods.{
  no_entry, addressed, set_identity, Fields, update_fields, locate, fresh_entry, append_entry, add,
  upsert, hide, delete,
}
use lan_manager.DeviceStore.Normal.{normalize_idem, strip-normalize}
use lan_manager.DeviceStore.Unique.{
  clash, clash_comm, clear_of, unique, clear_past, set_at-unique, append-unique, filter-unique,
  set_identity-clear,
}

append_entry-unique :
    (s : Store) (e : Entry)
    → unique s.devices ≡ true
    → clear_of none 0 e s.devices ≡ true
    → unique (append_entry s e).devices ≡ true
unfolding append_entry
append_entry-unique s e u c = append-unique 0 e s.devices u c

clear-append_self :
    (j : ℕ) (e : Entry) (es : List Entry)
    → clear_of none j e es ≡ true
    → clear_of (some (j + length es)) j e (es ++ e ∷ []) ≡ true
unfolding clear_of
clear-append_self j e [] c = ground arith
clear-append_self j e (d ∷ es) c =
    let next : j + suc (length es) ≡ j + 1 + length es = omega arith in
    let rest : clear_of (some (j + suc (length es))) (j + 1) e (es ++ e ∷ []) ≡ true =
      subst (λ n. clear_of (some n) (j + 1) e (es ++ e ∷ []) ≡ true) (sym next)
        (clear-append_self (j + 1) e es (ground arith)) in
    ground (arith, rest)

append_entry-clear :
    (s : Store) (e : Entry)
    → clear_of none 0 e s.devices ≡ true
    → clear_of (some (length s.devices)) 0 e (append_entry s e).devices ≡ true
unfolding append_entry
append_entry-clear s e c =
    subst (λ n. clear_of (some n) 0 e (s.devices ++ e ∷ []) ≡ true) (zero-add (length s.devices))
      (clear-append_self 0 e s.devices c)

find_none-clear :
    (i j : ℕ) (ident : Text) (e : Entry) (es : List Entry)
    → ((d : Entry) → clash e d ≡ (nonempty ident && identifies ident d))
    → find_from i ident es ≡ none
    → clear_of none j e es ≡ true
unfolding find_from clear_of
find_none-clear i j ident e [] same h = refl
find_none-clear i j ident e (d ∷ es) same h =
    ground (arith, same d, find_none-clear (i + 1) (j + 1) ident e es same)

or_text_nil : (s : Text) → or_text s [] ≡ s
or_text_nil [] = refl
or_text_nil (c ∷ s) = refl

strip_nil : strip [] ≡ []
unfolding strip
strip_nil = refl

-- The new entry of `upsert`.
clash-fresh_entry :
    (s : Text) (d : Entry)
    → clash (fresh_entry (normalize s)) d ≡ (nonempty (normalize s) && identifies (normalize s) d)
unfolding clash ident_of fresh_entry
clash-fresh_entry s d = elim (Bool-cases (is_mac (normalize s))) [
  | inl mac ↦ rw (mac, strip_nil, normalize_idem s)
  | inr other ↦ rw (other, strip-normalize s, or_text_nil, normalize_idem s)
]

clear-at :
    (j k : ℕ) (d e : Entry) (es : List Entry)
    → clear_of none j d es ≡ true
    → at es k ≡ some e
    → clash d e ≡ false
unfolding clear_of
clear-at j k d e [] h f = cc
clear-at j zero d e (x ∷ es) h f = ground arith
clear-at j (suc k) d e (x ∷ es) h f = clear-at (j + 1) k d e es (ground arith) f

-- An entry of a catalogue without ambiguity is clear of the others.
at-clear :
    (i k : ℕ) (e : Entry) (es : List Entry)
    → unique es ≡ true
    → at es k ≡ some e
    → clear_of (some (i + k)) i e es ≡ true
unfolding clear_of unique
at-clear i k e [] u f = cc
at-clear i zero e (d ∷ es) u f = ground (arith, clear_past (i + 0) (i + 1) 0 d es)
at-clear i (suc k) e (d ∷ es) u f =
    let next : i + suc k ≡ i + 1 + k = omega arith in
    let rest : clear_of (some (i + suc k)) (i + 1) e es ≡ true =
      subst (λ n. clear_of (some n) (i + 1) e es ≡ true) (sym next)
        (at-clear (i + 1) k e es (ground arith) f) in
    ground (arith, rest, clear-at 0 k d e es, clash_comm e d)

find_from-at :
    (i n : ℕ) (ident : Text) (es : List Entry)
    → find_from i ident es ≡ some n
    → (e : Entry) × (at es (n - i) ≡ some e) × (i ≤ n)
unfolding find_from
find_from-at i n ident [] h = cc
find_from-at i n ident (d ∷ es) h = elim (Bool-cases (identifies ident d)) [
  | inl here ↦
      let same : n ≡ i = ground arith in
      let first : n - i ≡ 0 = omega arith in (d, rw first, omega arith)
  | inr further ↦
      let (e, found, le) = find_from-at (i + 1) n ident es (ground arith) in
      let next : n - i ≡ suc (n - (i + 1)) = omega arith in (e, rw next found, omega arith)
]

-- The store that `upsert` works on has no ambiguity, and its entry is clear of the others there.
locate-clear :
    (s : Store) (identifier : Text)
    → unique s.devices ≡ true
    → let (s', i, e) = locate s (normalize identifier) in
      (unique s'.devices ≡ true) × (clear_of (some i) 0 e s'.devices ≡ true)
unfolding locate
locate-clear s identifier u = elim (Option-cases (find_from 0 (normalize identifier) s.devices)) [
  | inl absent ↦
      let ident = normalize identifier in
      let clear =
        find_none-clear 0 0 ident (fresh_entry ident) s.devices (clash-fresh_entry identifier)
          absent in
      rw (absent, locate)
        (
          append_entry-unique s (fresh_entry ident) u clear,
          append_entry-clear s (fresh_entry ident) clear,
        )
  | inr (n, found) ↦
      let (e, there, _) = find_from-at 0 n (normalize identifier) s.devices found in
      let same : n - 0 ≡ n = omega arith in
      let there' : at s.devices n ≡ some e = rw same at there in
      rw (found, locate, there') (u, at_start e n (at-clear 0 n e s.devices u there'))
]
  where
    at_start :
        (e : Entry) (n : ℕ)
        → clear_of (some (0 + n)) 0 e s.devices ≡ true
        → clear_of (some n) 0 e s.devices ≡ true
    at_start e n h = subst (λ m. clear_of (some m) 0 e s.devices ≡ true) (zero-add n) h

Result-cases {ℓ} :
    {A : Type ℓ} (r : Result A) → ((a : A) × (r ≡ ok a)) ⊎ ((e : Error) × (r ≡ err e))
Result-cases (ok a) = inl (a, refl)
Result-cases (err e) = inr (e, refl)

at_zero :
    (e : Entry) (i : ℕ) (es : List Entry)
    → clear_of (some i) 0 e es ≡ true
    → clear_of (some (0 + i)) 0 e es ≡ true
at_zero e i es h = subst (λ n. clear_of (some n) 0 e es ≡ true) (sym (zero-add i)) h

-- The other fields have no part in the identity.
clear-fields :
    (place : Option ℕ) (j : ℕ) (e : Entry) (fields : Dict Text) (es : List Entry)
    → clear_of place j (record e { fields = fields }) es ≡ clear_of place j e es
unfolding clear_of clash ident_of
clear-fields place j e fields [] = refl
clear-fields place j e fields (d ∷ es) = rw (clear-fields place (j + 1) e fields es)

clear-no_entry : (place : Option ℕ) (j : ℕ) (es : List Entry) → clear_of place j no_entry es ≡ true
unfolding clear_of clash ident_of strip
clear-no_entry place j [] = refl
clear-no_entry place j (d ∷ es) = ground (arith, clear-no_entry place (j + 1) es)

-- However `upsert` ends, a catalogue in which no two entries have one identifier stays so.
pub upsert-unique :
    (s : Store) (identifier : Text) (fields : Fields)
    → unique s.devices ≡ true
    → unique (upsert s identifier fields).1.devices ≡ true
unfolding upsert
upsert-unique s identifier fields u =
    let (s', i, e) = locate s (normalize identifier) in
    let (u', clear) = locate-clear s identifier u in
    elim (Result-cases (set_identity s' (some i) e fields)) [
      | inl ((moved, hidden), done) ↦
          let new_fields = update_fields moved.fields fields.editable in
          let still = set_identity-clear s' (some i) e moved fields hidden clear done in
          rw (done, upsert)
            (set_at-unique 0 i (record moved { fields = new_fields }) s'.devices u'
              (at_zero (record moved { fields = new_fields }) i s'.devices
                (rw (clear-fields (some i) 0 moved new_fields s'.devices) still)))
      | inr (error, failed) ↦ rw (failed, upsert) u'
    ]

-- However `add` ends, a catalogue without ambiguity stays so.
pub add-unique :
    (s : Store) (mac ip : Text) (fields : Dict Text)
    → unique s.devices ≡ true
    → unique (add s mac ip fields).1.devices ≡ true
unfolding add
add-unique s mac ip fields u =
    let asked = addressed (strip ip) (normalize mac) fields in
    elim (Result-cases (set_identity s none no_entry asked)) [
      | inl ((entry, hidden), done) ↦
          let new_fields = update_fields entry.fields fields in
          let clear =
            set_identity-clear s none no_entry entry asked hidden (clear-no_entry none 0 s.devices)
              done in
          ground (
            arith,
            append_entry-unique (record s { hidden = hidden })
                (record entry { fields = new_fields }) u
                (rw (clear-fields none 0 entry new_fields s.devices) clear),
          )
      | inr (error, failed) ↦ ground arith
    ]

-- `delete` leaves a catalogue without ambiguity so.
pub delete-unique :
    (s : Store) (identifier : Text)
    → unique s.devices ≡ true
    → unique (delete s identifier).devices ≡ true
unfolding delete hide
delete-unique s identifier u =
    ground
      (arith, filter-unique (λ (e : Entry). not (identifies (normalize identifier) e)) s.devices u)

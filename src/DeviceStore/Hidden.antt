-- ===== src/DeviceStore/Hidden.antt =====
-- The list of hidden devices of device_store.py, and what reaches the file.
use lan_manager.Prelude.{
  ℕ, ◌+◌, ◌≡◌, refl, true, false, not, ◌&&◌, ◌||◌, List, [], ◌∷◌, ◌++◌, map, Option, none, Text,
  text_eq, text_eq_iff, text_eq_refl, nonempty, or_text, strip, strip_idem, filter, any,
  if◌then◌else◌, or_else, arith, Bool-cases, inl, inr,
}
use lan_manager.DeviceStore.{
  Entry, Store, ok, normalize, ident_of, identifies, among, hidden_set, find_from,
}
use lan_manager.DeviceStore.Methods.{
  Fields, with_address, is_hidden, move_hidden, set_identity, hide, unhide, delete,
}
use lan_manager.DeviceStore.Normal.{normalize_idem}

among-append :
    (x y : Text) (xs : List Text)
    → among x (map normalize (xs ++ y ∷ []))
      ≡ (among x (map normalize xs) || text_eq (normalize y) x)
unfolding among any
among-append x y [] = ground arith
among-append x y (z ∷ xs) = ground (arith, among-append x y xs)

among-filter :
    (ident : Text) (xs : List Text)
    → among ident (map normalize (filter (λ x. not (text_eq (normalize x) ident)) xs)) ≡ false
unfolding among any filter
among-filter ident [] = refl
among-filter ident (x ∷ xs) = ground (arith, among-filter ident xs)

-- What `filter` drops for one identifier leaves the others.
among-filter_ne :
    (ident other : Text) (xs : List Text)
    → text_eq ident other ≡ false
    → among other (map normalize (filter (λ x. not (text_eq (normalize x) ident)) xs))
      ≡ among other (map normalize xs)
unfolding among any filter
among-filter_ne ident other [] h = refl
among-filter_ne ident other (x ∷ xs) h = ground (
  arith,
  among-filter_ne ident other xs h,
  text_eq_iff (normalize x) ident,
  text_eq_iff (normalize x) other,
  text_eq_iff ident other,
)

-- After `hide` the device is hidden and every other device is as before.
pub among-hide :
    (s : Store) (identifier other : Text)
    → among other (hidden_set (hide s identifier))
      ≡ (text_eq (normalize identifier) other || among other (hidden_set s))
unfolding hide
among-hide s identifier other =
    let ident = normalize identifier in
    ground
      (arith, among-append other ident s.hidden, normalize_idem identifier, text_eq_iff ident other)

-- After `unhide` the device is not hidden and every other device is as before.
pub among-unhide :
    (s : Store) (identifier other : Text)
    → among other (hidden_set (unhide s identifier))
      ≡ (not (text_eq (normalize identifier) other) && among other (hidden_set s))
unfolding unhide
among-unhide s identifier other =
    let ident = normalize identifier in
    ground (
      arith,
      among-filter ident s.hidden,
      among-filter_ne ident other s.hidden,
      text_eq_iff ident other,
    )

find_from-filter :
    (i : ℕ) (ident : Text) (es : List Entry)
    → find_from i ident (filter (λ e. not (identifies ident e)) es) ≡ none
unfolding find_from filter
find_from-filter i ident [] = refl
find_from-filter i ident (e ∷ es) =
    ground (arith, find_from-filter i ident es, find_from-filter (i + 1) ident es)

hide-devices : (s : Store) (identifier : Text) → (hide s identifier).devices ≡ s.devices
unfolding hide
hide-devices s identifier = ground arith

hide-saves :
    (s : Store) (identifier : Text)
    → (hide s identifier).saves
      ≡ (if among (normalize identifier) (hidden_set s) then s.saves else s.saves + 1)
unfolding hide
hide-saves s identifier = ground arith

-- `delete` removes every entry with the identifier and hides it. It reaches the file only when the
-- device was not hidden before.
pub delete_lem :
    (s : Store) (identifier : Text)
    → (find_from 0 (normalize identifier) (delete s identifier).devices ≡ none)
      × (among (normalize identifier) (hidden_set (delete s identifier)) ≡ true)
      × ((delete s identifier).saves
          ≡ (if among (normalize identifier) (hidden_set s) then s.saves else s.saves + 1))
unfolding delete
delete_lem s identifier =
    let ident = normalize identifier in
    let left : Store = record s { devices = filter (λ e. not (identifies ident e)) s.devices } in
    (
      rw (hide-devices left ident) (find_from-filter 0 ident s.devices),
      rw (among-hide left ident ident, normalize_idem identifier, text_eq_refl ident),
      rw (hide-saves left ident, normalize_idem identifier),
    )

ident_of-with_address :
    (e : Entry) (ip mac : Text) → strip ip ≡ ip → ident_of (with_address e ip mac) ≡ or_text ip mac
unfolding ident_of
ident_of-with_address e [] [] clean = rw clean
ident_of-with_address e [] (m ∷ mac) clean = rw clean
ident_of-with_address e (c ∷ ip) mac clean = rw clean

nonempty-or_text : (s t : Text) → (nonempty s || nonempty t) ≡ true → nonempty (or_text s t) ≡ true
nonempty-or_text [] t h = h
nonempty-or_text (c ∷ s) t h = refl

is_hidden_label :
    (e : Entry) (label : Text) (xs : List Text)
    → ident_of e ≡ label
    → nonempty label ≡ true
    → is_hidden e (map normalize (xs ++ label ∷ [])) ≡ true
unfolding is_hidden
is_hidden_label e label xs same filled =
    rw (same, filled)
      (ground (arith, among-append (normalize label) label xs, text_eq_refl (normalize label)))

move_hidden-is_hidden :
    (e : Entry) (ip mac : Text) (hidden : List Text)
    → strip ip ≡ ip
    → is_hidden e (map normalize hidden) ≡ true
    → (nonempty ip || nonempty mac) ≡ true
    → is_hidden
        (with_address e ip mac)
        (map normalize (move_hidden e (with_address e ip mac) (or_text ip mac) hidden))
      ≡ true
unfolding move_hidden
move_hidden-is_hidden e ip mac hidden clean was some_address =
    elim (Bool-cases (is_hidden (with_address e ip mac) (map normalize hidden))) [
      | inl kept ↦ ground arith
      | inr gone ↦
          let left = filter (λ x. not (identifies (normalize x) e)) hidden in
          ground (
            arith,
            is_hidden_label (with_address e ip mac) (or_text ip mac) left
                (ident_of-with_address e ip mac clean) (nonempty-or_text ip mac some_address),
          )
    ]

-- The flag follows a device that moves to another address.
pub set_identity-is_hidden :
    (s : Store) (place : Option ℕ) (e e' : Entry) (fields : Fields) (hidden : List Text)
    → set_identity s place e fields ≡ ok (e', hidden)
    → is_hidden e (hidden_set s) ≡ true
    → is_hidden e' (map normalize hidden) ≡ true
unfolding set_identity
set_identity-is_hidden s place e e' fields hidden done was =
    let ip = strip (or_else fields.new_ip (or_else e.ip [])) in
    let mac = normalize (or_else fields.new_mac (or_else e.mac [])) in
    ground (
      arith,
      move_hidden-is_hidden e ip mac s.hidden (strip_idem (or_else fields.new_ip (or_else e.ip [])))
          was,
    )

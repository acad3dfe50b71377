-- ===== src/DeviceStore/Unique.antt =====
-- The catalogue of device_store.py is never ambiguous: no two entries have one identifier.
use lan_manager.Prelude.{
  ℕ, zero, suc, ◌+◌, ◌<◌, ◌≡◌, refl, ◌∙◌, Bool, true, false, not, ◌&&◌, ◌||◌, List, [], ◌∷◌, ◌++◌,
  Option, none, some, Text, text_eq_comm, nonempty, strip, strip_idem, filter, or_else, arith,
  Bool-cases, inl, inr,
}
use lan_manager.DeviceStore.{Entry, Store, ok, normalize, ident_of, identifies, is_ip, set_at}
use lan_manager.DeviceStore.Methods.{conflict, is_place, with_address, set_identity, Fields}
use lan_manager.DeviceStore.Normal.{normalize_idem}
use lan_manager.DeviceStore.Addresses.{normalize-is_ip}

-- Two entries have the same identifier.
unfoldable pub clash : Entry → Entry → Bool
clash e d = nonempty (ident_of e) && identifies (normalize (ident_of e)) d

pub clash_comm : (e d : Entry) → clash e d ≡ clash d e
unfolding clash identifies
clash_comm e d = ground (arith, text_eq_comm (normalize (ident_of d)) (normalize (ident_of e)))

-- No entry has the identifier of `e`, but for the one at the place.
unfoldable pub clear_of : Option ℕ → ℕ → Entry → List Entry → Bool
clear_of place j e [] = true
clear_of place j e (d ∷ es) = (is_place place j || not (clash e d)) && clear_of place (j + 1) e es

unfoldable pub unique : List Entry → Bool
unique [] = true
unique (e ∷ es) = clear_of none 0 e es && unique es

pub clear_past :
    (p j k : ℕ) (e : Entry) (es : List Entry)
    → p < j
    → clear_of (some p) j e es ≡ clear_of none k e es
unfolding clear_of
clear_past p j k e [] h = refl
clear_past p j k e (d ∷ es) h = ground (arith, clear_past p (j + 1) (k + 1) e es)

pub clear_from :
    (j k : ℕ) (e : Entry) (es : List Entry) → clear_of none j e es ≡ clear_of none k e es
unfolding clear_of
clear_from j k e [] = refl
clear_from j k e (d ∷ es) = rw (clear_from (j + 1) (k + 1) e es)

pub clear-set_at :
    (j i : ℕ) (d e : Entry) (es : List Entry)
    → clash d e ≡ false
    → clear_of none j d es ≡ true
    → clear_of none j d (set_at es i e) ≡ true
unfolding clear_of
clear-set_at j i d e [] apart h = refl
clear-set_at j zero d e (x ∷ es) apart h = ground arith
clear-set_at j (suc i) d e (x ∷ es) apart h = ground (arith, clear-set_at (j + 1) i d e es apart)

pub set_at-unique :
    (j i : ℕ) (e : Entry) (es : List Entry)
    → unique es ≡ true
    → clear_of (some (j + i)) j e es ≡ true
    → unique (set_at es i e) ≡ true
unfolding unique clear_of
set_at-unique j i e [] u h = refl
set_at-unique j zero e (d ∷ es) u h = ground (arith, clear_past (j + 0) (j + 1) 0 e es)
set_at-unique j (suc i) e (d ∷ es) u h =
    let next : j + suc i ≡ j + 1 + i = omega arith in
    let h' = rw next at h in
    ground (arith, set_at-unique (j + 1) i e es, clear-set_at 0 i d e es, clash_comm e d)

pub clear-append :
    (j : ℕ) (d e : Entry) (es : List Entry)
    → clash d e ≡ false
    → clear_of none j d es ≡ true
    → clear_of none j d (es ++ e ∷ []) ≡ true
unfolding clear_of
clear-append j d e [] apart h = ground arith
clear-append j d e (x ∷ es) apart h = ground (arith, clear-append (j + 1) d e es apart)

pub append-unique :
    (j : ℕ) (e : Entry) (es : List Entry)
    → unique es ≡ true
    → clear_of none j e es ≡ true
    → unique (es ++ e ∷ []) ≡ true
unfolding unique clear_of
append-unique j e [] u h = refl
append-unique j e (d ∷ es) u h =
    ground (arith, append-unique (j + 1) e es, clear-append 0 d e es, clash_comm e d)

pub clear-filter :
    (p : Entry → Bool) (j k : ℕ) (e : Entry) (es : List Entry)
    → clear_of none j e es ≡ true
    → clear_of none k e (filter p es) ≡ true
unfolding clear_of filter
clear-filter p j k e [] h = refl
clear-filter p j k e (d ∷ es) h =
    ground (arith, clear-filter p (j + 1) (k + 1) e es, clear-filter p (j + 1) k e es)

pub filter-unique :
    (p : Entry → Bool) (es : List Entry) → unique es ≡ true → unique (filter p es) ≡ true
unfolding unique filter
filter-unique p [] h = refl
filter-unique p (e ∷ es) h = ground (arith, clear-filter p 0 0 e es, filter-unique p es)

-- The address is another entry's.
pub taken : Text → Text → Entry → Bool
taken ip mac d =
    nonempty ip && identifies ip d || nonempty mac && not (nonempty ip) && identifies mac d

pub conflict-clear :
    (place : Option ℕ) (j : ℕ) (e : Entry) (ip mac : Text) (es : List Entry)
    → ((d : Entry) → clash e d ≡ taken ip mac d)
    → conflict place j ip mac es ≡ none
    → clear_of place j e es ≡ true
unfolding conflict clear_of taken
conflict-clear place j e ip mac [] same h = refl
conflict-clear place j e ip mac (d ∷ es) same h =
    ground (arith, same d, conflict-clear place (j + 1) e ip mac es same)

-- The identifier of an entry that `_set_identity` has written.
pub clash-with_address :
    (e d : Entry) (ip mac : Text)
    → strip ip ≡ ip
    → (nonempty ip ≡ true → normalize ip ≡ ip)
    → normalize mac ≡ mac
    → clash (with_address e ip mac) d ≡ taken ip mac d
unfolding clash taken ident_of
clash-with_address e d [] [] clean good canon = rw clean
clash-with_address e d [] (m ∷ mac) clean good canon = rw (clean, canon)
clash-with_address e d (c ∷ ip) mac clean good canon = rw (clean, good refl) (ground arith)

pub ip_canonical :
    (s : Text)
    → (nonempty (strip s) && not (is_ip (strip s))) ≡ false
    → nonempty (strip s) ≡ true
    → normalize (strip s) ≡ strip s
ip_canonical s fine filled = normalize-is_ip (strip s) (ground arith) ∙ strip_idem s

-- What `_set_identity` returns is no other entry's.
pub set_identity-clear :
    (s : Store) (place : Option ℕ) (e e' : Entry) (fields : Fields) (hidden : List Text)
    → clear_of place 0 e s.devices ≡ true
    → set_identity s place e fields ≡ ok (e', hidden)
    → clear_of place 0 e' s.devices ≡ true
unfolding set_identity
set_identity-clear s place e e' fields hidden h r =
    let raw_ip = or_else fields.new_ip (or_else e.ip []) in
    let raw_mac = or_else fields.new_mac (or_else e.mac []) in
    elim (Bool-cases (nonempty (strip raw_ip) && not (is_ip (strip raw_ip)))) [
      | inl bad ↦ ground arith
      | inr fine ↦ ground (
        arith,
        conflict-clear place 0 (with_address e (strip raw_ip) (normalize raw_mac)) (strip raw_ip)
            (normalize raw_mac) s.devices
            (λ (d : Entry).
              clash-with_address e d (strip raw_ip) (normalize raw_mac) (strip_idem raw_ip)
                (ip_canonical raw_ip fine) (normalize_idem raw_mac)),
      )
    ]

-- ===== src/DeviceStore.antt =====
-- `DeviceStore` of backend/services/device_store.py: the catalogue of devices. Entries are objects
-- of the list `devices`; `_set_identity` compares them by identity, which here is the place in the
-- list (`none` for an entry that is not in it yet). `saves` counts the calls of `_save`.
pub mod Methods
pub mod Normal
pub mod Addresses
pub mod Unique
pub mod Changes
pub mod Hidden
pub mod Catalog
mod Tests
use lan_manager.Prelude.{
  ℕ, zero, suc, ◌+◌, Bool, true, false, not, ◌&&◌, ◌||◌, List, [], ◌∷◌, ◌++◌, map, Option, none,
  some, Text, lit, text_eq, nonempty, or_text, strip, upper, Dict, put, filter, any, length, leb,
  ◌==◌, if◌then◌else◌, or_else,
}
use lan_manager.Python.Ip.{ip_address}

-- The keys of an entry that the store itself reads, and the others.
pub record Entry : Type 0 where
  pub ip : Option Text
  pub mac : Option Text
  pub fields : Dict Text

pub record Store : Type 0 where
  pub devices : List Entry
  pub hidden : List Text
  pub saves : ℕ

-- What raises `ValueError`.
pub data Error : Type 0 where
  no_identifier : Error
  already_known : Text → Error
  bad_ip : Text → Error
  bad_mac : Text → Error
  needs_one : Error
  ip_taken : Text → Error
  mac_taken : Text → Error

pub data Result {ℓ} (A : Type ℓ) : Type ℓ where
  ok : A → Result A
  err : Error → Result A

unfoldable pub is_hex : ℕ → Bool
is_hex c = (leb b'0' c && leb c b'9') || (leb b'a' c && leb c b'f') || (leb b'A' c && leb c b'F')

unfoldable pub is_separator : ℕ → Bool
is_separator c = c == b':' || c == b'-'

-- `([:-][0-9a-fA-F]{2}){n}$` of `_MAC_RE`; `$` also matches before a final newline.
unfoldable pub mac_pairs : ℕ → Text → Bool
unfolding is_hex is_separator
mac_pairs (suc n) (s ∷ a ∷ b ∷ rest) = is_separator s && is_hex a && is_hex b && mac_pairs n rest
mac_pairs (suc n) _ = false
mac_pairs zero [] = true
mac_pairs zero (c ∷ []) = c == 10
mac_pairs zero (c ∷ d ∷ rest) = false

-- `_MAC_RE.match(s)`
unfoldable pub mac_re : Text → Bool
unfolding mac_pairs
mac_re (a ∷ b ∷ rest) = is_hex a && is_hex b && mac_pairs 5 rest
mac_re _ = false

unfoldable pub colon : ℕ → ℕ
colon c = if c == b'-' then b':' else c

-- `_normalize`: `ident.upper().replace("-", ":")` of a MAC.
unfoldable pub normalize : Text → Text
unfolding mac_re colon
normalize identifier =
    let ident = strip identifier in if mac_re ident then map colon (upper ident) else ident

unfoldable pub is_mac : Text → Bool
unfolding mac_re
is_mac identifier = mac_re (strip identifier)

unfoldable pub is_ip : Text → Bool
is_ip value = elim (ip_address (strip value)) [ none ↦ false | some a ↦ true ]

-- `(entry.get("ip") or "").strip()`
abbrev pub ip_of : Entry → Text
ip_of e = strip (or_else e.ip [])

-- The text by which an entry is identified, before `_normalize`; empty if there is none.
unfoldable pub ident_of : Entry → Text
ident_of e = or_text (ip_of e) (or_else e.mac [])

-- `ident in self._identifiers(e)`
unfoldable pub identifies : Text → Entry → Bool
identifies ident e = nonempty (ident_of e) && text_eq (normalize (ident_of e)) ident

-- `_find`, as the place of the entry.
unfoldable pub find_from : ℕ → Text → List Entry → Option ℕ
find_from i ident [] = none
find_from i ident (e ∷ es) =
    let rest = find_from (i + 1) ident es in if identifies ident e then some i else rest

abbrev pub at : List Entry → ℕ → Option Entry
at [] i = none
at (e ∷ es) zero = some e
at (e ∷ es) (suc i) = at es i

abbrev pub set_at : List Entry → ℕ → Entry → List Entry
set_at [] i e = []
set_at (d ∷ es) zero e = e ∷ es
set_at (d ∷ es) (suc i) e = d ∷ set_at es i e

-- Whether the texts are the same, for `x in hidden`.
unfoldable pub among : Text → List Text → Bool
among x xs = any (λ y. text_eq y x) xs

abbrev pub hidden_set : Store → List Text
hidden_set s = map normalize s.hidden

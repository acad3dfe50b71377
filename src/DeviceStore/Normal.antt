-- ===== src/DeviceStore/Normal.antt =====
-- `_normalize` of device_store.py is idempotent, and an IP address is never read as a MAC.
use lan_manager.Prelude.{
  ℕ, zero, suc, ◌≡◌, refl, ap, ◌∙◌, true, false, [], ◌∷◌, map, Text, strip, strip_idem, strip-map,
  upper, upper_char, is_space, ◌==◌, arith, Bool-cases, inl, inr,
}
use lan_manager.DeviceStore.{is_hex, is_separator, mac_pairs, mac_re, colon, normalize}

-- What `_normalize` does to each character of a MAC.
unfoldable pub canonical : ℕ → ℕ
unfolding colon upper_char
canonical c = colon (upper_char c)

is_space-canonical : (c : ℕ) → is_space (canonical c) ≡ is_space c
unfolding canonical is_space
is_space-canonical c = ground arith

is_hex-canonical : (c : ℕ) → is_hex (canonical c) ≡ is_hex c
unfolding canonical is_hex
is_hex-canonical c = ground arith

is_separator-canonical : (c : ℕ) → is_separator (canonical c) ≡ is_separator c
unfolding canonical is_separator
is_separator-canonical c = ground arith

newline-canonical : (c : ℕ) → (canonical c == 10) ≡ (c == 10)
unfolding canonical
newline-canonical c = ground arith

canonical_idem : (c : ℕ) → canonical (canonical c) ≡ canonical c
unfolding canonical
canonical_idem c = ground arith

map-canonical_idem : (s : Text) → map canonical (map canonical s) ≡ map canonical s
map-canonical_idem [] = refl
map-canonical_idem (c ∷ s) = cc (canonical_idem c, map-canonical_idem s)

map-colon-upper : (s : Text) → map colon (upper s) ≡ map canonical s
unfolding upper canonical
map-colon-upper [] = refl
map-colon-upper (c ∷ s) = ap (◌∷◌ (canonical c)) (map-colon-upper s)

mac_pairs-canonical : (n : ℕ) (s : Text) → mac_pairs n (map canonical s) ≡ mac_pairs n s
unfolding mac_pairs
mac_pairs-canonical zero [] = refl
mac_pairs-canonical zero (c ∷ []) = newline-canonical c
mac_pairs-canonical zero (c ∷ d ∷ rest) = refl
mac_pairs-canonical (suc n) [] = refl
mac_pairs-canonical (suc n) (s ∷ []) = refl
mac_pairs-canonical (suc n) (s ∷ a ∷ []) = refl
mac_pairs-canonical (suc n) (s ∷ a ∷ b ∷ rest) =
    rw
      (is_separator-canonical s, is_hex-canonical a, is_hex-canonical b, mac_pairs-canonical n rest)

mac_re-canonical : (s : Text) → mac_re (map canonical s) ≡ mac_re s
unfolding mac_re
mac_re-canonical [] = refl
mac_re-canonical (a ∷ []) = refl
mac_re-canonical (a ∷ b ∷ rest) =
    rw (is_hex-canonical a, is_hex-canonical b, mac_pairs-canonical 5 rest)

strip-canonical : (s : Text) → strip (map canonical (strip s)) ≡ map canonical (strip s)
strip-canonical s = rw (strip-map canonical is_space-canonical (strip s), strip_idem s)

pub normalize_mac : (s : Text) → mac_re (strip s) ≡ true → normalize s ≡ map canonical (strip s)
unfolding normalize
normalize_mac s h = rw h (map-colon-upper (strip s))

pub normalize_other : (s : Text) → mac_re (strip s) ≡ false → normalize s ≡ strip s
unfolding normalize
normalize_other s h = rw h

pub normalize_idem : (s : Text) → normalize (normalize s) ≡ normalize s
normalize_idem s = elim (Bool-cases (mac_re (strip s))) [
  | inl mac ↦ rw (normalize_mac s mac) (
      normalize_mac (map canonical (strip s))
        (rw (strip-canonical s, mac_re-canonical (strip s)) mac)
      ∙ ap (map canonical) (strip-canonical s)
      ∙ map-canonical_idem (strip s))
  | inr other ↦
      rw (normalize_other s other)
        (normalize_other (strip s) (rw (strip_idem s) other) ∙ strip_idem s)
]

pub strip-normalize : (s : Text) → strip (normalize s) ≡ normalize s
strip-normalize s = elim (Bool-cases (mac_re (strip s))) [
  | inl mac ↦ rw (normalize_mac s mac) (strip-canonical s)
  | inr other ↦ rw (normalize_other s other) (strip_idem s)
]

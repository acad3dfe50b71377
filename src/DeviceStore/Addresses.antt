-- ===== src/DeviceStore/Addresses.antt =====
-- An IP address is never read as a MAC: `_normalize` of device_store.py leaves it alone.
use mathlib.Core.Path.{ap₂}
use lan_manager.Prelude.{
  ℕ, zero, suc, ◌+◌, ◌≤◌, ◌≡◌, refl, Bool, true, false, ◌||◌, List, [], ◌∷◌, none, some, Text,
  nonempty, strip, length, ◌==◌, ==_iff, All, last?, arith, Bool-cases, Option-cases, inl, inr,
}
use lan_manager.Python.Split.{split, split_parts, split_first}
use lan_manager.Python.Ip.{
  ip_address, first_address, v4_int, v6_address, v6_int, v6_of_parts, has, expand_suffix,
  inner_empty, groups,
}
use lan_manager.DeviceStore.{is_hex, is_separator, mac_pairs, mac_re, normalize, is_ip}
use lan_manager.DeviceStore.Normal.{normalize_other}

-- The characters of a text that the pattern of a MAC accepts.
mac_char : ℕ → Bool
mac_char c = is_hex c || is_separator c || c == 10

abbrev AreMacChars : Text → Type 0
AreMacChars = All (λ c. mac_char c ≡ true)

mac_pairs-chars : (n : ℕ) (s : Text) → mac_pairs n s ≡ true → AreMacChars s
unfolding mac_pairs mac_char
mac_pairs-chars zero [] h = tt
mac_pairs-chars zero (c ∷ []) h = (ground arith, tt)
mac_pairs-chars zero (c ∷ d ∷ rest) h = cc
mac_pairs-chars (suc n) [] h = cc
mac_pairs-chars (suc n) (s ∷ []) h = cc
mac_pairs-chars (suc n) (s ∷ a ∷ []) h = cc
mac_pairs-chars (suc n) (s ∷ a ∷ b ∷ rest) h =
    (ground arith, (ground arith, (ground arith, mac_pairs-chars n rest (ground arith))))

mac_re-chars : (s : Text) → mac_re s ≡ true → AreMacChars s
unfolding mac_re mac_char
mac_re-chars [] h = cc
mac_re-chars (a ∷ []) h = cc
mac_re-chars (a ∷ b ∷ rest) h =
    (ground arith, (ground arith, mac_pairs-chars 5 rest (ground arith)))

char_apart : (c d : ℕ) → mac_char c ≡ true → mac_char d ≡ false → (c == d) ≡ false
char_apart c d h f = elim (Bool-cases (c == d)) [
  | inl e ↦ let same : c ≡ d = (==_iff c d).0 e in cc (same, h, f)
  | inr e ↦ e
]

module _ (d : ℕ) (foreign : mac_char d ≡ false) where
  has_foreign : (s : Text) → AreMacChars s → has d s ≡ false
  unfolding has
  has_foreign [] h = refl
  has_foreign (c ∷ s) h = rw (char_apart c d h.0 foreign, has_foreign s h.1)

  split_first_foreign : (s : Text) → AreMacChars s → split_first d s ≡ none
  unfolding split_first
  split_first_foreign [] h = refl
  split_first_foreign (c ∷ s) h = rw (char_apart c d h.0 foreign, split_first_foreign s h.1)

  split_foreign : (s : Text) → AreMacChars s → split_parts d s ≡ (s, [])
  unfolding split_parts
  split_foreign [] h = refl
  split_foreign (c ∷ s) h = rw (char_apart c d h.0 foreign, split_foreign s h.1)

-- The groups between the colons.
split_parts_ne :
    (d c : ℕ) (s : Text)
    → (c == d) ≡ false
    → split_parts d (c ∷ s) ≡ (c ∷ (split_parts d s).0, (split_parts d s).1)
unfolding split_parts
split_parts_ne d c s h = rw h

split_parts_eq :
    (d c : ℕ) (s : Text)
    → (c == d) ≡ true
    → split_parts d (c ∷ s) ≡ ([], (split_parts d s).0 ∷ (split_parts d s).1)
unfolding split_parts
split_parts_eq d c s h = rw h

abbrev AreFilled : List Text → Type 0
AreFilled = All (λ p. nonempty p ≡ true)

hex-ne-colon : (c : ℕ) → is_hex c ≡ true → (c == b':') ≡ false
unfolding is_hex
hex-ne-colon c h = ground arith

mac_pairs-groups :
    (n : ℕ) (s : Text)
    → mac_pairs n s ≡ true
    → AreFilled (split_parts b':' s).1 × (length (split_parts b':' s).1 ≤ n)
unfolding mac_pairs
mac_pairs-groups zero [] h = unfold split_parts in (tt, omega arith)
mac_pairs-groups zero (c ∷ []) h =
    rw (split_parts_ne b':' c [] (ground arith)) (unfold split_parts in (tt, omega arith))
mac_pairs-groups zero (c ∷ d ∷ rest) h = cc
mac_pairs-groups (suc n) [] h = cc
mac_pairs-groups (suc n) (s ∷ []) h = cc
mac_pairs-groups (suc n) (s ∷ a ∷ []) h = cc
mac_pairs-groups (suc n) (s ∷ a ∷ b ∷ rest) h =
    let ha = split_parts_ne b':' a (b ∷ rest) (hex-ne-colon a (ground arith)) in
    let hb = split_parts_ne b':' b rest (hex-ne-colon b (ground arith)) in
    let ih = mac_pairs-groups n rest (ground arith) in
    elim (Bool-cases (s == b':')) [
      | inl colon ↦
          rw (split_parts_eq b':' s (a ∷ b ∷ rest) colon, ha, hb)
            ((refl, ih.0), omega (arith, ih.1))
      | inr other ↦
          rw (split_parts_ne b':' s (a ∷ b ∷ rest) other, ha, hb) (ih.0, omega (arith, ih.1))
    ]

mac_re-groups :
    (s : Text) → mac_re s ≡ true → AreFilled (split b':' s) × (length (split b':' s) ≤ 6)
unfolding mac_re split
mac_re-groups [] h = cc
mac_re-groups (a ∷ []) h = cc
mac_re-groups (a ∷ b ∷ rest) h =
    let ha = split_parts_ne b':' a (b ∷ rest) (hex-ne-colon a (ground arith)) in
    let hb = split_parts_ne b':' b rest (hex-ne-colon b (ground arith)) in
    let ih = mac_pairs-groups 5 rest (ground arith) in
    rw (ha, hb) ((refl, ih.0), omega (arith, ih.1))

abbrev Lack : ℕ → List Text → Type 0
Lack e = All (λ p. has e p ≡ false)

split_parts-Lack :
    (d e : ℕ) (s : Text) → has e s ≡ false → Lack e ((split_parts d s).0 ∷ (split_parts d s).1)
unfolding split_parts has
split_parts-Lack d e [] h = (refl, tt)
split_parts-Lack d e (c ∷ s) h =
    let ih = split_parts-Lack d e s (ground arith) in
    elim (Bool-cases (c == d)) [
      | inl same ↦ rw same (refl, ih)
      | inr other ↦ rw other (ground (arith, ih.0), ih.1)
    ]

last?-Lack : (e : ℕ) (ps : List Text) (p : Text) → Lack e ps → last? ps ≡ some p → has e p ≡ false
unfolding last?
last?-Lack e [] p h l = cc
last?-Lack e (q ∷ []) p h l = ground arith
last?-Lack e (q ∷ r ∷ ps) p h l = last?-Lack e (r ∷ ps) p h.1 l

expand_suffix_plain : (ps : List Text) → Lack b'.' ps → expand_suffix ps ≡ some ps
unfolding expand_suffix
expand_suffix_plain ps h = elim (Option-cases (last? ps)) [
  | inl e ↦ rw (e, expand_suffix)
  | inr (p, e) ↦ rw (e, expand_suffix, last?-Lack b'.' ps p h e)
]

inner_empty_filled : (i : ℕ) (ps : List Text) → AreFilled ps → inner_empty i ps ≡ []
unfolding inner_empty
inner_empty_filled i [] h = refl
inner_empty_filled i (p ∷ ps) h = rw (inner_empty_filled (i + 1) ps h.1, h.0)

groups_few : (ps : List Text) → AreFilled ps → length ps ≤ 6 → groups ps ≡ none
unfolding groups
groups_few ps h few = rw (inner_empty_filled 0 ps h, groups) (ground arith)

v6_of_parts_mac :
    (ps : List Text) → AreFilled ps → length ps ≤ 6 → Lack b'.' ps → v6_of_parts ps ≡ none
unfolding v6_of_parts
v6_of_parts_mac ps filled few lack =
    ground (arith, expand_suffix_plain ps lack, groups_few ps filled few)

foreign_dot : mac_char b'.' ≡ false
unfolding mac_char is_hex is_separator
foreign_dot = refl

v6_int_mac : (s : Text) → mac_re s ≡ true → v6_int s ≡ none
unfolding v6_int
v6_int_mac s h =
    let g = mac_re-groups s h in
    v6_of_parts_mac (split b':' s) g.0 g.1
      (split_parts-Lack b':' b'.' s (has_foreign b'.' foreign_dot s (mac_re-chars s h)))

v4_int_mac : (s : Text) → mac_re s ≡ true → v4_int s ≡ none
unfolding v4_int
v4_int_mac s h = rw (split_foreign b'.' foreign_dot s (mac_re-chars s h)) refl

v6_address_mac : (s : Text) → mac_re s ≡ true → v6_address s ≡ none
unfolding v6_address mac_char is_hex is_separator
v6_address_mac s h =
    let chars = mac_re-chars s h in
    rw (has_foreign b'/' refl s chars, split_first_foreign b'%' refl s chars, v6_int_mac s h)

-- `ipaddress` refuses what the pattern of a MAC accepts.
pub ip_address_mac : (s : Text) → mac_re s ≡ true → ip_address s ≡ none
unfolding ip_address
ip_address_mac s h = ap₂ first_address (v4_int_mac s h) (v6_address_mac s h)

mac_not_ip : (s : Text) → mac_re (strip s) ≡ true → is_ip s ≡ true → ⊥
unfolding is_ip
mac_not_ip s mac h = cc (rw (ip_address_mac (strip s) mac, is_ip) at h)

-- So `_normalize` leaves an IP address as it is, but for the blanks around it.
pub normalize-is_ip : (s : Text) → is_ip s ≡ true → normalize s ≡ strip s
normalize-is_ip s h = elim (Bool-cases (mac_re (strip s))) [
  | inl mac ↦ absurd (mac_not_ip s mac h)
  | inr other ↦ normalize_other s other
]

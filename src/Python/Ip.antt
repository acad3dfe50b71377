-- ===== src/Python/Ip.antt =====
-- `ipaddress` of Python 3.11: `ip_address`, `ip_network(s, strict=False)`, membership and
-- `is_loopback`. The scope of an IPv6 address is checked and forgotten.
use lan_manager.Prelude.{
  ℕ, zero, suc, ◌+◌, ◌-◌, ◌*◌, ◌/◌, ◌%◌, ◌^◌, Bool, true, false, not, ◌&&◌, ◌||◌, List, [], ◌∷◌,
  ◌++◌, Option, none, some, Text, nonempty, length, drop, last?, init, ltb, leb, ◌==◌,
  if◌then◌else◌,
}
use lan_manager.Python.Decimal.{is_digit, digits_from}
use lan_manager.Python.Split.{split, split_first}

pub data Address : Type 0 where
  v4 : ℕ → Address
  v6 : ℕ → Address

unfoldable pub all_digits : Text → Bool
unfolding is_digit
all_digits [] = true
all_digits (c ∷ s) = is_digit c && all_digits s

unfoldable pub has : ℕ → Text → Bool
has d [] = false
has d (c ∷ s) = c == d || has d s

unfoldable pub below : ℕ → Option ℕ → Option ℕ
below bound none = none
below bound (some n) = if ltb n bound then some n else none

-- `_parse_octet`
unfoldable pub octet : Text → Option ℕ
unfolding all_digits below digits_from
octet [] = none
octet (c ∷ s) =
    if all_digits (c ∷ s) && ltb (length (c ∷ s)) 4 && not (c == b'0' && nonempty s)
    then below 256 (digits_from false 0 (c ∷ s))
    else none

unfoldable pub octets : ℕ → List Text → Option ℕ
unfolding octet
octets acc [] = some acc
octets acc (p ∷ ps) = elim (octet p) [ none ↦ none | some n ↦ octets (acc * 256 + n) ps ]

-- `IPv4Address._ip_int_from_string`
unfoldable pub v4_int : Text → Option ℕ
unfolding octets split
v4_int s = let parts = split b'.' s in if length parts == 4 then octets 0 parts else none

unfoldable pub hex_digit : ℕ → Option ℕ
hex_digit c =
    if leb b'0' c && leb c b'9'
    then some (c - b'0')
    else if leb b'a' c && leb c b'f'
    then some (c - 87)
    else if leb b'A' c && leb c b'F'
    then some (c - 55)
    else none

unfoldable pub hex_from : ℕ → Text → Option ℕ
unfolding hex_digit
hex_from acc [] = some acc
hex_from acc (c ∷ s) = elim (hex_digit c) [ none ↦ none | some n ↦ hex_from (acc * 16 + n) s ]

-- `_parse_hextet`
unfoldable pub hextet : Text → Option ℕ
unfolding hex_from
hextet s = if nonempty s && ltb (length s) 5 then hex_from 0 s else none

unfoldable pub hextets : ℕ → List Text → Option ℕ
unfolding hextet
hextets acc [] = some acc
hextets acc (p ∷ ps) = elim (hextet p) [ none ↦ none | some n ↦ hextets (acc * 65536 + n) ps ]

unfoldable pub hex_char : ℕ → ℕ
hex_char d = if ltb d 10 then b'0' + d else 87 + d

unfoldable pub hex4 : ℕ → Text
unfolding hex_char
hex4 n =
    hex_char (n / 4096 % 16)
    ∷ hex_char (n / 256 % 16)
    ∷ hex_char (n / 16 % 16)
    ∷ hex_char (n % 16)
    ∷ []

-- An IPv4 suffix becomes two groups.
unfoldable pub expand_suffix : List Text → Option (List Text)
unfolding has v4_int hex4 last? init
expand_suffix parts = elim (last? parts) [
  | none ↦ some parts
  | some p ↦
      if has b'.' p
      then elim (v4_int p) [
        | none ↦ none
        | some n ↦ some (init parts ++ hex4 (n / 65536) ∷ hex4 (n % 65536) ∷ [])
      ]
      else some parts
]

-- The places of the empty groups that are neither the first nor the last.
unfoldable pub inner_empty : ℕ → List Text → List ℕ
inner_empty i [] = []
inner_empty i (p ∷ ps) =
    let rest = inner_empty (i + 1) ps in
    if not (nonempty p) && not (i == 0) && nonempty ps then i ∷ rest else rest

unfoldable pub take : ℕ → List Text → List Text
take zero ps = []
take (suc n) [] = []
take (suc n) (p ∷ ps) = p ∷ take n ps

-- One end of `::`: an empty group may stand there only by itself.
unfoldable pub side : List Text → Bool → Option (List Text)
side ps open_end = if open_end then (if length ps == 1 then some [] else none) else some ps

unfoldable pub join_sides : Option (List Text) → Option (List Text) → Option ℕ
unfolding hextets
join_sides none lo = none
join_sides (some hi) none = none
join_sides (some hi) (some lo) =
    if ltb (length hi + length lo) 8
    then elim (hextets 0 hi) [
      | none ↦ none
      | some n ↦ hextets (n * 2 ^ (16 * (8 - (length hi + length lo)))) lo
    ]
    else none

unfoldable pub is_blank : Option Text → Bool
is_blank none = true
is_blank (some p) = not (nonempty p)

unfoldable pub first? : List Text → Option Text
first? [] = none
first? (p ∷ ps) = some p

unfoldable pub groups : List Text → Option ℕ
unfolding hextets inner_empty take side join_sides is_blank first? last?
groups parts = elim (inner_empty 0 parts) [
  | [] ↦
      if length parts == 8 && not (is_blank (first? parts)) && not (is_blank (last? parts))
      then hextets 0 parts
      else none
  | skip ∷ [] ↦
      join_sides (side (take skip parts) (is_blank (first? parts)))
        (side (drop (skip + 1) parts) (is_blank (last? parts)))
  | skip ∷ again ∷ more ↦ none
]

-- `IPv6Address._ip_int_from_string`, from the groups between the colons.
unfoldable pub v6_of_parts : List Text → Option ℕ
v6_of_parts parts = if ltb (length parts) 3 then none else elim (expand_suffix parts) [
  | none ↦ none
  | some parts' ↦ if ltb 9 (length parts') then none else groups parts'
]

unfoldable pub v6_int : Text → Option ℕ
unfolding split
v6_int s = v6_of_parts (split b':' s)

-- `_split_scope_id`: the address without its scope.
unfoldable pub without_scope : Text → Option Text
unfolding has split_first
without_scope s = elim (split_first b'%' s) [
  | none ↦ some s
  | some (a, scope) ↦ if nonempty scope && not (has b'%' scope) then some a else none
]

unfoldable pub v6_address : Text → Option ℕ
unfolding has without_scope v6_int
v6_address s =
    if has b'/' s then none else elim (without_scope s) [ none ↦ none | some a ↦ v6_int a ]

unfoldable pub first_address : Option ℕ → Option ℕ → Option Address
first_address (some n) other = some (v4 n)
first_address none none = none
first_address none (some n) = some (v6 n)

-- `ip_address(s)`; `none` is `ValueError`. A `/` is no octet's character.
unfoldable pub ip_address : Text → Option Address
unfolding first_address v4_int v6_address v6_of_parts expand_suffix groups
ip_address s = first_address (v4_int s) (v6_address s)

pub record Network : Type 0 where
  pub address : Address
  pub prefix : ℕ

-- `addr in net`: same version, and the same first `prefix` bits.
unfoldable pub same_block : ℕ → ℕ → ℕ → ℕ → Bool
same_block bits prefix a b = a / 2 ^ (bits - prefix) == b / 2 ^ (bits - prefix)

unfoldable pub is_in : Address → Network → Bool
unfolding same_block
is_in (v4 a) net = elim net.address [ v4 b ↦ same_block 32 net.prefix a b | v6 b ↦ false ]
is_in (v6 a) net = elim net.address [ v4 b ↦ false | v6 b ↦ same_block 128 net.prefix a b ]

-- `_prefix_from_prefix_string`
unfoldable pub prefix_of_digits : ℕ → Text → Option ℕ
unfolding all_digits below digits_from
prefix_of_digits bits s =
    if nonempty s && all_digits s then below (bits + 1) (digits_from false 0 s) else none

-- `_prefix_from_ip_string`: the prefix whose mask, or else whose host mask, is `n`.
unfoldable pub prefix_of_mask : (ℕ → ℕ) → ℕ → ℕ → Option ℕ
prefix_of_mask mask zero n = if mask 0 == n then some 0 else none
prefix_of_mask mask (suc p) n =
    let rest = prefix_of_mask mask p n in if mask (suc p) == n then some (suc p) else rest

unfoldable pub prefix_of_ip : Text → Option ℕ
unfolding v4_int prefix_of_mask
prefix_of_ip s = elim (v4_int s) [
  | none ↦ none
  | some n ↦ elim (prefix_of_mask (λ p. 2 ^ 32 - 2 ^ (32 - p)) 32 n) [
    | some p ↦ some p
    | none ↦ prefix_of_mask (λ p. 2 ^ (32 - p) - 1) 32 n
  ]
]

unfoldable pub v4_prefix : Text → Option ℕ
unfolding prefix_of_digits prefix_of_ip
v4_prefix s = elim (prefix_of_digits 32 s) [ some p ↦ some p | none ↦ prefix_of_ip s ]

unfoldable pub network_of : (ℕ → Address) → Option ℕ → Option ℕ → Option Network
network_of version none prefix = none
network_of version (some n) none = none
network_of version (some n) (some p) = some (record { address = version n; prefix = p })

unfoldable pub first_some : Option Network → Option Network → Option Network
first_some none other = other
first_some (some n) other = some n

unfoldable pub v6_scoped : Text → Option ℕ
unfolding without_scope v6_int
v6_scoped s = elim (without_scope s) [ none ↦ none | some a ↦ v6_int a ]

-- `ip_network(s, strict=False)`; `none` is `ValueError`. A second `/` is in no prefix.
unfoldable pub ip_network : Text → Option Network
unfolding v4_int v4_prefix v6_scoped v6_of_parts expand_suffix groups prefix_of_digits network_of
    first_some split_first
ip_network s = elim (split_first b'/' s) [
  | none ↦ first_some (network_of v4 (v4_int s) (some 32)) (network_of v6 (v6_scoped s) (some 128))
  | some (a, p) ↦
      first_some (network_of v4 (v4_int a) (v4_prefix p))
        (network_of v6 (v6_scoped a) (prefix_of_digits 128 p))
]

unfoldable pub is_loopback : Address → Bool
unfolding same_block
is_loopback (v4 n) = same_block 32 8 n (127 * 2 ^ 24)
is_loopback (v6 n) = n == 1

-- The networks of `_private_networks`, by prefix and first address.
unfoldable pub private_v4 : List (ℕ × ℕ)
private_v4 =
    (8, 0)
    ∷ (8, 10 * 2 ^ 24)
    ∷ (8, 127 * 2 ^ 24)
    ∷ (16, 169 * 2 ^ 24 + 254 * 2 ^ 16)
    ∷ (12, 172 * 2 ^ 24 + 16 * 2 ^ 16)
    ∷ (29, 192 * 2 ^ 24)
    ∷ (31, 192 * 2 ^ 24 + 170)
    ∷ (24, 192 * 2 ^ 24 + 2 * 2 ^ 8)
    ∷ (16, 192 * 2 ^ 24 + 168 * 2 ^ 16)
    ∷ (15, 198 * 2 ^ 24 + 18 * 2 ^ 16)
    ∷ (24, 198 * 2 ^ 24 + 51 * 2 ^ 16 + 100 * 2 ^ 8)
    ∷ (24, 203 * 2 ^ 24 + 113 * 2 ^ 8)
    ∷ (4, 240 * 2 ^ 24)
    ∷ (32, 2 ^ 32 - 1)
    ∷ []

unfoldable pub private_v6 : List (ℕ × ℕ)
private_v6 =
    (128, 1)
    ∷ (128, 0)
    ∷ (96, 0xffff * 2 ^ 32)
    ∷ (64, 0x100 * 2 ^ 112)
    ∷ (23, 0x2001 * 2 ^ 112)
    ∷ (48, 0x2001 * 2 ^ 112 + 2 * 2 ^ 96)
    ∷ (32, 0x2001 * 2 ^ 112 + 0xdb8 * 2 ^ 96)
    ∷ (28, 0x2001 * 2 ^ 112 + 0x10 * 2 ^ 96)
    ∷ (7, 0xfc00 * 2 ^ 112)
    ∷ (10, 0xfe80 * 2 ^ 112)
    ∷ []

unfoldable pub in_blocks : ℕ → ℕ → List (ℕ × ℕ) → Bool
unfolding same_block
in_blocks bits n [] = false
in_blocks bits n ((prefix, base) ∷ blocks) =
    same_block bits prefix n base || in_blocks bits n blocks

-- An IPv4 address that is mapped into IPv6 answers as itself.
unfoldable pub is_private : Address → Bool
unfolding in_blocks private_v4 private_v6
is_private (v4 n) = in_blocks 32 n private_v4
is_private (v6 n) =
    if n / 2 ^ 32 == 0xffff
    then in_blocks 32 (n % 2 ^ 32) private_v4
    else in_blocks 128 n private_v6

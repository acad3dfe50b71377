-- ===== src/DeviceStore/Methods.antt =====
-- The methods of `DeviceStore`. Each returns the store beside its result, also when it raises.
use lan_manager.Prelude.{
  ℕ, ◌+◌, Bool, false, not, ◌&&◌, List, [], ◌∷◌, ◌++◌, map, Option, none, some, is_some, Text, lit,
  text_eq, nonempty, or_text, strip, Dict, put, filter, length, ◌==◌, if◌then◌else◌, or_else,
}
use lan_manager.DeviceStore.{
  Entry, Store, Error, no_identifier, already_known, bad_ip, bad_mac, needs_one, ip_taken,
  mac_taken, Result, ok, err, normalize, is_mac, is_ip, ident_of, identifies, find_from, at, set_at,
  among, hidden_set,
}

-- What the caller sends: `none` leaves the address as it is.
pub record Fields : Type 0 where
  pub new_ip : Option Text
  pub new_mac : Option Text
  pub editable : Dict Text

-- `other is entry`
abbrev pub is_place : Option ℕ → ℕ → Bool
is_place none j = false
is_place (some i) j = i == j

-- The loop of `_set_identity` over the other entries: the first that has the address.
unfoldable pub conflict : Option ℕ → ℕ → Text → Text → List Entry → Option Error
conflict place j ip mac [] = none
conflict place j ip mac (other ∷ es) =
    let rest = conflict place (j + 1) ip mac es in
    if is_place place j
    then rest
    else if nonempty ip && identifies ip other
    then some (ip_taken ip)
    else if nonempty mac && not (nonempty ip) && identifies mac other
    then some (mac_taken mac)
    else rest

abbrev pub kept_or_popped : Text → Option Text
kept_or_popped [] = none
kept_or_popped (c ∷ s) = some (c ∷ s)

abbrev pub with_address : Entry → Text → Text → Entry
with_address e ip mac = record e { ip = kept_or_popped ip; mac = kept_or_popped mac }

-- Whether the entry's identifier is among the hidden.
unfoldable pub is_hidden : Entry → List Text → Bool
is_hidden e names = nonempty (ident_of e) && among (normalize (ident_of e)) names

-- The hidden list after the entry moved from `old` to `new`: the flag follows it.
unfoldable pub move_hidden : Entry → Entry → Text → List Text → List Text
move_hidden old new label hidden =
    if is_hidden old (map normalize hidden) && not (is_hidden new (map normalize hidden))
    then filter (λ x. not (identifies (normalize x) old)) hidden ++ label ∷ []
    else hidden

-- `_set_identity` on the entry at `place`: the entry and the hidden list afterwards.
unfoldable pub set_identity : Store → Option ℕ → Entry → Fields → Result (Entry × List Text)
set_identity s place entry fields =
    if not (is_some fields.new_ip) && not (is_some fields.new_mac)
    then ok (entry, s.hidden)
    else let ip = strip (or_else fields.new_ip (or_else entry.ip [])) in
      let mac = normalize (or_else fields.new_mac (or_else entry.mac [])) in
      if nonempty ip && not (is_ip ip)
      then err (bad_ip ip)
      else if nonempty mac && not (is_mac mac)
      then err (bad_mac mac)
      else if not (nonempty ip) && not (nonempty mac)
      then err needs_one
      else elim (conflict place 0 ip mac s.devices) [
        | some e ↦ err e
        | none ↦
            let entry' = with_address entry ip mac in
            ok (entry', move_hidden entry entry' (or_text ip mac) s.hidden)
      ]

-- `EDITABLE`
abbrev pub editable_keys : List Text
editable_keys = lit "name" ∷ lit "type" ∷ lit "os" ∷ lit "notes" ∷ lit "url" ∷ lit "services" ∷ []

-- `entry.update(...)` with the editable fields only.
unfoldable pub update_fields : Dict Text → Dict Text → Dict Text
update_fields d [] = d
update_fields d ((k, v) ∷ new) = update_fields (if among k editable_keys then put d k v else d) new

abbrev pub save : Store → Store
save s = record s { saves = s.saves + 1 }

unfoldable pub append_entry : Store → Entry → Store
append_entry s e = record s { devices = s.devices ++ e ∷ [] }

abbrev pub no_entry : Entry
no_entry = record { ip = none; mac = none; fields = [] }

-- `{"ip": ip, "mac": mac}`
abbrev pub addressed : Text → Text → Dict Text → Fields
addressed ip mac fields = record { new_ip = some ip; new_mac = some mac; editable = fields }

unfoldable pub add : Store → Text → Text → Dict Text → Result Entry × Store
add s mac ip fields =
    let mac' = normalize mac in
    let ip' = strip ip in
    if not (nonempty mac') && not (nonempty ip')
    then (err no_identifier, s)
    else elim (find_from 0 (or_text ip' mac') s.devices) [
      | some i ↦ (err (already_known (or_text ip' mac')), s)
      | none ↦ elim (set_identity s none no_entry (addressed ip' mac' fields)) [
        | err e ↦ (err e, s)
        | ok (entry, hidden) ↦
            let entry' = record entry { fields = update_fields entry.fields fields } in
            (ok entry', save (append_entry (record s { hidden = hidden }) entry'))
      ]
    ]

-- The entry that `upsert` makes for an address that is not in the catalogue.
unfoldable pub fresh_entry : Text → Entry
fresh_entry ident =
    if is_mac ident
    then record { ip = none; mac = some ident; fields = [] }
    else record { ip = some ident; mac = none; fields = [] }

-- The entry that `upsert` works on, with its place and the store that holds it.
unfoldable pub locate : Store → Text → Store × ℕ × Entry
locate s ident = elim (find_from 0 ident s.devices) [
  | some i ↦ (s, i, or_else (at s.devices i) no_entry)
  | none ↦ (append_entry s (fresh_entry ident), length s.devices, fresh_entry ident)
]

unfoldable pub upsert : Store → Text → Fields → Result Entry × Store
upsert s identifier fields =
    let ident = normalize identifier in
    let (s', i, entry) = locate s ident in
    elim (set_identity s' (some i) entry fields) [
      | err e ↦ (err e, s')
      | ok (moved, hidden) ↦
          let entry' = record moved { fields = update_fields moved.fields fields.editable } in
          (ok entry', save (record s' { devices = set_at s'.devices i entry'; hidden = hidden }))
    ]

unfoldable pub hide : Store → Text → Store
hide s identifier =
    let ident = normalize identifier in
    if among ident (hidden_set s) then s else save (record s { hidden = s.hidden ++ ident ∷ [] })

unfoldable pub unhide : Store → Text → Store
unhide s identifier =
    let ident = normalize identifier in
    save (record s { hidden = filter (λ x. not (text_eq (normalize x) ident)) s.hidden })

unfoldable pub delete : Store → Text → Store
delete s identifier =
    let ident = normalize identifier in
    hide (record s { devices = filter (λ e. not (identifies ident e)) s.devices }) ident

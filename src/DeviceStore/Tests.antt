-- ===== src/DeviceStore/Tests.antt =====
-- Runs of the catalogue, and its theorems at concrete stores.
use lan_manager.Prelude.{
  ℕ, ◌≡◌, refl, Bool, true, false, List, [], ◌∷◌, map, Option, none, some, Text, lit, is_some,
  if◌then◌else◌, ◌||◌, ◌&&◌, not, ◌+◌, text_eq, strip, upper, any,
}
use lan_manager.DeviceStore.{
  ident_of, identifies, mac_re, is_ip, Entry, Store, Error, ok, err, needs_one, normalize,
  find_from, among, hidden_set,
}
use lan_manager.DeviceStore.Methods.{
  Fields, set_identity, is_hidden, fresh_entry, append_entry, upsert, add, hide, unhide, delete,
}
use lan_manager.DeviceStore.Unique.{unique, clear_of, clash}
use lan_manager.DeviceStore.Changes.{upsert-unique}

abbrev nas : Entry
nas = record { ip = some (lit "10.0.0.2"); mac = none; fields = [] }

abbrev router : Entry
router = record { ip = none; mac = some (lit "00:11:22:33:44:55"); fields = [] }

abbrev home : Store
home = record { devices = nas ∷ router ∷ []; hidden = lit "10.0.0.2" ∷ []; saves = 0 }

-- The device that is hidden moves to another address.
abbrev moving : Fields
moving = record { new_ip = some (lit "10.0.0.9"); new_mac = none; editable = [] }

abbrev clearing : Fields
clearing = record { new_ip = some []; new_mac = some []; editable = [] }

home-unique : unique home.devices ≡ true
unfolding unique clear_of clash ident_of identifies normalize mac_re strip text_eq upper
home-unique = refl

upsert-unique_example : unique (upsert home (lit " 10.0.0.2 ") moving).1.devices ≡ true
upsert-unique_example = upsert-unique home (lit " 10.0.0.2 ") moving home-unique

abbrev nas_moved : Entry
nas_moved = record nas { ip = some (lit "10.0.0.9") }

nas_moves : set_identity home (some 0) nas moving ≡ ok (nas_moved, lit "10.0.0.9" ∷ [])
unfolding set_identity strip normalize is_ip lan_manager.Python.Ip.ip_address
    lan_manager.DeviceStore.Methods.conflict identifies ident_of text_eq upper
    lan_manager.DeviceStore.Methods.move_hidden is_hidden among any lan_manager.Prelude.filter
nas_moves = refl

nas_hidden : is_hidden nas (hidden_set home) ≡ true
unfolding is_hidden ident_of strip normalize text_eq any among
nas_hidden = refl

refused : (upsert home (lit "10.0.0.5") clearing).0 ≡ err needs_one
unfolding upsert set_identity text_eq normalize strip find_from identifies ident_of
refused = refl

-- ===== src/Scanner/Tests.antt =====
-- A scan in which nothing answers.
use lan_manager.Prelude.{◌≡◌, refl, true, false, [], ◌∷◌, lit, text_eq, some, none, strip}
use lan_manager.DeviceStore.{Entry, Store}
use lan_manager.Registry.{empty, all}
use lan_manager.Scanner.{Answers, scan}
use lan_manager.Scanner.Presence.{in_catalogue}
use lan_manager.Scanner.Visible.{Some, all-scan}

abbrev printer : Entry
printer = record {
  ip = some (lit "192.0.2.20");
  mac = none;
  fields = (lit "name", lit "printer") ∷ [];
}

abbrev store : Store
store = record { devices = printer ∷ []; hidden = []; saves = 0 }

abbrev silence : Answers
silence = record { fast = []; slow = []; answers = λ ip. false; now = 7 }

listed : in_catalogue (lit "192.0.2.20") store.devices ≡ true
unfolding in_catalogue text_eq strip
listed = refl

all-scan_example : Some (λ d. d.ips ≡ lit "192.0.2.20" ∷ []) (all (scan store [] silence empty))
all-scan_example = all-scan store [] silence empty (lit "192.0.2.20") refl listed

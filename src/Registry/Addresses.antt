-- ===== src/Registry/Addresses.antt =====
-- The registry as a map from addresses to devices: an address never shares its device.
use lan_manager.Prelude.{
  ℕ, ◌≡◌, refl, ◌∙◌, ◌⊎◌, inl, inr, Bool, true, false, not, ◌&&◌, List, [], ◌∷◌, ◌++◌, Option, none,
  some, Text, text_eq, text_eq_refl, nonempty, length, arith, Dict, get, put, get-put, or_else, nth,
  put_nth, any,
}
use lan_manager.Registry.{
  Device, new_device, Registry, empty, find_device, with_mac, with_ip, with_hostname, with_source,
  observe, indexed, upsert_new, upsert_known, is_in_texts, tag_source,
}

unfoldable pub device_at : List Device → Option ℕ → Option Device
device_at devs none = none
device_at devs (some p) = nth devs p

-- The device of an address.
unfoldable pub device_of : Registry → Text → Option Device
unfolding device_at
device_of r ip = device_at r.devices (get r.by_ip ip)

pub record IsAddressed (r : Registry) : Type 0 where
  pub known :
      (ip : Text) (p : ℕ)
      → get r.by_ip ip ≡ some p
      → (d : Device) × (nth r.devices p ≡ some d) × (d.ips ≡ ip ∷ [])
  pub alone :
      (p : ℕ) (d : Device)
      → nth r.devices p ≡ some d
      → (d.ips ≡ []) ⊎ ((ip : Text) × (d.ips ≡ ip ∷ []) × (get r.by_ip ip ≡ some p))

pub empty-IsAddressed : IsAddressed empty
unfolding get
empty-IsAddressed = record { known = λ ip p h. absurd (cc h); alone = λ p d h. absurd (cc h) }

-- The addresses of a device after an observation.
with_source-ips : (d : Device) (source : Text) → (with_source d source).ips ≡ d.ips
unfolding with_source tag_source
with_source-ips d source = ground arith

with_hostname-ips : (d : Device) (hostname : Text) → (with_hostname d hostname).ips ≡ d.ips
unfolding with_hostname
with_hostname-ips d hostname = ground arith

with_mac-ips : (d : Device) (mac : Text) → (with_mac d mac).ips ≡ d.ips
unfolding with_mac
with_mac-ips d mac = ground arith

observe-ips :
    (d : Device) (mac ip hostname source : Text)
    → (observe d mac ip hostname source).ips ≡ (with_ip (with_mac d mac) ip).ips
unfolding observe
observe-ips d mac ip hostname source =
    with_source-ips (with_hostname (with_ip (with_mac d mac) ip) hostname) source
    ∙ with_hostname-ips (with_ip (with_mac d mac) ip) hostname

pub observe_no_ip :
    (d : Device) (mac hostname source : Text) → (observe d mac [] hostname source).ips ≡ d.ips
unfolding with_ip
observe_no_ip d mac hostname source = observe-ips d mac [] hostname source ∙ with_mac-ips d mac

and_not-true : (b : Bool) → (b && not true) ≡ false
and_not-true true = refl
and_not-true false = refl

with_first_ip :
    (d : Device) (ip : Text) → d.ips ≡ [] → nonempty ip ≡ true → (with_ip d ip).ips ≡ ip ∷ []
unfolding with_ip is_in_texts any
with_first_ip d ip h k = rw (h, k) refl

with_same_ip : (d : Device) (ip : Text) → d.ips ≡ ip ∷ [] → (with_ip d ip).ips ≡ ip ∷ []
unfolding with_ip is_in_texts any
with_same_ip d ip h = rw (h, text_eq_refl ip, and_not-true (nonempty ip)) refl

-- A device that no observation has given an address yet gets this one; one that has it keeps it.
pub observe_owner :
    (d : Device) (mac ip hostname source : Text)
    → nonempty ip ≡ true
    → (d.ips ≡ []) ⊎ (d.ips ≡ ip ∷ [])
    → (observe d mac ip hostname source).ips ≡ ip ∷ []
observe_owner d mac ip hostname source k (inl h) =
    observe-ips d mac ip hostname source
    ∙ with_first_ip (with_mac d mac) ip (with_mac-ips d mac ∙ h) k
observe_owner d mac ip hostname source k (inr h) =
    observe-ips d mac ip hostname source ∙ with_same_ip (with_mac d mac) ip (with_mac-ips d mac ∙ h)

-- The owner of an address, and the place it gets.
abbrev pub owner : Registry → Text → Text → Device
owner r m a = or_else (device_of r a) (new_device m)

pub get_other :
    (d : Dict ℕ) (k j : Text) (p : ℕ) → text_eq k j ≡ false → get (put d k p) j ≡ get d j
get_other d k j p h = rw (get-put d k j p, h) refl

pub get_same : (d : Dict ℕ) (k j : Text) (p : ℕ) → text_eq k j ≡ true → get (put d k p) j ≡ some p
get_same d k j p h = rw (get-put d k j p, h) refl

pub find_device_by_ip :
    (r : Registry) (m a : Text) → nonempty a ≡ true → find_device r m a ≡ get r.by_ip a
unfolding find_device
find_device_by_ip r m a h = rw h refl

indexed_by_ip :
    (r : Registry) (m a : Text) (p : ℕ)
    → nonempty a ≡ true
    → (indexed r m a p).by_ip ≡ put r.by_ip a p
unfolding indexed
indexed_by_ip r m a p h = rw h refl

indexed-devices : (r : Registry) (m a : Text) (p : ℕ) → (indexed r m a p).devices ≡ r.devices
unfolding indexed
indexed-devices r m a p = refl

-- The state that an observation of the address `a` leaves, for a new device and a known one.
pub record Leaves (r r' : Registry) (a : Text) (devices : List Device) (p : ℕ) : Type 0 where
  pub devices_are : r'.devices ≡ devices
  pub by_ip_is : r'.by_ip ≡ put r.by_ip a p

pub upsert_new-Leaves :
    (r : Registry) (m a hostname source : Text)
    → nonempty a ≡ true
    → Leaves r
        (upsert_new r m a hostname source).1
        a
        (r.devices ++ observe (new_device m) m a hostname source ∷ [])
        (length r.devices)
unfolding upsert_new
upsert_new-Leaves r m a hostname source full =
    let r1 = record r { devices = r.devices ++ observe (new_device m) m a hostname source ∷ [] } in
    record {
      devices_are = indexed-devices r1 m a (length r.devices);
      by_ip_is = indexed_by_ip r1 m a (length r.devices) full;
    }

pub upsert_known-Leaves :
    (r : Registry) (m a hostname source : Text) (p : ℕ) (d : Device)
    → nonempty a ≡ true
    → Leaves r
        (upsert_known r m a hostname source p (some d)).1
        a
        (put_nth r.devices p (observe d m a hostname source))
        p
unfolding upsert_known
upsert_known-Leaves r m a hostname source p d full =
    let r1 = record r { devices = put_nth r.devices p (observe d m a hostname source) } in
    record { devices_are = indexed-devices r1 m a p; by_ip_is = indexed_by_ip r1 m a p full }

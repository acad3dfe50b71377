-- ===== src/Scanner/Visible.antt =====
-- The list that a registry publishes.
use lan_manager.Prelude.{
  ℕ, ◌≡◌, refl, ap, sym, ◌∙◌, subst, ◌⊎◌, inl, inr, true, false, List, [], ◌∷◌, ◌++◌, some, Text,
  text_eq, nonempty, Bool-cases, Option-cases, Dict, get, nth, is_some, arith, any, ◌==◌, ==_iff,
}
use lan_manager.DeviceStore.{Store}
use lan_manager.Registry.{Device, Registry, values, distinct, devices_at, all_places, all}
use lan_manager.Scanner.{Subnet, Answers, scan}
use lan_manager.Scanner.Presence.{in_catalogue}
use lan_manager.Scanner.Complete.{scan-Knows}

-- Some element of a list.
abbrev pub Some {ℓ} : {A : Type ℓ} → (A → Type 0) → List A → Type 0
Some P [] = ⊥
Some P (x ∷ xs) = P x ⊎ Some P xs

Some-append_left {ℓ} :
    {A : Type ℓ} (P : A → Type 0) (xs ys : List A) → Some P xs → Some P (xs ++ ys)
Some-append_left P [] ys h = absurd h
Some-append_left P (x ∷ xs) ys (inl h) = inl h
Some-append_left P (x ∷ xs) ys (inr h) = inr (Some-append_left P xs ys h)

Some-append_right {ℓ} :
    {A : Type ℓ} (P : A → Type 0) (xs ys : List A) → Some P ys → Some P (xs ++ ys)
Some-append_right P [] ys h = h
Some-append_right P (x ∷ xs) ys h = inr (Some-append_right P xs ys h)

Some-map {ℓ} :
    {A : Type ℓ} {P Q : A → Type 0} → ((x : A) → P x → Q x) → (xs : List A) → Some P xs → Some Q xs
Some-map f [] h = absurd h
Some-map f (x ∷ xs) (inl h) = inl (f x h)
Some-map f (x ∷ xs) (inr h) = inr (Some-map f xs h)

abbrev IsPlace : ℕ → ℕ → Type 0
IsPlace p q = q ≡ p

get-values : (d : Dict ℕ) (j : Text) (p : ℕ) → get d j ≡ some p → Some (IsPlace p) (values d)
unfolding get values
get-values [] j p h = absurd (cc h)
get-values ((k, q) ∷ d) j p h = elim (Bool-cases (text_eq k j)) [
  | inl same ↦ inl (here k q d j p same h)
  | inr other ↦ inr (get-values d j p (there k q d j p other h))
]
  where
    here :
        (k : Text) (q : ℕ) (d : Dict ℕ) (j : Text) (p : ℕ)
        → text_eq k j ≡ true
        → get ((k, q) ∷ d) j ≡ some p
        → q ≡ p
    here k q d j p same h = ground (arith, same, h)

    there :
        (k : Text) (q : ℕ) (d : Dict ℕ) (j : Text) (p : ℕ)
        → text_eq k j ≡ false
        → get ((k, q) ∷ d) j ≡ some p
        → get d j ≡ some p
    there k q d j p other h = ground (arith, other, h)

any-IsPlace : (p : ℕ) (seen : List ℕ) → any (λ q. q == p) seen ≡ true → Some (IsPlace p) seen
unfolding any
any-IsPlace p [] h = absurd (cc h)
any-IsPlace p (q ∷ seen) h = elim (Bool-cases (q == p)) [
  | inl same ↦ inl ((==_iff q p).0 same)
  | inr other ↦ inr (any-IsPlace p seen (rw other at h))
]

-- Where the place is after one step of `distinct`.
move :
    (q p : ℕ) (ps seen seen' : List ℕ)
    → Some (IsPlace p) (q ∷ ps) ⊎ Some (IsPlace p) seen
    → (q ≡ p → Some (IsPlace p) seen')
    → (Some (IsPlace p) seen → Some (IsPlace p) seen')
    → Some (IsPlace p) ps ⊎ Some (IsPlace p) seen'
move q p ps seen seen' (inl (inl same)) f g = inr (f same)
move q p ps seen seen' (inl (inr later)) f g = inl later
move q p ps seen seen' (inr before) f g = inr (g before)

distinct_keeps :
    (ps seen : List ℕ) (p : ℕ)
    → Some (IsPlace p) ps ⊎ Some (IsPlace p) seen
    → Some (IsPlace p) (distinct ps seen)
unfolding distinct
distinct_keeps [] seen p (inl h) = absurd h
distinct_keeps [] seen p (inr h) = h
distinct_keeps (q ∷ ps) seen p h = elim (Bool-cases (any (λ i. i == q) seen)) [
  | inl known ↦ rw known (
      distinct_keeps ps seen p (
        move q p ps seen seen h
          (λ e. subst (λ i. Some (IsPlace i) seen) e (any-IsPlace q seen known)) (λ k. k)))
  | inr new ↦ rw new (
      distinct_keeps ps (seen ++ q ∷ []) p (
        move q p ps seen (seen ++ q ∷ []) h
          (λ e. Some-append_right (IsPlace p) seen (q ∷ []) (inl e))
          (Some-append_left (IsPlace p) seen (q ∷ []))))
]

devices_at_has :
    (devs : List Device) (ps : List ℕ) (p : ℕ) (d : Device)
    → Some (IsPlace p) ps
    → nth devs p ≡ some d
    → Some (λ e. e ≡ d) (devices_at devs ps)
unfolding devices_at
devices_at_has devs [] p d h k = absurd h
devices_at_has devs (q ∷ ps) p d (inl same) k = rw (same, k, devices_at) (inl refl)
devices_at_has devs (q ∷ ps) p d (inr h) k = elim (Option-cases (nth devs q)) [
  | inl absent ↦ rw (absent, devices_at) (devices_at_has devs ps p d h k)
  | inr (e, there) ↦ rw (there, devices_at) (inr (devices_at_has devs ps p d h k))
]

get_present : (d : Dict ℕ) (j : Text) → is_some (get d j) ≡ true → (p : ℕ) × (get d j ≡ some p)
get_present d j h = elim (Option-cases (get d j)) [
  | inl absent ↦ absurd (false_true (sym (ap is_some absent) ∙ h))
  | inr found ↦ found
]
  where
    false_true : ¬ (false ≡ true)
    false_true h = cc

-- Whatever the sources of a scan answer, in whatever order they arrive, and whatever answers a
-- ping, the list that the scan publishes has, for every entry of the catalogue with an address, a
-- device with this address and no other.
pub all-scan :
    (store : Store) (subnets : List Subnet) (a : Answers) (old : Registry) (j : Text)
    → nonempty j ≡ true
    → in_catalogue j store.devices ≡ true
    → Some (λ d. d.ips ≡ j ∷ []) (all (scan store subnets a old))
unfolding all all_places
all-scan store subnets a old j full listed =
    let r = scan store subnets a old in
    let knows = scan-Knows store subnets a old j full listed in
    let (p, found) = get_present r.by_ip j knows.present in
    let (d, here, owns) = knows.addressed.known j p found in
    let placed = distinct_keeps (values r.by_mac ++ values r.by_ip) [] p (
      inl (
        Some-append_right (IsPlace p) (values r.by_mac) (values r.by_ip)
          (get-values r.by_ip j p found))) in
    Some-map (λ e same. ap (λ x. x.ips) same ∙ owns) _ (devices_at_has r.devices _ p d placed here)

-- ===== src/Registry/Map.antt =====
-- What an observation with an address does: the registry as a map from addresses to devices.
use lan_manager.Prelude.{
  ℕ, ◌≡◌, ◌≢◌, refl, ap, sym, ◌∙◌, ◌⊎◌, inl, inr, true, false, List, [], ◌∷◌, ◌++◌, some, Text,
  text_eq, text_eq_iff, ◌==◌, ==_iff, text_eq_refl, length, arith, Bool-cases, Option-cases, get,
  put, if◌then◌else◌, nth, put_nth, nth-put_nth_same, nth-put_nth_other, nth-append_last,
  nth-append_front, nth-append_back,
}
use lan_manager.Registry.{Device, Registry}
use mathlib.Core.Option.{some-injective}
use lan_manager.Registry.Addresses.{device_at, device_of, IsAddressed, get_other, get_same}

pub same_device :
    (devs : List Device) (p q : ℕ) (d e : Device)
    → p ≡ q
    → nth devs p ≡ some d
    → nth devs q ≡ some e
    → d ≡ e
same_device devs p q d e same h k = some-injective d e (sym h ∙ ap (nth devs) same ∙ k)

head_eq : (a j : Text) → a ∷ [] ≡ j ∷ [] → a ≡ j
head_eq a j h = cc

text_eq_clash : (a j : Text) → a ≡ j → text_eq a j ≢ false
text_eq_clash a j h k = true_not_false (sym ((text_eq_iff a j).1 h) ∙ k)
  where
    true_not_false : true ≢ false
    true_not_false h = cc

pub places_differ :
    (r : Registry) (a j : Text) (p q : ℕ)
    → IsAddressed r
    → get r.by_ip a ≡ some p
    → get r.by_ip j ≡ some q
    → text_eq a j ≡ false
    → p ≢ q
places_differ r a j p q ok h k other same =
    let (d, here, owns) = ok.known a p h in
    let (e, there, owns') = ok.known j q k in
    let one : d ≡ e = same_device r.devices p q d e same here there in
    text_eq_clash a j (head_eq a j (sym owns ∙ ap (λ x. x.ips) one ∙ owns')) other

-- `e` stands at the place `p` now, and all other places are as before.
pub record Changed (devs devs' : List Device) (p : ℕ) (e : Device) : Type 0 where
  pub here : nth devs' p ≡ some e
  pub front : (q : ℕ) (d : Device) → q ≢ p → nth devs q ≡ some d → nth devs' q ≡ some d
  pub back : (q : ℕ) (d : Device) → q ≢ p → nth devs' q ≡ some d → nth devs q ≡ some d

pub append-Changed :
    (devs : List Device) (e : Device) → Changed devs (devs ++ e ∷ []) (length devs) e
append-Changed devs e = record {
  here = nth-append_last devs e;
  front = λ q d n h. nth-append_front devs q d e h;
  back = λ q d n h. nth-append_back devs q d e n h;
}

pub put_nth-Changed :
    (devs : List Device) (p : ℕ) (d e : Device)
    → nth devs p ≡ some d
    → Changed devs (put_nth devs p e) p e
put_nth-Changed devs p d e h = record {
  here = nth-put_nth_same devs p d e h;
  front = λ q c n k. nth-put_nth_other devs p q e (λ same. n (sym same)) ∙ k;
  back = λ q c n k. sym (nth-put_nth_other devs p q e (λ same. n (sym same))) ∙ k;
}

-- The registry `r'` is `r` with the device `e` of the address `a` at the place `p`.
pub record Serves (r r' : Registry) (a : Text) (e : Device) (p : ℕ) : Type 0 where
  pub changed : Changed r.devices r'.devices p e
  pub by_ip_is : r'.by_ip ≡ put r.by_ip a p
  pub apart : (j : Text) (q : ℕ) → text_eq a j ≡ false → get r.by_ip j ≡ some q → q ≢ p
  pub own : (q : ℕ) → get r.by_ip a ≡ some q → q ≡ p
  pub owns : e.ips ≡ a ∷ []

-- The map from addresses to devices, where `a` gets the device `e`.
pub Serves-device_of :
    (r r' : Registry) (a : Text) (e : Device) (p : ℕ) (j : Text)
    → IsAddressed r
    → Serves r r' a e p
    → device_of r' j ≡ (if text_eq a j then some e else device_of r j)
unfolding device_of device_at
Serves-device_of r r' a e p j ok s = elim (Bool-cases (text_eq a j)) [
  | inl same ↦ rw (s.by_ip_is, get_same r.by_ip a j p same, same) s.changed.here
  | inr other ↦
      rw (s.by_ip_is, get_other r.by_ip a j p other, other)
        (elim (Option-cases (get r.by_ip j)) [
          | inl absent ↦ rw absent refl
          | inr (q, found) ↦
              let (d, there, owns) = ok.known j q found in
              rw (found, there) (s.changed.front q d (s.apart j q other found) there)
        ])
]

Serves-known :
    (r r' : Registry) (a : Text) (e : Device) (p : ℕ)
    → IsAddressed r
    → Serves r r' a e p
    → (j : Text) (q : ℕ) → get r'.by_ip j ≡ some q
    → (d : Device) × (nth r'.devices q ≡ some d) × (d.ips ≡ j ∷ [])
Serves-known r r' a e p ok s j q h = elim (Bool-cases (text_eq a j)) [
  | inl same ↦
      let at : q ≡ p =
        some-injective q p (sym h ∙ ap (λ m. get m j) s.by_ip_is ∙ get_same r.by_ip a j p same) in
      (
        e,
        ap (nth r'.devices) at ∙ s.changed.here,
        s.owns ∙ ap (λ t. t ∷ []) ((text_eq_iff a j).0 same),
      )
  | inr other ↦
      let before = sym (get_other r.by_ip a j p other) ∙ sym (ap (λ m. get m j) s.by_ip_is) ∙ h in
      let (d, there, owns) = ok.known j q before in
      (d, s.changed.front q d (s.apart j q other before) there, owns)
]

not_same : (q p : ℕ) → q ≡ p → (q == p) ≢ false
not_same q p e h = grind (arith, e, h)

elsewhere :
    {r r' : Registry} {a : Text} {e : Device} {p : ℕ}
    → Serves r r' a e p
    → (ip : Text) (q : ℕ) → q ≢ p
    → get r.by_ip ip ≡ some q
    → text_eq a ip ≡ false
elsewhere {r} {a = a} s ip q apart found = elim (Bool-cases (text_eq a ip)) [
  | inl same ↦ absurd (apart (s.own q (ap (get r.by_ip) ((text_eq_iff a ip).0 same) ∙ found)))
  | inr other ↦ other
]

Serves-alone :
    (r r' : Registry) (a : Text) (e : Device) (p : ℕ)
    → IsAddressed r
    → Serves r r' a e p
    → (q : ℕ) (d : Device) → nth r'.devices q ≡ some d
    → (d.ips ≡ []) ⊎ ((ip : Text) × (d.ips ≡ ip ∷ []) × (get r'.by_ip ip ≡ some q))
Serves-alone r r' a e p ok s q d h = elim (Bool-cases (q == p)) [
  | inl same ↦
      let at : q ≡ p = (==_iff q p).0 same in
      let one : d ≡ e = same_device r'.devices q p d e at h s.changed.here in
      inr (
        a,
        ap (λ x. x.ips) one ∙ s.owns,
        ap (λ m. get m a) s.by_ip_is ∙ get_same r.by_ip a a p (text_eq_refl a) ∙ ap some (sym at),
      )
  | inr other ↦
      let apart : q ≢ p = λ at. not_same q p at other in
      elim (ok.alone q d (s.changed.back q d apart h)) [
        | inl no_address ↦ inl no_address
        | inr (ip, owns, found) ↦ inr (
          ip,
          owns,
          ap (λ m. get m ip) s.by_ip_is
              ∙ get_other r.by_ip a ip p (elsewhere s ip q apart found)
              ∙ found,
        )
      ]
]

pub Serves-IsAddressed :
    (r r' : Registry) (a : Text) (e : Device) (p : ℕ)
    → IsAddressed r
    → Serves r r' a e p
    → IsAddressed r'
Serves-IsAddressed r r' a e p ok s = record {
  known = Serves-known r r' a e p ok s;
  alone = Serves-alone r r' a e p ok s;
}

-- ===== src/Services/Groups.antt =====
-- The grouping of the entries by host loses none and asks none twice.
use lan_manager.Prelude.{
  ◌≡◌, refl, ap, sym, List, [], ◌∷◌, ◌++◌, Text, text_eq, text_eq_iff, Dict, get, put, All, map,
  inl, inr, Bool-cases, All-mono, or_else, unique_keys, unique_keys-put, get-put, filter,
  text_eq_refl, subst, true, ◌∙◌, arith, some,
}
use mathlib.Core.List.Permᴰ
use mathlib.Core.List.{append-nil, Permᴰ, append_assoc}
use lan_manager.Services.{add_to_group, group_all, ask_groups, by_host}

map-append {ℓ κ} :
    {A : Type ℓ} {B : Type κ} (f : A → B) (us vs : List A) → map f (us ++ vs) ≡ map f us ++ map f vs
map-append f [] vs = refl
map-append f (u ∷ us) vs = ap (◌∷◌ (f u)) (map-append f us vs)

-- The entries of all groups.
unfoldable flat {ℓ} : {A : Type ℓ} → Dict (List A) → List A
flat [] = []
flat ((host, us) ∷ groups) = us ++ flat groups

flat-add_to_group {ℓ} :
    {A : Type ℓ} (groups : Dict (List A)) (host : Text) (u : A)
    → Permᴰ (flat (add_to_group groups host u)) (u ∷ flat groups)
unfolding flat add_to_group get put
flat-add_to_group [] host u = Permᴰ.refl (u ∷ [])
flat-add_to_group ((h, us) ∷ groups) host u = elim (Bool-cases (text_eq h host)) [
  | inl same ↦ rw (same, append_assoc us (u ∷ []) (flat groups)) (Permᴰ.middle u us (flat groups))
  | inr other ↦ rw other (
      Permᴰ.trans (Permᴰ.append_left us (flat-add_to_group groups host u))
        (Permᴰ.middle u us (flat groups)))
]

-- In a dictionary whose keys are unique, each entry is the one that is found.
unique_keys-get {ℓ} :
    {V : Type ℓ} (d : Dict V) → unique_keys d ≡ true → All (λ e. get d e.0 ≡ some e.1) d
unfolding unique_keys get
unique_keys-get [] h = tt
unique_keys-get ((k, v) ∷ d) h = (
  rw (text_eq_refl k) refl,
  All-mono (λ e. get d e.0 ≡ some e.1) (λ e. get ((k, v) ∷ d) e.0 ≡ some e.1) d
      (λ e found. ground (arith, h, found, text_eq_iff k e.0))
      (unique_keys-get d (ground (arith, h))),
)

module _ {ℓ} {A : Type ℓ} (host_of : A → Text) where
  -- The entries of a host, in their order.
  abbrev pub at_host : Text → List A → List A
  at_host host us = filter (λ u. text_eq (host_of u) host) us

  pub at_host-All : (host : Text) (us : List A) → All (λ u. host_of u ≡ host) (at_host host us)
  unfolding filter
  at_host-All host [] = tt
  at_host-All host (u ∷ us) = elim (Bool-cases (text_eq (host_of u) host)) [
    | inl same ↦ rw same ((text_eq_iff (host_of u) host).0 same, at_host-All host us)
    | inr other ↦ rw other (at_host-All host us)
  ]

  flat-group_all :
      (us : List A) (groups : Dict (List A))
      → Permᴰ (flat (group_all host_of us groups)) (us ++ flat groups)
  unfolding group_all
  flat-group_all [] groups = Permᴰ.refl (flat groups)
  flat-group_all (u ∷ us) groups =
      Permᴰ.trans (flat-group_all us (add_to_group groups (host_of u) u)) (
        Permᴰ.trans (Permᴰ.append_left us (flat-add_to_group groups (host_of u) u))
          (Permᴰ.middle u us (flat groups)))

  get-add_to_group :
      (groups : Dict (List A)) (u : A) (us : List A) (h : Text)
      → or_else (get (add_to_group groups (host_of u) u) h) [] ++ at_host h us
        ≡ or_else (get groups h) [] ++ at_host h (u ∷ us)
  unfolding add_to_group filter
  get-add_to_group groups u us h = elim (Bool-cases (text_eq (host_of u) h)) [
    | inl same ↦
        let eq = (text_eq_iff (host_of u) h).0 same in
        rw (get-put groups (host_of u) h (or_else (get groups (host_of u)) [] ++ u ∷ []), same)
          (ap (λ k. (or_else (get groups k) [] ++ u ∷ []) ++ at_host h us) eq
            ∙ append_assoc (or_else (get groups h) []) (u ∷ []) (at_host h us))
    | inr other ↦
        rw (get-put groups (host_of u) h (or_else (get groups (host_of u)) [] ++ u ∷ []), other)
          refl
  ]

  get-group_all :
      (us : List A) (groups : Dict (List A)) (h : Text)
      → or_else (get (group_all host_of us groups) h) [] ≡ or_else (get groups h) [] ++ at_host h us
  unfolding group_all filter
  get-group_all [] groups h = sym (append-nil (or_else (get groups h) []))
  get-group_all (u ∷ us) groups h =
      get-group_all us (add_to_group groups (host_of u) u) h ∙ get-add_to_group groups u us h

  group_all-unique_keys :
      (us : List A) (groups : Dict (List A))
      → unique_keys groups ≡ true
      → unique_keys (group_all host_of us groups) ≡ true
  unfolding group_all add_to_group
  group_all-unique_keys [] groups h = h
  group_all-unique_keys (u ∷ us) groups h =
      group_all-unique_keys us (add_to_group groups (host_of u) u)
        (unique_keys-put groups (host_of u) (or_else (get groups (host_of u)) [] ++ u ∷ []) h)

  -- Each group has the entries of its host.
  abbrev IsGrouped : List A → Text × List A → Type ℓ
  IsGrouped us group = group.1 ≡ at_host group.0 us

  group_all-IsGrouped : (us : List A) → All (IsGrouped us) (group_all host_of us [])
  unfolding unique_keys get
  group_all-IsGrouped us =
      let groups = group_all host_of us [] in
      All-mono (λ g. get groups g.0 ≡ some g.1) (IsGrouped us) groups
        (λ g found. sym (ap (λ o. or_else o []) found) ∙ get-group_all us [] g.0)
        (unique_keys-get groups (group_all-unique_keys us [] refl))

module _ {ℓ κ} {A : Type ℓ} {B : Type κ} (host_of : A → Text) (ask : Text → List A → List B)
    (one : A → B) (us : List A) where
  ask_groups-flat :
      (groups : Dict (List A))
      → ((host : Text)
          → Permᴰ (ask host (at_host host_of host us)) (map one (at_host host_of host us)))
      → All (IsGrouped host_of us) groups
      → Permᴰ (ask_groups ask groups) (map one (flat groups))
  unfolding ask_groups flat
  ask_groups-flat [] says h = Permᴰ.nil
  ask_groups-flat ((host, group) ∷ groups) says h =
      let here : Permᴰ (ask host group) (map one group) =
        subst (λ g. Permᴰ (ask host g) (map one g)) (sym h.0) (says host) in
      rw (map-append one group (flat groups)) (
        Permᴰ.trans (Permᴰ.append_right (ask_groups ask groups) here)
          (Permᴰ.append_left (map one group) (ask_groups-flat groups says h.1)))

  -- When the answer of each host has what is said of each of its entries, in some order, so have the
  -- answers of all hosts.
  pub by_host_lem :
      ((host : Text)
        → Permᴰ (ask host (at_host host_of host us)) (map one (at_host host_of host us)))
      → Permᴰ (by_host host_of ask us) (map one us)
  unfolding by_host flat
  by_host_lem says =
      let groups = group_all host_of us [] in
      Permᴰ.trans (ask_groups-flat groups says (group_all-IsGrouped host_of us))
        (Permᴰ.map one (Permᴰ.trans (flat-group_all host_of us []) (Permᴰ.append-nil us)))

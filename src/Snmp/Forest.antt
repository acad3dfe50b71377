-- ===== src/Snmp/Forest.antt =====
-- The links of `build_topology` in backend/services/snmp.py form no ring.
use mathlib.Core.Path.{subst}
use lan_manager.Prelude.{
  ℕ, zero, suc, ◌≡◌, refl, true, false, List, [], ◌∷◌, none, some, Text, text_eq, text_eq_iff,
  text_eq_refl, Dict, get, put, get-put, any, length, arith, Bool-cases, Option-cases, inl, inr,
  sort_by,
}
use lan_manager.Snmp.{Host, Device, Link, climb, drop_rings, build_topology, all_links, link_before}

-- Upwards from a device the links end at one that has none.
pub data Rooted (padre : Dict Text) : Text → Type 0 where
  root : {a : Text} → get padre a ≡ none → Rooted padre a
  up : {a b : Text} → get padre a ≡ some b → Rooted padre b → Rooted padre a

-- They end, and do not come by this device.
data Avoids (padre : Dict Text) (device : Text) : Text → Type 0 where
  stop : {a : Text} → text_eq device a ≡ false → get padre a ≡ none → Avoids padre device a
  step :
      {a b : Text}
      → text_eq device a ≡ false
      → get padre a ≡ some b
      → Avoids padre device b
      → Avoids padre device a

climb-Avoids :
    (fuel : ℕ) (padre : Dict Text) (cur end : Text) (visti visti' : List Text) (device : Text)
    → any (text_eq device) visti ≡ true
    → climb fuel padre cur visti ≡ some (end, visti')
    → any (text_eq end) visti' ≡ false
    → Avoids padre device cur
unfolding climb
climb-Avoids zero padre cur end visti visti' device among e out = ground arith
climb-Avoids (suc fuel) padre cur end visti visti' device among e out =
    elim (Option-cases (get padre cur)) [
      | inl top ↦ stop (ground (arith, text_eq_iff device cur)) top
      | inr (next, found) ↦ elim (Bool-cases (any (text_eq cur) visti)) [
        | inl seen ↦ ground arith
        | inr new ↦ step (ground (arith, text_eq_iff device cur)) found (
            climb-Avoids fuel padre next end (cur ∷ visti) visti' device
              (unfold any in ground arith) (ground arith) out)
      ]
    ]

module _ (padre : Dict Text) (device via : Text) where
  -- A new link from a device to one above which it does not stand.
  Rooted-put_avoiding : (a : Text) → Avoids padre device a → Rooted (put padre device via) a
  Rooted-put_avoiding a (stop away e) = root (rw (get-put padre device a via, away) e)
  Rooted-put_avoiding a (step away e rest) =
      up (rw (get-put padre device a via, away) e) (Rooted-put_avoiding _ rest)

  Rooted-put_device : Avoids padre device via → Rooted (put padre device via) device
  Rooted-put_device h =
      up (rw (get-put padre device device via, text_eq_refl device) refl)
        (Rooted-put_avoiding via h)

  Rooted-put :
      (a : Text) → Avoids padre device via → Rooted padre a → Rooted (put padre device via) a
  Rooted-put a h (root e) = elim (Bool-cases (text_eq device a)) [
    | inl same ↦
        subst (Rooted (put padre device via)) ((text_eq_iff device a).0 same) (Rooted-put_device h)
    | inr other ↦ root (rw (get-put padre device a via, other) e)
  ]
  Rooted-put a h (up e rest) = elim (Bool-cases (text_eq device a)) [
    | inl same ↦
        subst (Rooted (put padre device via)) ((text_eq_iff device a).0 same) (Rooted-put_device h)
    | inr other ↦ up (rw (get-put padre device a via, other) e) (Rooted-put _ h rest)
  ]

-- The device above each device, by these links.
unfoldable pub parents : List Link → Dict Text → Dict Text
parents [] padre = padre
parents (l ∷ ls) padre = parents ls (put padre l.device l.via)

drop_rings-Rooted :
    (ls : List Link) (padre : Dict Text)
    → ((a : Text) → Rooted padre a)
    → (a : Text) → Rooted (parents (drop_rings ls padre) padre) a
unfolding drop_rings parents
drop_rings-Rooted [] padre h a = h a
drop_rings-Rooted (l ∷ ls) padre h a =
    elim (Option-cases (climb (suc (length padre)) padre l.via (l.device ∷ []))) [
      | inl e ↦ rw (e, drop_rings) (drop_rings-Rooted ls padre h a)
      | inr ((cur, visti), e) ↦ elim (Bool-cases (any (text_eq cur) visti)) [
        | inl ring ↦ rw (e, drop_rings, ring) (drop_rings-Rooted ls padre h a)
        | inr free ↦
            rw (e, drop_rings, free)
              (drop_rings-Rooted ls (put padre l.device l.via)
                (λ b.
                  Rooted-put padre l.device l.via b
                    (climb-Avoids (suc (length padre)) padre l.via cur (l.device ∷ []) visti
                      l.device (unfold any in ground (arith, text_eq_refl l.device)) e free)
                    (h b))
                a)
      ]
    ]

-- The links that `build_topology` answers form no ring: from every device the way upwards ends.
pub build_topology-Rooted :
    (hosts : List Host) (devices : List Device) (a : Text)
    → Rooted (parents (build_topology hosts devices) []) a
unfolding build_topology get
build_topology-Rooted hosts devices a =
    drop_rings-Rooted (sort_by link_before (all_links hosts devices)) [] (λ b. root refl) a

-- ===== src/Snmp/Ends.antt =====
-- The loop of `build_topology` in backend/services/snmp.py that follows the links upwards ends.
use lan_manager.Prelude.{
  ℕ, zero, suc, ◌+◌, ◌≤◌, ◌<◌, ◌≡◌, true, false, List, [], ◌∷◌, Text, text_eq, text_eq_iff, Dict,
  get, any, length, is_some, arith, if◌then◌else◌, Option-cases, inl, inr,
}
use lan_manager.Snmp.{climb}

-- How many keys have not been visited.
unfoldable pub unseen : Dict Text → List Text → ℕ
unseen [] visti = 0
unseen ((k, v) ∷ d) visti = if any (text_eq k) visti then unseen d visti else unseen d visti + 1

unseen_le : (d : Dict Text) (visti : List Text) → unseen d visti ≤ length d
unfolding unseen
unseen_le [] visti = ground arith
unseen_le ((k, v) ∷ d) visti = ground (arith, unseen_le d visti)

unseen-cons_le :
    (d : Dict Text) (x : Text) (visti : List Text) → unseen d (x ∷ visti) ≤ unseen d visti
unfolding unseen any
unseen-cons_le [] x visti = ground arith
unseen-cons_le ((k, v) ∷ d) x visti = ground (arith, unseen-cons_le d x visti)

unseen-cons :
    (d : Dict Text) (x : Text) (visti : List Text)
    → is_some (get d x) ≡ true
    → any (text_eq x) visti ≡ false
    → unseen d (x ∷ visti) < unseen d visti
unfolding unseen any get
unseen-cons [] x visti h n = ground arith
unseen-cons ((k, v) ∷ d) x visti h n =
    ground (arith, unseen-cons d x visti, unseen-cons_le d x visti, text_eq_iff k x)

climb_ends :
    (fuel : ℕ) (padre : Dict Text) (cur : Text) (visti : List Text)
    → unseen padre visti < fuel
    → is_some (climb fuel padre cur visti) ≡ true
unfolding climb
climb_ends zero padre cur visti h = ground arith
climb_ends (suc fuel) padre cur visti h = elim (Option-cases (get padre cur)) [
  | inl e ↦ ground arith
  | inr (next, e) ↦
      ground (arith, climb_ends fuel padre next (cur ∷ visti), unseen-cons padre cur visti)
]

-- The fuel that `drop_rings` gives is enough, whatever links were kept before.
pub climb-length :
    (padre : Dict Text) (via device : Text)
    → is_some (climb (suc (length padre)) padre via (device ∷ [])) ≡ true
climb-length padre via device =
    climb_ends (suc (length padre)) padre via (device ∷ [])
      (omega (arith, unseen_le padre (device ∷ [])))

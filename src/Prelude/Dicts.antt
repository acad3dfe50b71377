-- ===== src/Prelude/Dicts.antt =====
-- Python's `dict` with text keys, as its entries in the order of insertion.
use mathlib.Core.Path.{◌≡◌, refl}
use mathlib.Core.List.{List, [], ◌∷◌}
use mathlib.Core.Bool.{Bool, true, not, ◌&&◌}
use mathlib.Core.Option.{Option, none, some}
use native.Mathlib.Omega.{arith}
use lan_manager.Prelude.Tests.{if◌then◌else◌, is_some}
use lan_manager.Prelude.Texts.{Text, text_eq, text_eq_iff, text_eq_refl}

abbrev pub Dict {ℓ} : Type ℓ → Type ℓ
Dict V = List (Text × V)

module _ {ℓ} {V : Type ℓ} where
  -- `d.get(k)`
  unfoldable pub get : Dict V → Text → Option V
  get [] k = none
  get ((j, v) ∷ d) k = let rest = get d k in if text_eq j k then some v else rest

  -- `d[k] = v`
  unfoldable pub put : Dict V → Text → V → Dict V
  put [] k v = (k, v) ∷ []
  put ((j, w) ∷ d) k v = let rest = put d k v in if text_eq j k then (j, v) ∷ d else (j, w) ∷ rest

  -- `d.pop(k, None)`
  unfoldable pub pop : Dict V → Text → Dict V
  pop [] k = []
  pop ((j, w) ∷ d) k = let rest = pop d k in if text_eq j k then rest else (j, w) ∷ rest

  pub get-put :
      (d : Dict V) (k j : Text) (v : V)
      → get (put d k v) j ≡ (if text_eq k j then some v else get d j)
  unfolding get put
  get-put [] k j v = refl
  get-put ((i, w) ∷ d) k j v =
      ground (arith, text_eq_iff i k, text_eq_iff i j, text_eq_iff k j, get-put d k j v)

  pub get-pop :
      (d : Dict V) (k j : Text) → get (pop d k) j ≡ (if text_eq k j then none else get d j)
  unfolding get pop
  get-pop [] k j = ground arith
  get-pop ((i, w) ∷ d) k j =
      ground (arith, text_eq_iff i k, text_eq_iff i j, text_eq_iff k j, get-pop d k j)

  pub get-put_self : (d : Dict V) (k : Text) (v : V) → get (put d k v) k ≡ some v
  get-put_self d k v = simp (get-put, text_eq_refl)

-- No key stands twice.
unfoldable pub unique_keys {ℓ} : {V : Type ℓ} → Dict V → Bool
unique_keys [] = true
unique_keys ((k, v) ∷ d) = not (is_some (get d k)) && unique_keys d

pub unique_keys-put {ℓ} :
    {V : Type ℓ} (d : Dict V) (k : Text) (v : V)
    → unique_keys d ≡ true
    → unique_keys (put d k v) ≡ true
unfolding unique_keys put get
unique_keys-put [] k v h = refl
unique_keys-put ((j, w) ∷ d) k v h =
    ground (arith, unique_keys-put d k v, get-put d k j v, text_eq_iff k j, text_eq_iff j k)

pub unique_keys-pop {ℓ} :
    {V : Type ℓ} (d : Dict V) (k : Text) → unique_keys d ≡ true → unique_keys (pop d k) ≡ true
unfolding unique_keys pop
unique_keys-pop [] k h = refl
unique_keys-pop ((j, w) ∷ d) k h =
    ground (arith, unique_keys-pop d k, get-pop d k j, text_eq_iff k j, text_eq_iff j k)

pub ruleset dict_laws = (get-put, get-pop, text_eq_refl)

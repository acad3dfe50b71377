-- ===== src/Alerts/Order.antt =====
-- The sort of `build` in backend/services/alerts.py.
use mathlib.Core.List.{Permᴰ}
use mathlib.Core.List.Permᴰ
use lan_manager.Prelude.{
  text_before, ◌≡◌, refl, Bool, true, false, not, ◌&&◌, List, [], ◌∷◌, Text, text_eq, text_eq_comm,
  arith, Bool-cases, inl, inr,
}
use lan_manager.Alerts.{Alert, before, insert, sort}

pub text_before_asym : (s t : Text) → text_before s t ≡ true → text_before t s ≡ false
unfolding text_before
text_before_asym s [] h = ground arith
text_before_asym [] (d ∷ t) h = refl
text_before_asym (c ∷ s) (d ∷ t) h = ground (arith, text_before_asym s t)

text_before_ne : (s t : Text) → text_before s t ≡ true → text_eq s t ≡ false
unfolding text_before text_eq
text_before_ne s [] h = ground arith
text_before_ne [] (d ∷ t) h = refl
text_before_ne (c ∷ s) (d ∷ t) h = ground (arith, text_before_ne s t)

pub before_asym : (a b : Alert) → before a b ≡ true → before b a ≡ false
unfolding before
before_asym a b h = ground (
  arith,
  text_before_asym a.scope b.scope,
  text_before_asym a.title b.title,
  text_before_asym a.subject b.subject,
  text_before_ne a.scope b.scope,
  text_before_ne a.title b.title,
  text_before_ne b.scope a.scope,
  text_before_ne b.title a.title,
  text_eq_comm a.scope b.scope,
  text_eq_comm a.title b.title,
)

-- No alert is followed by one that goes before it.
abbrev pub first_ok : Alert → List Alert → Bool
first_ok a [] = true
first_ok a (b ∷ bs) = not (before b a)

unfoldable pub in_order : List Alert → Bool
in_order [] = true
in_order (a ∷ rest) = first_ok a rest && in_order rest

first_ok-insert :
    (a b : Alert) (bs : List Alert)
    → before b a ≡ true
    → first_ok b bs ≡ true
    → first_ok b (insert a bs) ≡ true
unfolding insert
first_ok-insert a b [] h ok = ground (arith, before_asym b a)
first_ok-insert a b (c ∷ bs) h ok = ground (arith, before_asym b a)

in_order-insert : (a : Alert) (bs : List Alert) → in_order bs ≡ true → in_order (insert a bs) ≡ true
unfolding insert in_order
in_order-insert a [] h = refl
in_order-insert a (b ∷ bs) h = ground (arith, in_order-insert a bs, first_ok-insert a b bs)

pub in_order-sort : (xs : List Alert) → in_order (sort xs) ≡ true
unfolding sort in_order
in_order-sort [] = refl
in_order-sort (a ∷ xs) = in_order-insert a (sort xs) (in_order-sort xs)

Permᴰ-insert : (a : Alert) (bs : List Alert) → Permᴰ (insert a bs) (a ∷ bs)
unfolding insert
Permᴰ-insert a [] = Permᴰ.refl (a ∷ [])
Permᴰ-insert a (b ∷ bs) = elim (Bool-cases (before b a)) [
  | inl h ↦ rw h (Permᴰ.trans (Permᴰ.cons refl (Permᴰ-insert a bs)) (Permᴰ.swap refl refl))
  | inr h ↦ rw h (Permᴰ.refl (a ∷ b ∷ bs))
]

pub Permᴰ-sort : (xs : List Alert) → Permᴰ (sort xs) xs
unfolding sort
Permᴰ-sort [] = Permᴰ.nil
Permᴰ-sort (a ∷ xs) = Permᴰ.trans (Permᴰ-insert a (sort xs)) (Permᴰ.cons refl (Permᴰ-sort xs))

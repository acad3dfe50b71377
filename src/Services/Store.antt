-- ===== src/Services/Store.antt =====
-- backend/services/service_store.py: the catalogue of the services, which the pages change. An entry
-- is its identifier and the rest; the file is not modelled.
use lan_manager.Prelude.{
  ℕ, ◌+◌, ◌-◌, ◌≤◌, ◌≡◌, refl, ap, true, not, List, [], ◌∷◌, Option, none, some, Text, text_eq,
  text_eq_refl, nonempty, strip, filter, length, if◌then◌else◌, arith,
}
use lan_manager.Services.Overview.{count}

pub record Entry : Type 0 where
  pub ident : Text
  pub rest : Text

-- `_SECTIONS`, with any other kind.
pub data Section : Type 0 where
  docker : Section
  systemd : Section
  windows_service : Section
  http : Section
  unknown : Section

-- `_data`
pub record Catalogue : Type 0 where
  pub pinned : List Entry
  pub units : List Entry
  pub services : List Entry
  pub checks : List Entry

-- `_list`
unfoldable pub list_of : Section → Catalogue → Option (List Entry)
list_of docker c = some c.pinned
list_of systemd c = some c.units
list_of windows_service c = some c.services
list_of http c = some c.checks
list_of unknown c = none

unfoldable pub with_list : Section → List Entry → Catalogue → Catalogue
with_list docker xs c = record c { pinned = xs }
with_list systemd xs c = record c { units = xs }
with_list windows_service xs c = record c { services = xs }
with_list http xs c = record c { checks = xs }
with_list unknown xs c = c

pub data Esito {ℓ} (A : Type ℓ) : Type ℓ where
  kind_unknown : Esito A
  ident_missing : Esito A
  done : A → Esito A

-- The first entry of the identifier is replaced, or the entry comes last.
unfoldable pub store : Text → Entry → List Entry → List Entry
unfolding text_eq
store ident e [] = e ∷ []
store ident e (x ∷ xs) =
    let later = store ident e xs in if text_eq x.ident ident then e ∷ xs else x ∷ later

unfoldable pub add_to : Section → Entry → Catalogue → Option (List Entry) → Esito Catalogue
unfolding store with_list strip
add_to kind e c none = kind_unknown
add_to kind e c (some xs) =
    let ident = strip e.ident in
    if nonempty ident then done (with_list kind (store ident e xs) c) else ident_missing

-- `add`
unfoldable pub add : Section → Entry → Catalogue → Esito Catalogue
unfolding add_to list_of
add kind e c = add_to kind e c (list_of kind c)

unfoldable pub others : Text → List Entry → List Entry
unfolding filter text_eq
others ident = filter (λ x. not (text_eq x.ident ident))

unfoldable pub remove_from :
    Section → Text → Catalogue → Option (List Entry) → Esito (Catalogue × ℕ)
unfolding others with_list
remove_from kind ident c none = kind_unknown
remove_from kind ident c (some xs) =
    done (with_list kind (others ident xs) c, length xs - length (others ident xs))

-- `remove`, with how many went
unfoldable pub remove : Section → Text → Catalogue → Esito (Catalogue × ℕ)
unfolding remove_from list_of
remove kind ident c = remove_from kind ident c (list_of kind c)

abbrev pub count_ident : Text → List Entry → ℕ
count_ident ident = count (λ (x : Entry). text_eq x.ident ident)

none_named : (ident : Text) (xs : List Entry) → count_ident ident xs ≡ 0 → others ident xs ≡ xs
unfolding count others
none_named ident [] h = refl
none_named ident (x ∷ xs) h = ground (arith, none_named ident xs)

others-store :
    (e : Entry) (xs : List Entry)
    → count_ident e.ident xs ≤ 1
    → others e.ident (store e.ident e xs) ≡ others e.ident xs
unfolding count others store
others-store e [] h = rw (text_eq_refl e.ident) refl
others-store e (x ∷ xs) h = ground (arith, others-store e xs, text_eq_refl e.ident)

length-store :
    (e : Entry) (xs : List Entry)
    → count_ident e.ident xs ≤ 1
    → length (store e.ident e xs) ≡ length (others e.ident xs) + 1
unfolding count others store
length-store e [] h = refl
length-store e (x ∷ xs) h = ground (arith, length-store e xs, none_named e.ident xs)

list_of-with_list :
    (kind : Section) (c : Catalogue) (xs ys : List Entry)
    → list_of kind c ≡ some xs
    → list_of kind (with_list kind ys c) ≡ some ys
unfolding list_of with_list
list_of-with_list docker c xs ys h = refl
list_of-with_list systemd c xs ys h = refl
list_of-with_list windows_service c xs ys h = refl
list_of-with_list http c xs ys h = refl
list_of-with_list unknown c xs ys h = ground (arith, h)

with_list-with_list :
    (kind : Section) (c : Catalogue) (xs ys : List Entry)
    → with_list kind xs (with_list kind ys c) ≡ with_list kind xs c
unfolding with_list
with_list-with_list docker c xs ys = refl
with_list-with_list systemd c xs ys = refl
with_list-with_list windows_service c xs ys = refl
with_list-with_list http c xs ys = refl
with_list-with_list unknown c xs ys = refl

-- Where at most one entry of the kind has the identifier, which has no blanks around it and is not
-- empty, `add` stores the entry, and `remove` then takes exactly that one: what is left is what it
-- was without entries of that identifier.
pub add-remove :
    (kind : Section) (e : Entry) (c : Catalogue) (xs : List Entry)
    → list_of kind c ≡ some xs
    → strip e.ident ≡ e.ident
    → nonempty e.ident ≡ true
    → count_ident e.ident xs ≤ 1
    → let stored = with_list kind (store e.ident e xs) c in
      (add kind e c ≡ done stored)
      × (remove kind e.ident stored ≡ done (with_list kind (others e.ident xs) c, 1))
unfolding add add_to remove remove_from
add-remove kind e c xs known plain given once =
    let ys = store e.ident e xs in
    (
      rw (known, plain, given) refl,
      rw
          (
            list_of-with_list kind c xs ys known,
            with_list-with_list kind c (others e.ident ys) ys,
            others-store e xs once,
            length-store e xs once,
          )
          (ap (λ n. done (with_list kind (others e.ident xs) c, n)) (omega arith)),
    )

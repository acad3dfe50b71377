-- ===== src/Secrets/Entries.antt =====
-- Dictionaries that are sorted and read back entry by entry.
use lan_manager.Prelude.{
  ◌≡◌, refl, sym, ◌∙◌, true, Bool, [], ◌∷◌, Option, none, some, Text, text_eq, text_eq_iff, arith,
  Bool-cases, inl, inr, if◌then◌else◌, Dict, get, put, pop, subst, get-put, unique_keys, insert_by,
  sort_by, All,
}

-- The later entry of a name wins.
unfoldable pub put_all : Dict Text → Dict Text → Dict Text
put_all [] out = out
put_all ((k, v) ∷ entries) out = put_all entries (put out k v)

-- `d.get(k)`, and else what stands in the other.
unfoldable pub first_of : Option Text → Option Text → Option Text
first_of none o = o
first_of (some v) o = some v

pub first_of-none : (o : Option Text) → first_of o none ≡ o
unfolding first_of
first_of-none none = refl
first_of-none (some v) = refl

pub get-put_all :
    (entries out : Dict Text) (k : Text)
    → unique_keys entries ≡ true
    → get (put_all entries out) k ≡ first_of (get entries k) (get out k)
unfolding put_all unique_keys get first_of
get-put_all [] out k h = refl
get-put_all ((j, v) ∷ entries) out k h =
    get-put_all entries (put out j v) k (ground arith)
    ∙ ground (arith, get-put out j k v, text_eq_iff j k)

insert_key :
    (before : Text × Text → Text × Text → Bool) (k v : Text) (d : Dict Text) (j : Text)
    → get d k ≡ none
    → get (insert_by before (k, v) d) j ≡ (if text_eq k j then some v else get d j)
unfolding get insert_by
insert_key before k v [] j h = refl
insert_key before k v ((i, w) ∷ d) j h =
    ground (arith, insert_key before k v d j, text_eq_iff i k, text_eq_iff i j, text_eq_iff k j)

insert_unique :
    (before : Text × Text → Text × Text → Bool) (k v : Text) (d : Dict Text)
    → unique_keys d ≡ true
    → get d k ≡ none
    → unique_keys (insert_by before (k, v) d) ≡ true
unfolding unique_keys insert_by get
insert_unique before k v [] u h = refl
insert_unique before k v ((i, w) ∷ d) u h =
    ground (
      arith,
      insert_unique before k v d,
      insert_key before k v d i,
      text_eq_iff i k,
      text_eq_iff k i,
    )

head_new :
    (k v : Text) (d : Dict Text)
    → unique_keys ((k, v) ∷ d) ≡ true
    → (get d k ≡ none) × (unique_keys d ≡ true)
unfolding unique_keys
head_new k v d h = ground arith

pub get-sort_by :
    (before : Text × Text → Text × Text → Bool) (d : Dict Text) (j : Text)
    → unique_keys d ≡ true
    → get (sort_by before d) j ≡ get d j
unfolding sort_by get
get-sort_by before [] j u = refl
get-sort_by before ((k, v) ∷ d) j u =
    let (new, rest) = head_new k v d u in
    rw
      (
        insert_key before k v (sort_by before d) j (get-sort_by before d k rest ∙ new),
        get-sort_by before d j rest,
      )
      refl

pub sort_by_unique :
    (before : Text × Text → Text × Text → Bool) (d : Dict Text)
    → unique_keys d ≡ true
    → unique_keys (sort_by before d) ≡ true
unfolding sort_by
sort_by_unique before [] u = u
sort_by_unique before ((k, v) ∷ d) u =
    let (new, rest) = head_new k v d u in
    insert_unique before k v (sort_by before d) (sort_by_unique before d rest)
      (get-sort_by before d k rest ∙ new)

-- What holds of each entry holds of the sorted ones.
module _ {κ} (P : Text × Text → Type κ) where
  insert_by-All :
      (before : Text × Text → Text × Text → Bool) (e : Text × Text) (d : Dict Text)
      → P e
      → All P d
      → All P (insert_by before e d)
  unfolding insert_by
  insert_by-All before e [] p h = (p, tt)
  insert_by-All before e (f ∷ d) p h = elim (Bool-cases (before f e)) [
    | inl later ↦ rw later (h.0, insert_by-All before e d p h.1)
    | inr here ↦ rw here (p, h)
  ]

  pub sort_by-All :
      (before : Text × Text → Text × Text → Bool) (d : Dict Text)
      → All P d
      → All P (sort_by before d)
  unfolding sort_by
  sort_by-All before [] h = tt
  sort_by-All before (e ∷ d) h =
      insert_by-All before e (sort_by before d) h.0 (sort_by-All before d h.1)

  pub put-All : (d : Dict Text) (k v : Text) → P (k, v) → All P d → All P (put d k v)
  unfolding put
  put-All [] k v p h = (p, tt)
  put-All ((j, w) ∷ d) k v p h = elim (Bool-cases (text_eq j k)) [
    | inl same ↦ rw same (subst (λ i. P (i, v)) (sym ((text_eq_iff j k).0 same)) p, h.1)
    | inr other ↦ rw other (h.0, put-All d k v p h.1)
  ]

  pub pop-All : (d : Dict Text) (k : Text) → All P d → All P (pop d k)
  unfolding pop
  pop-All [] k h = tt
  pop-All ((j, w) ∷ d) k h = elim (Bool-cases (text_eq j k)) [
    | inl same ↦ rw same (pop-All d k h.1)
    | inr other ↦ rw other (h.0, pop-All d k h.1)
  ]

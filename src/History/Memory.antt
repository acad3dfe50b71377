-- ===== src/History/Memory.antt =====
-- The states in memory are those of the table.
use lan_manager.Prelude.{
  ℕ, ◌≡◌, refl, ap, sym, ◌∙◌, ◌↔◌, inl, inr, Bool, true, false, List, [], ◌∷◌, ◌++◌, Option, none,
  some, arith, Bool-cases, if◌then◌else◌,
}
use lan_manager.History.{
  Row, Seen, History, same_state, get_last, put_last, mark_rows, mark, last_up, last_rows, remember,
  prime, prune_rows, prune,
}

module _ {K : Type 0} (same : K → K → Bool)
    (same_iff : (j k : K) → (same j k ≡ true) ↔ (j ≡ k)) where
  pub get_last-put_last :
      (last : List (K × Bool)) (k j : K) (b : Bool)
      → get_last same (put_last same last k b) j
        ≡ (if same k j then some b else get_last same last j)
  unfolding get_last put_last
  get_last-put_last [] k j b = refl
  get_last-put_last ((i, c) ∷ last) k j b =
      ground (arith, same_iff i k, same_iff i j, same_iff k j, get_last-put_last last k j b)

  -- The table after more rows.
  abbrev later : Option Bool → Option Bool → Option Bool
  later none o = o
  later (some b) o = some b

  last_up-append :
      (rows more : List (Row K)) (k : K)
      → last_up same (rows ++ more) k ≡ later (last_up same more k) (last_up same rows k)
  unfolding last_up
  last_up-append [] more k = ground arith
  last_up-append (r ∷ rows) more k = ground (arith, last_up-append rows more k)

  -- The states that are remembered are the last ones of the table.
  abbrev pub Agrees : History K → Type 0
  Agrees h = (k : K) → get_last same h.last k ≡ last_up same h.rows k

  last_up-prune_rows :
      (s : ℕ) (rows : List (Row K)) (k : K)
      → last_up same (prune_rows same s rows) k ≡ last_up same rows k
  unfolding last_up prune_rows
  last_up-prune_rows s [] k = refl
  last_up-prune_rows s (r ∷ rows) k = ground (arith, last_up-prune_rows s rows k, same_iff r.key k)

  mark_rows-later :
      (now : ℕ) (seen : List (Seen K)) (last : List (K × Bool)) (k : K)
      → get_last same (mark_rows same now seen last).0 k
        ≡ later (last_up same (mark_rows same now seen last).1 k) (get_last same last k)
  unfolding mark_rows last_up
  mark_rows-later now [] last k = refl
  mark_rows-later now (s ∷ seen) last k =
      elim (Bool-cases (same_state (get_last same last s.key) s.up)) [
        | inl kept ↦ rw kept (mark_rows-later now seen last k)
        | inr moved ↦ rw moved (
            mark_rows-later now seen (put_last same last s.key s.up) k
            ∙ ap
                (later (last_up same (mark_rows same now seen (put_last same last s.key s.up)).1 k))
                (get_last-put_last last s.key k s.up)
            ∙ after_row (last_up same (mark_rows same now seen (put_last same last s.key s.up)).1 k)
                (same s.key k) s.up (get_last same last k))
      ]
    where
      after_row :
          (o : Option Bool) (b up : Bool) (before : Option Bool)
          → later o (if b then some up else before)
            ≡ later (elim o [ some c ↦ some c | none ↦ if b then some up else none ]) before
      after_row none true up before = refl
      after_row none false up before = refl
      after_row (some c) b up before = refl

  -- A collection whose rows are written keeps the states in memory those of the table.
  pub mark-Agrees :
      (now : ℕ) (seen : List (Seen K)) (h : History K)
      → Agrees h
      → Agrees (mark same true now seen h)
  unfolding mark
  mark-Agrees now seen h ok k =
      mark_rows-later now seen h.last k
      ∙ ap (later (last_up same (mark_rows same now seen h.last).1 k)) (ok k)
      ∙ sym (last_up-append h.rows (mark_rows same now seen h.last).1 k)

  pub prune-Agrees : (s : ℕ) (h : History K) → Agrees h → Agrees (prune same s h)
  unfolding prune
  prune-Agrees s h ok k = ok k ∙ sym (last_up-prune_rows s h.rows k)

  remember-later :
      (rows : List (Row K)) (last : List (K × Bool)) (k : K)
      → get_last same (remember same rows last) k
        ≡ later (last_up same rows k) (get_last same last k)
  unfolding remember last_up
  remember-later [] last k = refl
  remember-later (r ∷ rows) last k =
      remember-later rows (put_last same last r.key r.up) k
      ∙ ground (arith, get_last-put_last last r.key k r.up)

  last_up-last_rows :
      (rows : List (Row K)) (k : K) → last_up same (last_rows same rows) k ≡ last_up same rows k
  unfolding last_rows last_up
  last_up-last_rows [] k = refl
  last_up-last_rows (r ∷ rows) k =
      ground (arith, last_up-last_rows rows k, last_up-last_rows rows r.key, same_iff r.key k)

  -- A start reads the states from the table, whatever was remembered.
  pub prime-Agrees : (h : History K) → Agrees (prime same h)
  unfolding prime get_last
  prime-Agrees h k =
      remember-later (last_rows same h.rows) [] k
      ∙ ap (λ o. later o none) (last_up-last_rows h.rows k)
      ∙ later_none (last_up same h.rows k)
    where
      later_none : (o : Option Bool) → later o none ≡ o
      later_none none = refl
      later_none (some b) = refl

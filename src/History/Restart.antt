-- ===== src/History/Restart.antt =====
-- A restart of the service leaves no trace in the history.
use lan_manager.Prelude.{
  ℕ, ◌≡◌, refl, ap, sym, ◌∙◌, ◌↔◌, inl, inr, Bool, true, List, [], ◌∷◌, ◌++◌, some, Bool-cases,
  if◌then◌else◌,
}
use lan_manager.History.{
  Seen, History, same_state, get_last, put_last, mark_rows, mark, last_up, prime, prune_rows, prune,
}
use lan_manager.History.Memory.{Agrees, get_last-put_last, mark-Agrees, prune-Agrees, prime-Agrees}

-- What happens to the history: a collection, a compaction with its limit, a restart.
pub data Step (K : Type 0) : Type 0 where
  collected : ℕ → List (Seen K) → Step K
  compacted : ℕ → Step K
  restarted : Step K

unfoldable pub run : {K : Type 0} → (K → K → Bool) → List (Step K) → History K → History K
run same [] h = h
run same (collected now seen ∷ steps) h = run same steps (mark same true now seen h)
run same (compacted s ∷ steps) h = run same steps (prune same s h)
run same (restarted ∷ steps) h = run same steps (prime same h)

-- The same steps without the restarts.
unfoldable pub uninterrupted : {K : Type 0} → List (Step K) → List (Step K)
uninterrupted [] = []
uninterrupted (restarted ∷ steps) = uninterrupted steps
uninterrupted (collected now seen ∷ steps) = collected now seen ∷ uninterrupted steps
uninterrupted (compacted s ∷ steps) = compacted s ∷ uninterrupted steps

module _ {K : Type 0} (same : K → K → Bool)
    (same_iff : (j k : K) → (same j k ≡ true) ↔ (j ≡ k)) where
  -- The rows to write depend on the remembered states alone.
  mark_rows_same :
      (now : ℕ) (seen : List (Seen K)) (l l' : List (K × Bool))
      → ((k : K) → get_last same l k ≡ get_last same l' k)
      → (mark_rows same now seen l).1 ≡ (mark_rows same now seen l').1
  unfolding mark_rows
  mark_rows_same now [] l l' e = refl
  mark_rows_same now (s ∷ seen) l l' e =
      elim (Bool-cases (same_state (get_last same l' s.key) s.up)) [
        | inl kept ↦ rw (e s.key, kept) (mark_rows_same now seen l l' e)
        | inr moved ↦
            rw (e s.key, moved)
              (ap (λ rows. record { t = now; key = s.key; up = s.up } ∷ rows)
                (mark_rows_same now seen (put_last same l s.key s.up) (put_last same l' s.key s.up)
                  (λ k.
                    get_last-put_last same same_iff l s.key k s.up
                    ∙ ap (λ o. if same s.key k then some s.up else o) (e k)
                    ∙ sym (get_last-put_last same same_iff l' s.key k s.up))))
      ]

  -- Two histories with one table that remember its last states.
  record Twins (h h' : History K) : Type 0 where
    rows_same : h.rows ≡ h'.rows
    left : Agrees same same_iff h
    right : Agrees same same_iff h'

  mark-Twins :
      (now : ℕ) (seen : List (Seen K)) (h h' : History K)
      → Twins h h'
      → Twins (mark same true now seen h) (mark same true now seen h')
  unfolding mark
  mark-Twins now seen h h' t = record {
    rows_same =
        ap (λ r. r ++ (mark_rows same now seen h.last).1) t.rows_same
        ∙ ap (λ r. h'.rows ++ r)
            (mark_rows_same now seen h.last h'.last
              (λ k. t.left k ∙ ap (λ r. last_up same r k) t.rows_same ∙ sym (t.right k)));
    left = mark-Agrees same same_iff now seen h t.left;
    right = mark-Agrees same same_iff now seen h' t.right;
  }

  run-Twins :
      (steps : List (Step K)) (h h' : History K)
      → Twins h h'
      → (run same steps h).rows ≡ (run same (uninterrupted steps) h').rows
  unfolding run uninterrupted prune prime
  run-Twins [] h h' t = t.rows_same
  run-Twins (collected now seen ∷ steps) h h' t = run-Twins steps _ _ (mark-Twins now seen h h' t)
  run-Twins (compacted s ∷ steps) h h' t = run-Twins steps _ _ (record {
    rows_same = ap (prune_rows same s) t.rows_same;
    left = prune-Agrees same same_iff s h t.left;
    right = prune-Agrees same same_iff s h' t.right;
  })
  run-Twins (restarted ∷ steps) h h' t =
      run-Twins steps (prime same h) h'
        (record { rows_same = t.rows_same; left = prime-Agrees same same_iff h; right = t.right })

-- From a start, as long as the writes succeed, the tables of events are the same with and without
-- restarts in between, whatever is collected and compacted: no restart invents or loses a change of
-- state. The test `same` is that of equality of keys.
pub run-uninterrupted :
    {K : Type 0} (same : K → K → Bool) (same_iff : (j k : K) → (same j k ≡ true) ↔ (j ≡ k))
    (steps : List (Step K)) (h : History K)
    → (run same steps (prime same h)).rows ≡ (run same (uninterrupted steps) (prime same h)).rows
run-uninterrupted same same_iff steps h =
    run-Twins same same_iff steps (prime same h) (prime same h) (record {
      rows_same = refl;
      left = prime-Agrees same same_iff h;
      right = prime-Agrees same same_iff h;
    })

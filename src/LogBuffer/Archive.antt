-- ===== src/LogBuffer/Archive.antt =====
-- What a run of logging and archiving hands to the archive (the collector drains the buffer into
-- backend/services/history_store.py).
use native.Mathlib.Nat.{add-zero, suc-add, add-suc}
use mathlib.Core.List.{append_assoc}
use lan_manager.Prelude.{
  ℕ, zero, suc, ◌+◌, ◌-◌, ◌≤◌, ◌<◌, ◌≡◌, refl, max, List, [], ◌∷◌, ◌++◌, length, length-append,
  drop, drop-append, drop_all, arith,
}
use lan_manager.LogBuffer.{Numbered, LogBuffer, add, drain}
use lan_manager.LogBuffer.History.{
  number_from, since, length-number_from, Refines, add-Refines, drain-Refines, drain-since,
  drain-flushed,
}

pub data Event {ℓ} (A : Type ℓ) : Type ℓ where
  log : A → Event A
  archive : Event A

module _ {ℓ} {A : Type ℓ} where
  -- The lines archived by a run, in order, and the buffer after it.
  unfoldable pub run : List (Event A) → LogBuffer A → List (Numbered A) × LogBuffer A
  run [] b = ([], b)
  run (log a ∷ events) b = run events (add b a)
  run (archive ∷ events) b =
      let (drained, b') = drain b in let (rest, b'') = run events b' in (drained ++ rest, b'')

  unfoldable pub logged : List (Event A) → List A
  logged [] = []
  logged (log a ∷ events) = a ∷ logged events
  logged (archive ∷ events) = logged events

  -- The archiving keeps up with the buffer: at each of its turns at most `cap` lines are waiting.
  abbrev pub KeepsUp : ℕ → ℕ → List (Event A) → Type 0
  KeepsUp cap waiting [] = Unit
  KeepsUp cap waiting (log a ∷ events) = KeepsUp cap (waiting + 1) events
  KeepsUp cap waiting (archive ∷ events) = (waiting ≤ cap) × KeepsUp cap 0 events

  -- Numbers that rise from above `n`.
  abbrev pub Ascends : ℕ → List (Numbered A) → Type 0
  Ascends n [] = Unit
  Ascends n (r ∷ rs) = (n < r.seq) × Ascends r.seq rs

  Ascends-mono : {m n : ℕ} (rs : List (Numbered A)) → m ≤ n → Ascends n rs → Ascends m rs
  Ascends-mono [] le h = tt
  Ascends-mono (r ∷ rs) le h = (omega arith, h.1)

  Ascends-number_from :
      (f n k : ℕ) (h : List A) (rest : List (Numbered A))
      → f ≤ n + k
      → f ≤ n + length h
      → Ascends (n + length h) rest
      → Ascends f (drop k (number_from n h) ++ rest)
  unfolding number_from
  Ascends-number_from f n zero [] rest le le' up = Ascends-mono rest le' up
  Ascends-number_from f n (suc k) [] rest le le' up = Ascends-mono rest le' up
  Ascends-number_from f n zero (x ∷ h) rest le le' up = (
    omega arith,
    Ascends-number_from (suc n) (suc n) 0 h rest (omega arith) (omega arith)
        (Ascends-mono rest (omega arith) up),
  )
  Ascends-number_from f n (suc k) (x ∷ h) rest le le' up =
      Ascends-number_from f (suc n) k h rest (omega arith) (omega arith)
        (Ascends-mono rest (omega arith) up)

  flushed-add : (b : LogBuffer A) (a : A) → (add b a).flushed ≡ b.flushed
  unfolding add
  flushed-add b a = refl

  -- However late the archiving runs, it is handed no line twice and none out of order.
  pub run-Ascends :
      {cap : ℕ} (h : List A) (events : List (Event A)) (b : LogBuffer A)
      → Refines cap h b
      → Ascends b.flushed (run events b).0
  unfolding run
  run-Ascends h [] b r = tt
  run-Ascends h (log a ∷ events) b r =
      Ascends-mono (run events (add b a)).0 (omega (arith, flushed-add b a))
        (run-Ascends (h ++ a ∷ []) events (add b a) (add-Refines h a r))
  run-Ascends {cap} h (archive ∷ events) b r =
      let later = run-Ascends h events (drain b).1 (drain-Refines h r) in
      rw (drain-since h r) (
        Ascends-number_from b.flushed 0 (max (length h - cap) b.flushed) h
          (run events (drain b).1).0 (omega arith) (omega (arith, r.archived))
          (Ascends-mono (run events (drain b).1).0 (omega (arith, drain-flushed h r)) later))

  number_from-append_list :
      (n : ℕ) (xs ys : List A)
      → number_from n (xs ++ ys) ≡ number_from n xs ++ number_from (n + length xs) ys
  unfolding number_from
  number_from-append_list n [] ys = rw add-zero
  number_from-append_list n (x ∷ xs) ys =
      rw (number_from-append_list (suc n) xs ys, suc-add, add-suc)

  since-since :
      (f : ℕ) (h ls : List A)
      → f ≤ length h
      → since f h ++ since (length h) (h ++ ls) ≡ since f (h ++ ls)
  since-since f h ls le = rw (
    number_from-append_list 0 h ls,
    drop-append (length h) (number_from 0 h) (number_from (0 + length h) ls)
        (omega (arith, length-number_from 0 h)),
    drop_all (length h) (number_from 0 h) (omega (arith, length-number_from 0 h)),
    drop-append f (number_from 0 h) (number_from (0 + length h) ls)
        (omega (arith, length-number_from 0 h)),
  )

  -- When the archiving keeps up, the lines that it was handed, with those still waiting, are all
  -- the lines logged since the start, in their order.
  pub run_complete :
      {cap : ℕ} (h : List A) (events : List (Event A)) (b : LogBuffer A)
      → Refines cap h b
      → KeepsUp cap (length h - b.flushed) events
      → (run events b).0 ++ since (run events b).1.flushed (h ++ logged events)
        ≡ since b.flushed (h ++ logged events)
  unfolding run logged add
  run_complete h [] b r k = refl
  run_complete {cap} h (log a ∷ events) b r k =
      let more : length (h ++ a ∷ []) - b.flushed ≡ length h - b.flushed + 1 =
        omega (arith, length-append h (a ∷ []), r.archived) in
      let later =
        run_complete (h ++ a ∷ []) events (add b a) (add-Refines h a r)
          (rw (flushed-add b a, more) k) in
      rw (append_assoc, flushed-add b a) at later
  run_complete {cap} h (archive ∷ events) b r k =
      let e : max (length h - cap) b.flushed ≡ b.flushed = omega (arith, k.0) in
      let none_waiting : length h - length h ≡ 0 = omega arith in
      let later =
        run_complete h events (drain b).1 (drain-Refines h r)
          (rw (drain-flushed h r, none_waiting) k.1) in
      rw (drain-since h r, e, append_assoc, later, drain-flushed h r)
        (since-since b.flushed h (logged events) r.archived)

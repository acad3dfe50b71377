-- ===== src/LogBuffer/History.antt =====
-- The buffer refines the history of all lines since it was cleared: it holds the last `maxlen` of
-- them, numbered from 1.
use native.Mathlib.Nat.{add-zero, suc-add, add-suc, zero-add}
use native.Mathlib.Numerals.{add-one}
use native.Mathlib.Decide.{dec_lt}
use lan_manager.Prelude.{
  ℕ, zero, suc, ◌+◌, ◌-◌, ◌≤◌, ◌<◌, ◌≡◌, refl, sym, ap, ◌∙◌, max, List, [], ◌∷◌, ◌++◌, Option, some,
  filter, lt→ltb, le→ltb-false, Bool-cases, inl, inr, length, length-append, length-drop, take_last,
  last?, drop, drop-append, drop-nil, drop-drop, drop_all, ltb, ◌==◌, if◌then◌else◌, arith,
}
use lan_manager.LogBuffer.{Numbered, LogBuffer, new, add, after, tail, flushed_to, drain, clear}

module _ {ℓ} {A : Type ℓ} where
  -- The lines with their numbers, the first of them after `n`.
  unfoldable pub number_from : ℕ → List A → List (Numbered A)
  number_from n [] = []
  number_from n (x ∷ xs) = record { seq = suc n; line = x } ∷ number_from (suc n) xs

  -- The numbered lines after the first `k`.
  abbrev pub since : ℕ → List A → List (Numbered A)
  since k history = drop k (number_from 0 history)

  pub length-number_from : (n : ℕ) (xs : List A) → length (number_from n xs) ≡ length xs
  unfolding number_from
  length-number_from n [] = refl
  length-number_from n (x ∷ xs) = ap suc (length-number_from (suc n) xs)

  number_from-append :
      (n : ℕ) (xs : List A) (y : A)
      → number_from n (xs ++ y ∷ [])
        ≡ number_from n xs ++ record { seq = suc (n + length xs); line = y } ∷ []
  unfolding number_from
  number_from-append n [] y = rw add-zero
  number_from-append n (x ∷ xs) y = rw (number_from-append (suc n) xs y, suc-add, add-suc)

  filter-after_all :
      (f n k : ℕ) (xs : List A)
      → f ≤ n
      → filter (after f) (drop k (number_from n xs)) ≡ drop k (number_from n xs)
  unfolding number_from filter
  filter-after_all f n zero [] h = refl
  filter-after_all f n (suc k) [] h = refl
  filter-after_all f n zero (x ∷ xs) h =
      ground (arith, filter-after_all f (suc n) 0 xs (omega arith))
  filter-after_all f n (suc k) (x ∷ xs) h = filter-after_all f (suc n) k xs (omega arith)

  -- What comes after the number `f`, of the lines numbered from `n + 1`.
  filter-after :
      (f n k : ℕ) (xs : List A)
      → n ≤ f
      → filter (after f) (drop k (number_from n xs)) ≡ drop (max k (f - n)) (number_from n xs)
  unfolding number_from filter
  filter-after f n zero [] h = sym (drop-nil (max 0 (f - n)))
  filter-after f n (suc k) [] h = sym (drop-nil (max (suc k) (f - n)))
  filter-after f n zero (x ∷ xs) h = elim (dec_lt n f) [
    | yes later ↦
        let e : max 0 (f - n) ≡ suc (max 0 (f - suc n)) = omega arith in
        rw (e, le→ltb-false f (suc n) later) (filter-after f (suc n) 0 xs later)
    | no same ↦
        let e : max 0 (f - n) ≡ 0 = omega arith in
        rw (e, lt→ltb f (suc n) (omega arith), filter-after_all f (suc n) 0 xs (omega arith))
  ]
  filter-after f n (suc k) (x ∷ xs) h = elim (dec_lt n f) [
    | yes later ↦
        let e : max (suc k) (f - n) ≡ suc (max k (f - suc n)) = omega arith in
        rw e (filter-after f (suc n) k xs later)
    | no same ↦
        let e : max (suc k) (f - n) ≡ suc k = omega arith in
        rw e (filter-after_all f (suc n) k xs (omega arith))
  ]

  pub record Refines (cap : ℕ) (history : List A) (b : LogBuffer A) : Type ℓ where
    pub positive : 0 < cap
    pub capacity : b.maxlen ≡ cap
    pub counted : b.seq ≡ length history
    pub archived : b.flushed ≤ length history
    pub window : b.righe ≡ since (length history - cap) history

  last?-since :
      (n k : ℕ) (h : List A)
      → k < length h
      → (r : Numbered A) × (last? (drop k (number_from n h)) ≡ some r) × (r.seq ≡ n + length h)
  unfolding number_from last?
  last?-since n k [] lt = elim lt [ ]
  last?-since n zero (x ∷ []) lt = (record { seq = suc n; line = x }, refl, omega arith)
  last?-since n zero (x ∷ y ∷ h) lt =
      let (r, e, s) = last?-since (suc n) 0 (y ∷ h) (omega arith) in (r, e, omega arith)
  last?-since n (suc k) (x ∷ h) lt =
      let (r, e, s) = last?-since (suc n) k h (omega arith) in (r, e, omega arith)

  length-since : (k : ℕ) (h : List A) → length (since k h) ≡ length h - k
  length-since k h =
      length-drop k (number_from 0 h) ∙ ap (λ (m : ℕ). m - k) (length-number_from 0 h)

  since-append :
      (k : ℕ) (h : List A) (x : A)
      → k ≤ length h
      → since k h ++ record { seq = suc (length h); line = x } ∷ [] ≡ since k (h ++ x ∷ [])
  since-append k h x le =
      rw (number_from-append 0 h x, zero-add)
        (sym (drop-append k (number_from 0 h) _ (rw (length-number_from 0 h) le)))

  take_last-since :
      (m k : ℕ) (h : List A)
      → k ≤ length h
      → take_last m (since k h) ≡ since (max k (length h - m)) h
  unfolding take_last
  take_last-since m k h le =
      let e : length h - k - m + k ≡ max k (length h - m) = omega arith in
      rw (length-since k h, drop-drop, e)

  pub add-Refines :
      {cap : ℕ} (h : List A) {b : LogBuffer A} (x : A)
      → Refines cap h b
      → Refines cap (h ++ x ∷ []) (add b x)
  unfolding add
  add-Refines {cap} h {b} x r = record {
    positive = r.positive;
    capacity = r.capacity;
    counted = omega (arith, length-append h (x ∷ []), r.counted);
    archived = omega (arith, length-append h (x ∷ []), r.archived);
    window =
        let k : ℕ = length h - cap in
        let more : length (h ++ x ∷ []) ≡ length h + 1 = length-append h (x ∷ []) in
        let e : max k (length (h ++ x ∷ []) - cap) ≡ length (h ++ x ∷ []) - cap = omega arith in
        rw (
          r.capacity,
          r.window,
          r.counted,
          add-one,
          since-append k h x (omega arith),
          take_last-since cap k (h ++ x ∷ []) (omega arith),
          e,
        );
  }

  filter-since : (f k : ℕ) (h : List A) → filter (after f) (since k h) ≡ since (max k f) h
  filter-since f k h =
      let e : max k (f - 0) ≡ max k f = omega arith in rw (filter-after f 0 k h (omega arith), e)

  -- The two cuts of `tail`, by number and by count.
  after_cut :
      (after_seq k : ℕ) (h : List A)
      → (if after_seq == 0 then since k h else filter (after after_seq) (since k h))
        ≡ since (max k after_seq) h
  after_cut after_seq k h = elim (Bool-cases (after_seq == 0)) [
    | inl z ↦ let e : max k after_seq ≡ k = ground arith in rw (z, e)
    | inr p ↦ rw p (filter-since after_seq k h)
  ]

  limit_cut :
      (limit m : ℕ) (h : List A)
      → (if limit == 0
          then since m h
          else if ltb limit (length (since m h))
          then take_last limit (since m h)
          else since m h)
        ≡ since (max m (if limit == 0 then 0 else length h - limit)) h
  limit_cut limit m h = elim (Bool-cases (limit == 0)) [
    | inl z ↦ let e : max m 0 ≡ m = omega arith in rw (z, e)
    | inr p ↦ elim (dec_lt limit (length h - m)) [
      | yes longer ↦
          rw (p, length-since m h, lt→ltb _ _ longer) (take_last-since limit m h (omega arith))
      | no fits ↦
          let e : max m (length h - limit) ≡ m = omega arith in
          rw (p, length-since m h, le→ltb-false limit (length h - m) (omega arith), e)
    ]
  ]

  module _ {cap : ℕ} (h : List A) {b : LogBuffer A} (r : Refines cap h b) where
    -- `tail` answers with the lines after `after_seq` that are still held, and of those with the
    -- last `limit` when a limit is given.
    pub tail-since :
        (limit after_seq : ℕ)
        → tail b limit after_seq
          ≡ since
              (max (max (length h - cap) after_seq) (if limit == 0 then 0 else length h - limit))
              h
    unfolding tail
    tail-since limit after_seq =
        rw (r.window, after_cut after_seq (length h - cap) h)
          (limit_cut limit (max (length h - cap) after_seq) h)

    pub drain-since : (drain b).0 ≡ since (max (length h - cap) b.flushed) h
    unfolding drain
    drain-since = rw (r.window, filter-since b.flushed (length h - cap) h)

    nothing_left : length h ≤ b.flushed → flushed_to b [] ≡ length h
    unfolding flushed_to last?
    nothing_left le = elim (dec_lt 0 (length h)) [
      | yes held ↦
          let (l, e, n) = last?-since 0 (length h - cap) h (omega (arith, r.positive)) in
          rw (r.window, e, flushed_to) (omega arith)
      | no empty ↦
          rw
            (
              r.window,
              drop_all (length h - cap) (number_from 0 h) (omega (arith, length-number_from 0 h)),
              flushed_to,
            )
            (omega arith)
    ]

    -- After a drain everything counts as archived, also what the full buffer had dropped.
    pub drain-flushed : (drain b).1.flushed ≡ length h
    unfolding drain
    drain-flushed = elim (dec_lt b.flushed (length h)) [
      | yes some_left ↦
          let (l, e, n) =
            last?-since 0 (max (length h - cap) b.flushed) h (omega (arith, r.positive)) in
          rw (r.window, filter-since b.flushed (length h - cap) h, e, flushed_to) (omega arith)
      | no none_left ↦
          ap (flushed_to b) (
            drain-since
            ∙ drop_all (max (length h - cap) b.flushed) (number_from 0 h)
                (omega (arith, length-number_from 0 h)))
          ∙ nothing_left (omega arith)
    ]

    pub drain-Refines : Refines cap h (drain b).1
    drain-Refines = record {
      positive = r.positive;
      capacity = unfold drain in r.capacity;
      counted = unfold drain in r.counted;
      archived = omega (arith, drain-flushed);
      window = unfold drain in r.window;
    }

    pub clear-Refines : Refines cap [] (clear b)
    unfolding clear number_from
    clear-Refines = record {
      positive = r.positive;
      capacity = r.capacity;
      counted = refl;
      archived = omega arith;
      window = sym (drop-nil (0 - cap));
    }

  -- The constructor gives an empty buffer with room for a line.
  pub new-Refines :
      (maxlen : Option ℕ) (buffer_lines : ℕ)
      → Refines (new {A = A} maxlen buffer_lines).maxlen [] (new maxlen buffer_lines)
  unfolding new number_from
  new-Refines maxlen buffer_lines = record {
    positive = ground arith;
    capacity = refl;
    counted = refl;
    archived = omega arith;
    window = sym (drop-nil (0 - (new {A = A} maxlen buffer_lines).maxlen));
  }

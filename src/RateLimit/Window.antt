-- ===== src/RateLimit/Window.antt =====
-- The limit of `RateLimiter`: a log of the admitted hits that the stored hits track.
use native.Mathlib.Nat.{add_comm}
use lan_manager.Prelude.{
  sym, ◌∙◌, some, ℕ, ◌+◌, ◌≤◌, ◌≡◌, refl, false, List, [], ◌∷◌, ◌++◌, Text, get, get-put, get-pop,
  text_eq, text_eq_refl, filter, filter-append, length, length-filter-le, init, init-append,
  length-append, ltb, arith,
}
use lan_manager.RateLimit.{
  RateLimiter, hits_of, is_live, allowed, hit, retry_after, reset, refund, new,
}

-- How many of the times lie in the window that ends now.
abbrev pub live_count : ℕ → ℕ → List ℕ → ℕ
live_count window now ts = length (filter (is_live window now) ts)

pub live_count-append :
    (w n : ℕ) (xs ys : List ℕ) → live_count w n (xs ++ ys) ≡ live_count w n xs + live_count w n ys
live_count-append w n xs ys =
    rw (filter-append (is_live w n) xs ys) (length-append (filter (is_live w n) xs) _)

live_count-cons :
    (w n t : ℕ) (ts : List ℕ)
    → live_count w n (t ∷ ts) ≡ live_count w n (t ∷ []) + live_count w n ts
unfolding filter
live_count-cons w n t ts = ground arith

pub live_count-push : (w n t : ℕ) (ts : List ℕ) → live_count w n (t ∷ ts) ≤ live_count w n ts + 1
unfolding filter
live_count-push w n t ts = ground arith

pub live_count_le : (w n : ℕ) (ts : List ℕ) → live_count w n ts ≤ length ts
live_count_le w n ts = length-filter-le (is_live w n) ts

-- To have filtered at an earlier time changes nothing.
pub live_count-filter :
    (w m n : ℕ) (xs : List ℕ) → m ≤ n → live_count w n (filter (is_live w m) xs) ≡ live_count w n xs
unfolding filter is_live
live_count-filter w m n [] h = refl
live_count-filter w m n (t ∷ ts) h = ground (arith, live_count-filter w m n ts h)

pub live_count_mono : (w m n : ℕ) (xs : List ℕ) → m ≤ n → live_count w n xs ≤ live_count w m xs
unfolding filter is_live
live_count_mono w m n [] h = omega arith
live_count_mono w m n (t ∷ ts) h = ground (arith, live_count_mono w m n ts h)

-- A log, newest first, in which each entry was admitted with at most `max_hits` entries, itself
-- included, in the window that ended at it.
abbrev pub IsThrottled : ℕ → ℕ → List ℕ → Type 0
IsThrottled max_hits w [] = Unit
IsThrottled max_hits w (t ∷ older) =
    (live_count w t (t ∷ older) ≤ max_hits) × IsThrottled max_hits w older

-- The limiter has these settings, and from `now` on its hits of the key count as the log does.
pub record Tracks (max_hits w : ℕ) (key : Text) (now : ℕ) (log : List ℕ) (r : RateLimiter)
    : Type 0 where
  pub limit_is : r.max_hits ≡ max_hits
  pub window_is : r.window ≡ w
  pub counts : (n : ℕ) → now ≤ n → live_count w n (hits_of r key) ≡ live_count w n log

pub new-Tracks :
    (max_hits w : ℕ) (key : Text) (now : ℕ) → Tracks max_hits w key now [] (new max_hits w)
unfolding new get
new-Tracks max_hits w key now = record { limit_is = refl; window_is = refl; counts = λ n h. refl }

hits_of-refund-some :
    (r : RateLimiter) (key : Text) {hits : List ℕ}
    → get r.hits key ≡ some hits
    → hits_of (refund r key) key ≡ init hits
unfolding refund
hits_of-refund-some r key e = rw (e, refund) (simp (get-put, text_eq_refl))

module _ (r : RateLimiter) (key : Text) (now : ℕ) where
  pub hits_of-allowed :
      hits_of (allowed r key now).1 key ≡ filter (is_live r.window now) (hits_of r key)
  unfolding allowed
  hits_of-allowed = simp (get-put, text_eq_refl)

  pub hits_of-hit :
      hits_of (hit r key now) key ≡ filter (is_live r.window now) (hits_of r key) ++ now ∷ []
  unfolding hit
  hits_of-hit = simp (get-put, text_eq_refl)

  get-hit :
      get (hit r key now).hits key
      ≡ some (filter (is_live r.window now) (hits_of r key) ++ now ∷ [])
  unfolding hit
  get-hit = simp (get-put, text_eq_refl)

  -- A refund right after the hit takes that hit back.
  pub hits_of-refund-hit :
      hits_of (refund (hit r key now) key) key ≡ filter (is_live r.window now) (hits_of r key)
  hits_of-refund-hit = simp (hits_of-refund-some (hit r key now) key get-hit, init-append)

-- The methods touch no other key.
module _ (r : RateLimiter) (key other : Text) (differs : text_eq key other ≡ false) where
  pub hits_of-allowed_ne : (now : ℕ) → hits_of (allowed r key now).1 other ≡ hits_of r other
  unfolding allowed
  hits_of-allowed_ne now = simp (get-put, differs)

  pub hits_of-retry_after_ne : (now : ℕ) → hits_of (retry_after r key now).1 other ≡ hits_of r other
  unfolding retry_after
  hits_of-retry_after_ne now = simp (get-put, differs)

  pub hits_of-hit_ne : (now : ℕ) → hits_of (hit r key now) other ≡ hits_of r other
  unfolding hit
  hits_of-hit_ne now = simp (get-put, differs)

  pub hits_of-reset_ne : hits_of (reset r key) other ≡ hits_of r other
  unfolding reset
  hits_of-reset_ne = simp (get-pop, differs)

module _ {max_hits w : ℕ} {key : Text} {now : ℕ} {log : List ℕ} {r : RateLimiter} where
  pub Tracks-later :
      {n : ℕ} → now ≤ n → Tracks max_hits w key now log r → Tracks max_hits w key n log r
  Tracks-later h t = record {
    limit_is = t.limit_is;
    window_is = t.window_is;
    counts = λ k hk. t.counts k (omega arith);
  }

  -- `allowed` asks whether the log has room, and forgets only what is out of the window.
  pub allowed-live_count :
      Tracks max_hits w key now log r → (allowed r key now).0 ≡ ltb (live_count w now log) max_hits
  unfolding allowed
  allowed-live_count t = rw (t.limit_is, t.window_is, t.counts now (omega arith)) refl

  pub allowed-Tracks :
      Tracks max_hits w key now log r → Tracks max_hits w key now log (allowed r key now).1
  allowed-Tracks t = record {
    limit_is = unfold allowed in t.limit_is;
    window_is = unfold allowed in t.window_is;
    counts = λ n hn.
        rw (hits_of-allowed r key now, t.window_is, live_count-filter w now n (hits_of r key) hn)
          (t.counts n hn);
  }

  pub retry_after-Tracks :
      Tracks max_hits w key now log r → Tracks max_hits w key now log (retry_after r key now).1
  unfolding retry_after allowed
  retry_after-Tracks t = allowed-Tracks t

  pub hit-Tracks :
      Tracks max_hits w key now log r → Tracks max_hits w key now (now ∷ log) (hit r key now)
  hit-Tracks t = record {
    limit_is = unfold hit in t.limit_is;
    window_is = unfold hit in t.window_is;
    counts = λ n hn.
        rw
          (
            hits_of-hit r key now,
            t.window_is,
            live_count-append,
            live_count-filter w now n (hits_of r key) hn,
            t.counts n hn,
          )
          (sym (live_count-cons w n now log ∙ add_comm _ _));
  }

  pub reset-Tracks :
      (n : ℕ) → Tracks max_hits w key now log r → Tracks max_hits w key n [] (reset r key)
  unfolding reset
  reset-Tracks n t = record {
    limit_is = t.limit_is;
    window_is = t.window_is;
    counts = λ k hk. simp (get-pop, text_eq_refl);
  }

-- The methods on one key leave the account of another as it is.
module _ {max_hits w now : ℕ} {log : List ℕ} (key other : Text)
    (differs : text_eq key other ≡ false) (at : ℕ) {r : RateLimiter}
    (t : Tracks max_hits w other now log r) where
  pub allowed-Tracks_ne : Tracks max_hits w other now log (allowed r key at).1
  allowed-Tracks_ne = record {
    limit_is = unfold allowed in t.limit_is;
    window_is = unfold allowed in t.window_is;
    counts = λ n hn. rw (hits_of-allowed_ne r key other differs at) (t.counts n hn);
  }

  pub retry_after-Tracks_ne : Tracks max_hits w other now log (retry_after r key at).1
  unfolding retry_after allowed
  retry_after-Tracks_ne = allowed-Tracks_ne

  pub hit-Tracks_ne : Tracks max_hits w other now log (hit r key at)
  hit-Tracks_ne = record {
    limit_is = unfold hit in t.limit_is;
    window_is = unfold hit in t.window_is;
    counts = λ n hn. rw (hits_of-hit_ne r key other differs at) (t.counts n hn);
  }

  pub reset-Tracks_ne : Tracks max_hits w other now log (reset r key)
  reset-Tracks_ne = record {
    limit_is = unfold reset in t.limit_is;
    window_is = unfold reset in t.window_is;
    counts = λ n hn. rw (hits_of-reset_ne r key other differs) (t.counts n hn);
  }

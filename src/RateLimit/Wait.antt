-- ===== src/RateLimit/Wait.antt =====
-- What `retry_after` promises: the least number of whole seconds after which a slot is free.
use native.Mathlib.Decide.{dec_le, dec_lt}
use lan_manager.Prelude.{
  sym, ◌∙◌, lt→ltb, ltb→lt, max, get-put, text_eq_refl, ◌↔◌, ℕ, ◌+◌, ◌-◌, ◌*◌, ◌≤◌, ◌<◌, ◌≡◌, refl,
  true, false, List, [], ◌∷◌, Text, filter, length, ltb, arith,
}
use lan_manager.RateLimit.{
  RateLimiter, second, hits_of, is_live, allowed, retry_after, minimum, ceil_seconds,
}
use lan_manager.RateLimit.Window.{live_count, live_count_le, live_count-filter}

ceil_seconds_bounds :
    (ns : ℕ) → (ns ≤ ceil_seconds ns * second) × (ceil_seconds ns * second < ns + second)
unfolding ceil_seconds
ceil_seconds_bounds ns = omega arith

-- Once the oldest time has left the window, not all are live.
live_count_drops :
    (w n : ℕ) (ts : List ℕ) → 0 < length ts → minimum ts + w ≤ n → live_count w n ts < length ts
unfolding filter is_live minimum
live_count_drops w n [] h out = absurd (omega arith)
live_count_drops w n (t ∷ []) h out = ground arith
live_count_drops w n (t ∷ t' ∷ ts) h out = elim (dec_le t (minimum (t' ∷ ts))) [
  | yes first ↦ ground (arith, live_count_le w n (t' ∷ ts))
  | no later ↦ ground (arith, live_count_drops w n (t' ∷ ts) (omega arith) (omega arith))
]

-- Until then all of them still are.
live_count_stays : (w n : ℕ) (ts : List ℕ) → n < minimum ts + w → live_count w n ts ≡ length ts
unfolding filter is_live minimum
live_count_stays w n [] early = refl
live_count_stays w n (t ∷ []) early = ground arith
live_count_stays w n (t ∷ t' ∷ ts) early =
    ground (arith, live_count_stays w n (t' ∷ ts) (omega arith))

module _ (r : RateLimiter) (key : Text) (now : ℕ) where
  live : List ℕ
  live = filter (is_live r.window now) (hits_of r key)

  -- What a later call of `allowed` answers, when no hit was added meanwhile.
  allowed-retry_after :
      (n : ℕ)
      → now ≤ n
      → (allowed (retry_after r key now).1 key n).0 ≡ ltb (live_count r.window n live) r.max_hits
  unfolding allowed retry_after live
  allowed-retry_after n h = simp (get-put, text_eq_refl)

  retry_after_room : length live < r.max_hits → (retry_after r key now).0 ≡ 0
  unfolding retry_after live
  retry_after_room h = ground arith

  retry_after_full :
      r.max_hits ≤ length live
      → (retry_after r key now).0 ≡ max 1 (ceil_seconds (minimum live + r.window - now))
  unfolding retry_after live
  retry_after_full h = ground arith

  allowed_now : (allowed r key now).0 ≡ ltb (length live) r.max_hits
  unfolding allowed live
  allowed_now = refl

  capped_live : live_count r.window now (hits_of r key) ≤ r.max_hits → length live ≤ r.max_hits
  unfolding live
  capped_live h = h

  live_count-live : live_count r.window now live ≡ length live
  unfolding live
  live_count-live = live_count-filter r.window now now (hits_of r key) (omega arith)

  now-lt-minimum : 0 < length live → now < minimum live + r.window
  now-lt-minimum pos = elim (dec_lt now (minimum live + r.window)) [
    | yes h ↦ h
    | no h ↦
        absurd
          (omega (arith, live_count_drops r.window now live pos (omega arith), live_count-live))
  ]

  -- The waiting time in nanoseconds reaches the moment at which the oldest hit expires, and no
  -- smaller number of seconds does.
  wait_bounds :
      0 < r.max_hits
      → r.max_hits ≤ length live
      → let wait = (retry_after r key now).0 in
        (0 < wait)
        × (minimum live + r.window ≤ now + wait * second)
        × ((k : ℕ) → k < wait → now + k * second < minimum live + r.window)
  wait_bounds pos full =
      let c = ceil_seconds (minimum live + r.window - now) in
      let b = ceil_seconds_bounds (minimum live + r.window - now) in
      let e = retry_after_full full in
      let early = now-lt-minimum (omega arith) in (omega arith, omega arith, λ k h. omega arith)

  -- For a positive limit that the live hits do not exceed, `retry_after` is zero exactly when a
  -- call is allowed now, and after that many seconds with no hit one is allowed.
  pub retry_after_enough :
      0 < r.max_hits
      → live_count r.window now (hits_of r key) ≤ r.max_hits
      → (((retry_after r key now).0 ≡ 0) ↔ ((allowed r key now).0 ≡ true))
        × ((allowed (retry_after r key now).1 key (now + (retry_after r key now).0 * second)).0
            ≡ true)
  retry_after_enough pos capped = elim (dec_lt (length live) r.max_hits) [
    | yes room ↦ (
      (λ _. trans_room room, λ _. retry_after_room room),
      rw (allowed-retry_after (now + (retry_after r key now).0 * second) (omega arith)) (
          lt→ltb _ _ (
            omega (arith, live_count_le r.window (now + (retry_after r key now).0 * second) live))),
    )
    | no full ↦ (
      (
        λ e. absurd (omega (arith, (wait_bounds pos (omega arith)).0)),
        λ e. absurd (refused full e),
      ),
      rw (allowed-retry_after (now + (retry_after r key now).0 * second) (omega arith)) (
          lt→ltb _ _ (
            omega (
              arith,
              at_most,
              live_count_drops r.window (now + (retry_after r key now).0 * second) live
                  (omega arith) (wait_bounds pos (omega arith)).1,
            ))),
    )
  ]
    where
      trans_room : length live < r.max_hits → (allowed r key now).0 ≡ true
      trans_room h = rw allowed_now (lt→ltb _ _ h)

      refused : ¬ (length live < r.max_hits) → (allowed r key now).0 ≡ true → ⊥
      refused h e = h (ltb→lt _ _ (sym allowed_now ∙ e))

      at_most : length live ≤ r.max_hits
      at_most = capped_live capped

  -- For a positive limit, after fewer seconds than `retry_after` answers, with no hit meanwhile, a
  -- call is still refused.
  pub retry_after_least :
      (k : ℕ)
      → 0 < r.max_hits
      → k < (retry_after r key now).0
      → (allowed (retry_after r key now).1 key (now + k * second)).0 ≡ false
  retry_after_least k pos h = elim (dec_lt (length live) r.max_hits) [
    | yes room ↦ absurd (omega (arith, retry_after_room room))
    | no full ↦
        rw
          (
            allowed-retry_after (now + k * second) (omega arith),
            live_count_stays r.window (now + k * second) live
                ((wait_bounds pos (omega arith)).2 k h),
          )
          (ground arith)
  ]

-- ===== src/RateLimit.antt =====
-- `RateLimiter` of backend/services/ratelimit.py: a sliding window of hits for each key.
-- `time.monotonic()` is a count of nanoseconds, passed to each method as `now`; the window is in
-- nanoseconds too, and `retry_after` answers in whole seconds as the source does.
pub mod Window
pub mod Wait
mod Tests
use lan_manager.Prelude.{
  ℕ, ◌+◌, ◌-◌, ◌*◌, ◌/◌, min, max, Bool, List, [], ◌∷◌, ◌++◌, Option, none, some, Text, Dict, get,
  put, pop, filter, length, init, ltb, if◌then◌else◌, or_else,
}

-- Nanoseconds in a second.
abbrev pub second : ℕ
second = 1_000_000_000

pub record RateLimiter : Type 0 where
  pub max_hits : ℕ
  pub window : ℕ
  pub hits : Dict (List ℕ)

unfoldable pub new : ℕ → ℕ → RateLimiter
new max_hits window = record { max_hits = max_hits; window = window; hits = [] }

-- `self._hits.get(key, [])`
abbrev pub hits_of : RateLimiter → Text → List ℕ
hits_of r key = or_else (get r.hits key) []

-- `now - t < self.window`
unfoldable pub is_live : ℕ → ℕ → ℕ → Bool
is_live window now t = ltb now (t + window)

-- `_recent`: the hits that are still in the window, which replace those that are stored.
unfoldable pub recent : RateLimiter → Text → ℕ → List ℕ × RateLimiter
recent r key now =
    let hits = filter (is_live r.window now) (hits_of r key) in
    (hits, record r { hits = put r.hits key hits })

unfoldable pub allowed : RateLimiter → Text → ℕ → Bool × RateLimiter
unfolding recent
allowed r key now = let (hits, r') = recent r key now in (ltb (length hits) r.max_hits, r')

-- The list that `_recent` returns is the stored one, so the append changes the store.
unfoldable pub hit : RateLimiter → Text → ℕ → RateLimiter
unfolding recent
hit r key now =
    let (hits, r') = recent r key now in record r' { hits = put r'.hits key (hits ++ now ∷ []) }

-- `min(hits)`; the caller has checked that there is a hit.
unfoldable pub minimum : List ℕ → ℕ
minimum [] = 0
minimum (t ∷ []) = t
minimum (t ∷ t' ∷ ts) = min t (minimum (t' ∷ ts))

-- `math.ceil` of a time in seconds
unfoldable pub ceil_seconds : ℕ → ℕ
ceil_seconds ns = (ns + (second - 1)) / second

-- The hits are live, so `window - (now - min(hits))` is positive.
unfoldable pub retry_after : RateLimiter → Text → ℕ → ℕ × RateLimiter
unfolding recent minimum ceil_seconds
retry_after r key now =
    let (hits, r') = recent r key now in
    (
      if ltb (length hits) r.max_hits
          then 0
          else max 1 (ceil_seconds (minimum hits + r.window - now)),
      r',
    )

-- `hits.pop()` on the stored list, if it holds a hit.
unfoldable pub refund : RateLimiter → Text → RateLimiter
refund r key = elim (get r.hits key) [
  | none ↦ r
  | some hits ↦ record r { hits = put r.hits key (init hits) }
]

unfoldable pub reset : RateLimiter → Text → RateLimiter
reset r key = record r { hits = pop r.hits key }

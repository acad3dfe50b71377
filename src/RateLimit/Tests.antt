-- ===== src/RateLimit/Tests.antt =====
-- Runs of the rate limiter, and its theorems at concrete inputs.
use lan_manager.Prelude.{
  ◌+◌, ◌*◌, ◌≡◌, refl, ◌↔◌, true, [], ◌∷◌, Text, lit, text_eq, get, put, filter, arith,
}
use lan_manager.RateLimit.{RateLimiter, new, second, hit, allowed, retry_after, is_live}
use lan_manager.RateLimit.Wait.{retry_after_enough}

abbrev ip : Text
ip = lit "192.0.2.7"

-- Two hits, at 10 s and 13 s, under a limit of 2 in 60 s.
abbrev full : RateLimiter
full = record {
  max_hits = 2;
  window = 60 * second;
  hits = (ip, 10 * second ∷ 13 * second ∷ []) ∷ [];
}

hit_twice : hit (hit (new 2 (60 * second)) ip (10 * second)) ip (13 * second) ≡ full
unfolding hit new get put filter is_live text_eq
hit_twice = refl

wait_test : (retry_after full ip (20 * second)).0 ≡ 50
unfolding retry_after get put filter is_live text_eq
wait_test = refl

retry_after_enough_example :
    (((retry_after full ip (20 * second)).0 ≡ 0) ↔ ((allowed full ip (20 * second)).0 ≡ true))
    × ((allowed
          (retry_after full ip (20 * second)).1
          ip
          (20 * second + (retry_after full ip (20 * second)).0 * second)).0
        ≡ true)
unfolding get filter is_live text_eq
retry_after_enough_example = retry_after_enough full ip (20 * second) (omega arith) (omega arith)

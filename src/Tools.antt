-- ===== src/Tools.antt =====
-- The limiter of backend/routers/tools.py: a request starts a tool if its client has room, and
-- gives the hit back when the tool refuses its input. Other requests may run between the two
-- steps, so they are two functions.
use lan_manager.Prelude.{ℕ, ◌*◌, not, Option, Text, if◌then◌else◌}
use lan_manager.RateLimit.{RateLimiter, new, second, allowed, hit, retry_after, refund}
use lan_manager.Auth.Login.{client_ip}

-- `RateLimiter(max_hits=10, window_seconds=60)`
unfoldable pub tools_limiter : RateLimiter
tools_limiter = new 10 (60 * second)

pub data Start : Type 0 where
  too_many : ℕ → Start
  started : Start

-- `run` and `run_stream` up to the call of the tool.
unfoldable pub start : RateLimiter → Option Text → ℕ → Start × RateLimiter
start rl client now =
    let ip = client_ip client in
    let (room, checked) = allowed rl ip now in
    let (wait, waited) = retry_after checked ip now in
    if not room then (too_many wait, waited) else (started, hit checked ip now)

-- How the tool, or its first event, ended.
pub data ToolEnd : Type 0 where
  ran refused nothing : ToolEnd

-- The status of the response.
pub data Response : Type 0 where
  ok_200 bad_request_400 internal_error_500 : Response

unfoldable pub finish_run : RateLimiter → Option Text → ToolEnd → Response × RateLimiter
finish_run rl client ran = (ok_200, rl)
finish_run rl client refused = (bad_request_400, refund rl (client_ip client))
finish_run rl client nothing = (internal_error_500, rl)

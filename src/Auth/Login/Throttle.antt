-- ===== src/Auth/Login/Throttle.antt =====
-- What the limiter of `login` in backend/routers/auth.py makes of a sequence of attempts, from
-- any clients, under settings that may change between them.
use lan_manager.Prelude.{
  ℕ, ◌≤◌, ◌≡◌, sym, ap, ◌∙◌, subst, Bool, true, false, List, [], ◌∷◌, Option, Text, text_eq,
  text_eq_iff, ltb→lt, arith, Bool-cases, inl, inr, if◌then◌else◌,
}
use lan_manager.RateLimit.{RateLimiter, allowed}
use lan_manager.RateLimit.Window.{
  IsThrottled, Tracks, live_count, new-Tracks, Tracks-later, allowed-Tracks, retry_after-Tracks,
  hit-Tracks, reset-Tracks, allowed-live_count, allowed-Tracks_ne, retry_after-Tracks_ne,
  hit-Tracks_ne, reset-Tracks_ne, live_count-push,
}
use lan_manager.Auth.{Settings}
use lan_manager.Auth.Login.{
  LoginBody, LoginResult, too_many, bad_credentials, logged_in, login, login_limiter, login_window,
  max_failures, client_ip, refuses,
}

-- An attempt, with the settings and the clocks that it meets.
pub record Attempt : Type 0 where
  pub settings : Settings
  pub body : LoginBody
  pub client : Option Text
  pub now : ℕ
  pub wall : ℕ

-- The time of the newest attempt; sequences are newest first.
abbrev pub latest : List Attempt → ℕ
latest [] = 0
latest (a ∷ older) = a.now

abbrev pub IsTimely : List Attempt → Type 0
IsTimely [] = Unit
IsTimely (a ∷ older) = (latest older ≤ a.now) × IsTimely older

-- How an attempt with this answer changes the failures of its client.
abbrev pub failures_after : LoginResult → ℕ → List ℕ → List ℕ
failures_after (too_many wait) now log = log
failures_after bad_credentials now log = now ∷ log
failures_after (logged_in cookie) now log = []

-- The answer asks the client to wait.
abbrev pub is_locked : LoginResult → Bool
is_locked (too_many wait) = true
is_locked bad_credentials = false
is_locked (logged_in cookie) = false

module _ (digest : Text → Text → Text) (checkpw : Text → Text → Option Bool) where
  abbrev pub answer : RateLimiter → Attempt → LoginResult × RateLimiter
  answer rl a = login digest checkpw a.settings rl a.body a.client a.now a.wall

  -- The limiter after the attempts.
  unfoldable pub limiter : List Attempt → RateLimiter
  limiter [] = login_limiter
  limiter (a ∷ older) = (answer (limiter older) a).1

  -- The times of the checks of a password that failed for this client since it last logged in,
  -- newest first.
  unfoldable pub failures : Text → List Attempt → List ℕ
  unfolding limiter
  failures key [] = []
  failures key (a ∷ older) =
      let log = failures key older in
      if text_eq (client_ip a.client) key
      then failures_after (answer (limiter older) a).0 a.now log
      else log

  pub login-Tracks :
      (rl : RateLimiter) (a : Attempt) (log : List ℕ)
      → Tracks max_failures login_window (client_ip a.client) a.now log rl
      → Tracks max_failures login_window
          (client_ip a.client)
          a.now
          (failures_after (answer rl a).0 a.now log)
          (answer rl a).1
  unfolding login
  login-Tracks rl a log t = elim (Bool-cases (allowed rl (client_ip a.client) a.now).0) [
    | inr full ↦ rw full (retry_after-Tracks (allowed-Tracks t))
    | inl room ↦ elim (Bool-cases (refuses checkpw a.settings a.body)) [
      | inl bad ↦ rw (room, bad) (hit-Tracks (allowed-Tracks t))
      | inr good ↦ rw (room, good) (reset-Tracks a.now (allowed-Tracks t))
    ]
  ]

  login-Tracks_ne :
      (rl : RateLimiter) (a : Attempt) (key : Text) {now : ℕ} {log : List ℕ}
      → text_eq (client_ip a.client) key ≡ false
      → Tracks max_failures login_window key now log rl
      → Tracks max_failures login_window key now log (answer rl a).1
  unfolding login
  login-Tracks_ne rl a key differs t =
      let ip = client_ip a.client in
      let checked = allowed-Tracks_ne ip key differs a.now t in
      elim (Bool-cases (allowed rl ip a.now).0) [
        | inr full ↦ rw full (retry_after-Tracks_ne ip key differs a.now checked)
        | inl room ↦ elim (Bool-cases (refuses checkpw a.settings a.body)) [
          | inl bad ↦ rw (room, bad) (hit-Tracks_ne ip key differs a.now checked)
          | inr good ↦ rw (room, good) (reset-Tracks_ne ip key differs a.now checked)
        ]
      ]

  login-Tracks_at :
      (rl : RateLimiter) (a : Attempt) (key : Text) (log : List ℕ)
      → client_ip a.client ≡ key
      → Tracks max_failures login_window key a.now log rl
      → Tracks max_failures login_window key a.now
          (failures_after (answer rl a).0 a.now log)
          (answer rl a).1
  login-Tracks_at rl a key log e t =
      subst
        (λ k.
          Tracks max_failures login_window k a.now (failures_after (answer rl a).0 a.now log)
            (answer rl a).1)
        e
        (login-Tracks rl a log
          (subst (λ k. Tracks max_failures login_window k a.now log rl) (sym e) t))

  -- The limiter's account of a client is that client's failures.
  pub limiter-Tracks :
      (key : Text) (tries : List Attempt)
      → IsTimely tries
      → Tracks max_failures login_window key (latest tries) (failures key tries) (limiter tries)
  unfolding limiter failures login_limiter
  limiter-Tracks key [] h = new-Tracks max_failures login_window key 0
  limiter-Tracks key (a ∷ older) h =
      let before = Tracks-later h.0 (limiter-Tracks key older h.1) in
      elim (Bool-cases (text_eq (client_ip a.client) key)) [
        | inr e ↦ rw e (login-Tracks_ne (limiter older) a key e before)
        | inl e ↦ rw e (
            login-Tracks_at (limiter older) a key (failures key older)
              ((text_eq_iff (client_ip a.client) key).0 e) before)
      ]

  IsThrottled-after :
      (rl : RateLimiter) (a : Attempt) (key : Text) (log : List ℕ)
      → client_ip a.client ≡ key
      → Tracks max_failures login_window key a.now log rl
      → IsThrottled max_failures login_window log
      → IsThrottled max_failures login_window (failures_after (answer rl a).0 a.now log)
  unfolding login
  IsThrottled-after rl a key log e t h =
      elim (Bool-cases (allowed rl (client_ip a.client) a.now).0) [
        | inr full ↦ rw full h
        | inl room ↦ elim (Bool-cases (refuses checkpw a.settings a.body)) [
          | inl bad ↦ rw (room, bad) (within room, h)
          | inr good ↦ rw (room, good) tt
        ]
      ]
    where
      within :
          (allowed rl (client_ip a.client) a.now).0 ≡ true
          → live_count login_window a.now (a.now ∷ log) ≤ max_failures
      within room = omega (
        arith,
        live_count-push login_window a.now a.now log,
        ltb→lt (live_count login_window a.now log) max_failures
            (sym (allowed-live_count t) ∙ ap (λ k. (allowed rl k a.now).0) (sym e) ∙ room),
      )

  -- In no window of five minutes do more than five checks of a password fail for one client
  -- since it last logged in, however many attempts there are.
  pub login-IsThrottled :
      (key : Text) (tries : List Attempt)
      → IsTimely tries
      → IsThrottled max_failures login_window (failures key tries)
  unfolding failures
  login-IsThrottled key [] h = tt
  login-IsThrottled key (a ∷ older) h = elim (Bool-cases (text_eq (client_ip a.client) key)) [
    | inr e ↦ rw e (login-IsThrottled key older h.1)
    | inl e ↦ rw e (
        IsThrottled-after (limiter older) a key (failures key older)
          ((text_eq_iff (client_ip a.client) key).0 e)
          (Tracks-later h.0 (limiter-Tracks key older h.1)) (login-IsThrottled key older h.1))
  ]

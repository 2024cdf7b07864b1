-- ===== src/RateLimit/Tests.antt =====
-- The limiter at concrete requests.
use ads_b_flight_intelligenc.Base.{◌≡◌, refl, some, [], ◌∷◌}
use ads_b_flight_intelligenc.RateLimit.{RateLimiter, dispatch, passed_on, too_many}

-- One login, and one login allowed per minute.
abbrev used_up : RateLimiter
used_up = record {
  requests_per_minute = 60;
  login_requests_per_minute = 1;
  request_history = ("10.0.0.1", (70_000_000, "/auth/login") ∷ []) ∷ [];
}

second_login : (dispatch 80_000_000 (some "10.0.0.1") "/auth/login" used_up).1 ≡ too_many 1
unfolding dispatch
second_login = refl

later_login : (dispatch 130_000_000 (some "10.0.0.1") "/auth/login" used_up).1 ≡ passed_on 0 1
unfolding dispatch
later_login = refl

-- ===== src/RateLimit/Window.antt =====
-- What the limiter of backend/app/auth/rate_limiter.py promises: the history of a client is bounded.
use ads_b_flight_intelligenc.Base.{
  ℕ, ◌+◌, ◌≤◌, ◌≡◌, Bool, true, false, not, List, String, length, filter,
}
use ads_b_flight_intelligenc.Base.Dict.{Values}
use ads_b_flight_intelligenc.RateLimit.{Request, RateLimiter, is_login_path}

-- The requests of a history that are on no login path.
abbrev other_count : List Request → ℕ
other_count requests = length (filter (λ q. not (is_login_path q)) requests)

-- A history holds at most the general limit of other requests, and at most both limits in all.
pub record IsBounded (general logins : ℕ) (requests : List Request) : Type 0 where
  pub others_bounded : other_count requests ≤ general
  pub all_bounded : length requests ≤ general + logins

abbrev pub IsWithin : RateLimiter → Type 0
IsWithin r = Values (IsBounded r.requests_per_minute r.login_requests_per_minute) r.request_history

-- A request that counts as a login is on a login path.
abbrev pub LoginPath : Bool → String → Type 0
LoginPath true endpoint = is_login_path (0, endpoint) ≡ true
LoginPath false endpoint = Unit

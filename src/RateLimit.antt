-- ===== src/RateLimit.antt =====
-- backend/app/auth/rate_limiter.py: the requests of the last minute, by client, and the decision of
-- the middleware. Times are microseconds; the lock of the limiter makes one check a single step.
pub mod Window
mod Tests
use text.Mathlib.Text.{find?}
use ads_b_flight_intelligenc.Base.{
  ℕ, ◌+◌, ◌-◌, Bool, true, false, ◌||◌, ◌++◌, Option, none, some, List, [], ◌∷◌, String, str_eq,
  leb, length, filter, is_some, if◌then◌else◌,
}
use ads_b_flight_intelligenc.Base.Int.{pos, sub_ℕ, ltb_ℤ}
use ads_b_flight_intelligenc.Base.Dict.{Dict, lookup, insert}

-- `(timestamp, endpoint)`
abbrev pub Request : Type 0
Request = ℕ × String

pub record RateLimiter : Type 0 where
  pub requests_per_minute : ℕ
  pub login_requests_per_minute : ℕ
  pub request_history : Dict (List Request)

-- `RateLimiter()`, with the limits given
unfoldable pub new_limiter : ℕ → ℕ → RateLimiter
new_limiter requests logins = record {
  requests_per_minute = requests;
  login_requests_per_minute = logins;
  request_history = [];
}

-- `self.request_history[client_ip]`, of a `defaultdict(list)`
abbrev pub history_of : Option (List Request) → List Request
history_of none = []
history_of (some requests) = requests

-- `ts > now - timedelta(minutes=1)`
abbrev pub is_recent : ℕ → Request → Bool
is_recent now request = ltb_ℤ (sub_ℕ now 60_000_000) (pos request.0)

-- `"/login" in endpoint`
abbrev pub is_login_path : Request → Bool
is_login_path request = is_some (find? request.1 "/login")

unfoldable pub recent_of : ℕ → String → RateLimiter → List Request
unfolding lookup
recent_of now client r = filter (is_recent now) (history_of (lookup client r.request_history))

abbrev pub login_count : List Request → ℕ
login_count requests = length (filter is_login_path requests)

-- What counts against the limit of the request, and the limit.
abbrev pub used_of : Bool → List Request → ℕ
used_of is_login recent = if is_login then login_count recent else length recent

abbrev pub limit_of : Bool → RateLimiter → ℕ
limit_of is_login r = if is_login then r.login_requests_per_minute else r.requests_per_minute

abbrev pub with_history : String → List Request → RateLimiter → RateLimiter
with_history client requests r = record r {
  request_history = insert client requests r.request_history;
}

-- `RateLimiter.check_rate_limit`, at the time `now`
unfoldable pub check_rate_limit : ℕ → String → String → Bool → RateLimiter → RateLimiter × Bool × ℕ
unfolding recent_of insert
check_rate_limit now client endpoint is_login r =
    let recent = recent_of now client r in
    let used = used_of is_login recent in
    let limit = limit_of is_login r in
    if leb limit used
    then (with_history client recent r, false, 0)
    else (with_history client (recent ++ ((now, endpoint) ∷ [])) r, true, limit - used - 1)

-- How the middleware answers: it passes the request on, unlimited or with the remaining and the
-- limit in the headers, or it rejects it with status 429 and the limit.
pub data Answer : Type 0 where
  unlimited : Answer
  passed_on : ℕ → ℕ → Answer
  too_many : ℕ → Answer

-- The paths without a limit.
abbrev pub is_open_path : String → Bool
is_open_path path =
    str_eq path "/"
    || (str_eq path "/health"
        || (str_eq path "/docs" || (str_eq path "/openapi.json" || str_eq path "/redoc")))

-- `request.client.host if request.client else "unknown"`
abbrev client_of : Option String → String
client_of none = "unknown"
client_of (some host) = host

abbrev pub answer_of : Bool → ℕ → ℕ → Answer
answer_of true remaining limit = passed_on remaining limit
answer_of false remaining limit = too_many limit

-- `RateLimitMiddleware.dispatch`, without the work of the next handler
unfoldable pub dispatch : ℕ → Option String → String → RateLimiter → RateLimiter × Answer
unfolding check_rate_limit
dispatch now host path r =
    if is_open_path path
    then (r, unlimited)
    else let is_login = is_some (find? path "/auth/login") in
      let (r', allowed, remaining) = check_rate_limit now (client_of host) path is_login r in
      (r', answer_of allowed remaining (limit_of is_login r))

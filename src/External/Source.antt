-- ===== src/External/Source.antt =====
-- The requests of `OpenSkyObservationSource` of backend/app/services/external_observations.py: what their
-- answers do. A fetch may await its answer, so that `begin` and `finish` are its two steps.
use ads_b_flight_intelligenc.Base.{
  ℕ, suc, ◌-◌, Bool, true, false, not, ◌||◌, ◌&&◌, Option, none, some, List, String, str_eq, leb,
  ltb, ◌==◌, if◌then◌else◌, zero, ◌*◌, is_some,
}
use ads_b_flight_intelligenc.Base.Int.{ℤ, pos, ◌+ℤ◌}
use ads_b_flight_intelligenc.Base.Json.{Json, null, str, object, get}
use ads_b_flight_intelligenc.Base.Dict.{insert}
use ads_b_flight_intelligenc.Base.Result.{Result, ok, raised, ◌>>=◌}
use ads_b_flight_intelligenc.Float.{Float}
use ads_b_flight_intelligenc.Observation.{TrackObservation}
use ads_b_flight_intelligenc.External.States.{
  Exception, ExceptionKind, http_error, value_error, type_error, index_error, Readers, parse_states,
  no_dictionary,
}
use ads_b_flight_intelligenc.External.Client.{
  ExternalFetchResult, OpenSkyConfig, Reason, Source, available, begin, failed_result, http_status,
  is_ahead, payload_invalid, rate_limited, request_failed,
}

-- `except (httpx.HTTPError, ValueError)` and `except (TypeError, ValueError, IndexError)`
abbrev pub is_request_error : ExceptionKind → Bool
is_request_error http_error = true
is_request_error value_error = true
is_request_error _ = false

abbrev pub is_payload_error : ExceptionKind → Bool
is_payload_error type_error = true
is_payload_error value_error = true
is_payload_error index_error = true
is_payload_error _ = false

-- `2 ** n`
abbrev pub two_to : ℕ → ℕ
two_to zero = 1
two_to (suc n) = 2 * two_to n

-- The answer to a request: its status, two of its headers, and its body as `response.json()` reads it.
pub record Response : Type 0 where
  pub status_code : ℕ
  pub retry_after_seconds : Option String
  pub remaining : Option String
  pub json : Result Exception Json

abbrev pub as_natural : Option ℤ → Option ℕ
as_natural (some (pos n)) = some n
as_natural _ = none

-- `value or default`
abbrev pub or_default : ℕ → Option ℕ → ℕ
or_default default none = default
or_default default (some n) = if n == 0 then default else n

-- `max(1, n - 30)`
abbrev lifetime : ℕ → ℕ
lifetime n = if ltb 1 (n - 30) then n - 30 else 1

abbrev micros_of : ℕ → ℤ
micros_of seconds = pos (seconds * 1_000_000)

abbrev as_token : Json → Option String
as_token (str s) = if str_eq s "" then none else some s
as_token _ = none

-- A call of `fetch_states`: the key of its arguments, the clock before and at the authorization, and
-- what the two requests answer.
pub record Call : Type 0 where
  pub key : String
  pub now : ℕ
  pub authorized_at : ℕ
  pub token_reply : Result Exception Json
  pub reply : Result Exception Response

module _ (f : Float) (r : Readers f.Number) where
  open f use {Number, of_int, mul, to_micros}

  -- `_record_failure`
  unfoldable pub record_failure :
      OpenSkyConfig f r → ℕ → Reason → Source f r → Source f r × ExternalFetchResult f r
  record_failure config now reason s =
      let consecutive = suc s.counts.consecutive_failures in
      let backoff =
        mul config.failure_backoff_seconds (of_int (pos (two_to s.counts.consecutive_failures))) in
      let retry_at = pos now +ℤ to_micros backoff in
      let reopen_at = pos now +ℤ to_micros config.circuit_open_seconds in
      let opens = leb config.circuit_failure_threshold consecutive in
      (
        record s {
          next_request_at = some retry_at;
          circuit_open_until = if opens then some reopen_at else s.circuit_open_until;
          counts = record s.counts {
            failures = suc s.counts.failures;
            consecutive_failures = consecutive;
            last_error = some reason;
            retry_after = some (if opens then reopen_at else retry_at);
          };
        },
        failed_result f r now reason,
      )

  -- `_non_negative_int`
  abbrev pub non_negative_int : Option String → Option ℕ
  non_negative_int none = none
  non_negative_int (some value) = as_natural (r.int_of value)

  -- The answer 429.
  unfoldable pub record_rate_limit :
      ℕ → Option String → Source f r → Source f r × ExternalFetchResult f r
  record_rate_limit now seconds s =
      let retry_at = pos now +ℤ micros_of (or_default 60 (non_negative_int seconds)) in
      (
        record s {
          next_request_at = some retry_at;
          counts = record s.counts {
            rate_limit_events = suc s.counts.rate_limit_events;
            last_error = some rate_limited;
            retry_after = some retry_at;
            credits_remaining = some 0;
          };
        },
        failed_result f r now rate_limited,
      )

  abbrev pub fetched_result : ℕ → List (TrackObservation Number) → ExternalFetchResult f r
  fetched_result now observations = record {
    status = available;
    observations = observations;
    fetched_at = now;
    from_cache = false;
    reason = none;
  }

  -- An answer with observations.
  unfoldable pub record_success :
      OpenSkyConfig f r
      → String
      → ℕ
      → Option String
      → List (TrackObservation Number)
      → Source f r
      → Source f r × ExternalFetchResult f r
  unfolding insert
  record_success config key now remaining observations s =
      let result = fetched_result now observations in
      (
        record s {
          cache =
              insert key
                (record {
                  result = result;
                  expires_at = pos now +ℤ to_micros config.cache_ttl_seconds;
                })
                s.cache;
          counts = record s.counts {
            successes = suc s.counts.successes;
            consecutive_failures = 0;
            last_success_at = some now;
            last_error = none;
            retry_after = s.next_request_at;
            credits_remaining = non_negative_int remaining;
          };
        },
        result,
      )

  -- A step of a fetch: the source, and the result or an exception that no clause catches.
  abbrev pub Step : Type 0
  Step = Source f r × Result Exception (ExternalFetchResult f r)

  abbrev pub returning : Source f r × ExternalFetchResult f r → Step
  returning (s, result) = (s, ok result)

  abbrev pub finish_payload :
      OpenSkyConfig f r
      → String
      → ℕ
      → Option String
      → Result Exception (List (TrackObservation Number))
      → Source f r
      → Step
  finish_payload config key now remaining (ok observations) s =
      returning (record_success config key now remaining observations s)
  finish_payload config key now remaining (raised e) s =
      if is_payload_error e.kind
      then returning (record_failure config now (payload_invalid e.name) s)
      else (s, raised e)

  unfoldable pub finish_response : OpenSkyConfig f r → String → ℕ → Response → Source f r → Step
  unfolding record_rate_limit record_failure record_success parse_states
  finish_response config key now response s =
      if response.status_code == 429
      then returning (record_rate_limit now response.retry_after_seconds s)
      else if not (response.status_code == 200)
      then returning (record_failure config now (http_status response.status_code) s)
      else finish_payload config key now response.remaining (response.json >>= parse_states f r now)
          s

  -- `fetch_states` from the answer on, or from the exception that the request raises.
  unfoldable pub finish :
      OpenSkyConfig f r → String → ℕ → Result Exception Response → Source f r → Step
  unfolding finish_response record_failure
  finish config key now (ok response) s = finish_response config key now response s
  finish config key now (raised e) s =
      if is_request_error e.kind
      then returning (record_failure config now (request_failed e.name) s)
      else (s, raised e)

  -- `payload.get("access_token")`, and the lifetime of the token in seconds
  abbrev pub read_token : Json → Result Exception (String × ℕ)
  read_token (object fields) = elim (as_token (get "access_token" fields)) [
    | none ↦ raised (record { kind = value_error; name = "ValueError" })
    | some token ↦ ok (
      token,
      lifetime (elim (get "expires_in" fields) [
        | null ↦ 1800
        | value ↦ or_default 1800 (as_natural (r.int_of (r.text_of value)))
      ]),
    )
  ]
  read_token _ = raised no_dictionary

  abbrev pub keep_token :
      ℕ → Result Exception (String × ℕ) → Source f r → Source f r × Result Exception (Option String)
  keep_token now (ok (token, seconds)) s = (
    record s { access_token = some token; token_expires_at = some (pos now +ℤ micros_of seconds) },
    ok (some token),
  )
  keep_token now (raised e) s = (s, raised e)

  -- `_authorization_header`, given the answer to the request of a token: the token to send
  unfoldable pub authorize :
      OpenSkyConfig f r
      → ℕ
      → Result Exception Json
      → Source f r
      → Source f r × Result Exception (Option String)
  authorize config now reply s =
      if str_eq config.client_id "" || str_eq config.client_secret ""
      then (s, ok none)
      else if is_some s.access_token && is_ahead now s.token_expires_at
      then (s, ok s.access_token)
      else keep_token now (reply >>= read_token) s

  abbrev pub fetch_rest :
      OpenSkyConfig f r → Call → Option (ExternalFetchResult f r) → Source f r → Step
  fetch_rest config c (some result) s = (s, ok result)
  fetch_rest config c none s =
      let (s', header) = authorize config c.authorized_at c.token_reply s in
      finish config c.key c.now (header >>= λ token. c.reply) s'

  -- `fetch_states`, not interrupted
  unfoldable pub fetch : OpenSkyConfig f r → Call → Source f r → Step
  unfolding begin authorize finish
  fetch config c s =
      let (s', result) = begin f r config c.key c.now s in fetch_rest config c result s'

-- ===== src/External/Client.antt =====
-- `OpenSkyObservationSource` of backend/app/services/external_observations.py: its configuration, its
-- state, and a fetch up to the request. Instants are whole microseconds.
use ads_b_flight_intelligenc.Base.{
  ℕ, suc, Bool, true, false, not, ◌&&◌, Option, none, some, List, [], ◌∷◌, String, str_eq,
  if◌then◌else◌, format,
}
use ads_b_flight_intelligenc.Base.Int.{ℤ, pos, negsuc, ◌+ℤ◌, ltb_ℤ}
use ads_b_flight_intelligenc.Base.Dict.{Dict, lookup}
use ads_b_flight_intelligenc.Base.Result.{Result, ok, raised}
use ads_b_flight_intelligenc.Float.{Float}
use ads_b_flight_intelligenc.Observation.{TrackObservation}
use ads_b_flight_intelligenc.External.States.{Readers}

pub data ExternalFetchStatus : Type 0 where
  available unavailable : ExternalFetchStatus

-- The reason of a result, in place of its text.
pub data Reason : Type 0 where
  circuit_open pause_active rate_limited : Reason
  request_failed payload_invalid : String → Reason
  http_status : ℕ → Reason

pub data BoundsError : Type 0 where
  invalid_latitudes invalid_longitudes : BoundsError

pub data CircuitState : Type 0 where
  open_circuit closed_circuit : CircuitState

pub record SourceHealth : Type 0 where
  pub provider : String
  pub circuit_state : CircuitState
  pub requests : ℕ
  pub successes : ℕ
  pub failures : ℕ
  pub cache_hits : ℕ
  pub rate_limit_events : ℕ
  pub consecutive_failures : ℕ
  pub last_success_at : Option ℕ
  pub last_error : Option Reason
  pub retry_after : Option ℤ
  pub credits_remaining : Option ℕ

-- `deadline and now < deadline`
abbrev pub is_ahead : ℕ → Option ℤ → Bool
is_ahead now none = false
is_ahead now (some deadline) = ltb_ℤ (pos now) deadline

module _ (f : Float) (r : Readers f.Number) where
  open f use {Number, of_int, le, mul, to_micros}

  pub record GeographicBounds : Type 0 where
    pub min_latitude : Number
    pub max_latitude : Number
    pub min_longitude : Number
    pub max_longitude : Number

  abbrev between : Number → Number → Number → Number → Bool
  between a b c d = le a b && (le b c && le c d)

  -- `GeographicBounds.__post_init__`
  unfoldable pub check_bounds : GeographicBounds → Result BoundsError GeographicBounds
  check_bounds b =
      if not (between (of_int (negsuc 89)) b.min_latitude b.max_latitude (of_int (pos 90)))
      then raised invalid_latitudes
      else if not (between (of_int (negsuc 179)) b.min_longitude b.max_longitude (of_int (pos 180)))
      then raised invalid_longitudes
      else ok b

  pub record OpenSkyConfig : Type 0 where
    pub client_id : String
    pub client_secret : String
    pub cache_ttl_seconds : Number
    pub minimum_poll_interval_seconds : Number
    pub failure_backoff_seconds : Number
    pub circuit_failure_threshold : ℕ
    pub circuit_open_seconds : Number

  pub record ExternalFetchResult : Type 0 where
    pub status : ExternalFetchStatus
    pub observations : List (TrackObservation Number)
    pub fetched_at : ℕ
    pub from_cache : Bool
    pub reason : Option Reason

  pub record CacheEntry : Type 0 where
    pub result : ExternalFetchResult
    pub expires_at : ℤ

  pub record Source : Type 0 where
    pub cache : Dict CacheEntry
    pub next_request_at : Option ℤ
    pub circuit_open_until : Option ℤ
    pub access_token : Option String
    pub token_expires_at : Option ℤ
    pub counts : SourceHealth

  -- `__init__`
  unfoldable pub new_source : Source
  new_source = record {
    cache = [];
    next_request_at = none;
    circuit_open_until = none;
    access_token = none;
    token_expires_at = none;
    counts = record {
      provider = "OpenSky Network";
      circuit_state = closed_circuit;
      requests = 0;
      successes = 0;
      failures = 0;
      cache_hits = 0;
      rate_limit_events = 0;
      consecutive_failures = 0;
      last_success_at = none;
      last_error = none;
      retry_after = none;
      credits_remaining = none;
    };
  }

  -- `health`
  unfoldable pub health : Source → ℕ → SourceHealth
  health s now = record s.counts {
    circuit_state = if is_ahead now s.circuit_open_until then open_circuit else closed_circuit;
  }

  -- `_cache_key`
  abbrev address_key : Option String → String
  address_key none = "*"
  address_key (some hex) = if str_eq hex "" then "*" else r.upper hex

  unfoldable pub cache_key : GeographicBounds → Option String → String
  unfolding format
  cache_key b icao_hex = format (
      address_key icao_hex
      ∷ ":"
      ∷ r.fixed3 b.min_latitude
      ∷ ":"
      ∷ r.fixed3 b.max_latitude
      ∷ ":"
      ∷ r.fixed3 b.min_longitude
      ∷ ":"
      ∷ r.fixed3 b.max_longitude
      ∷ [])

  -- `_blocked_reason`
  unfoldable pub blocked_reason : Source → ℕ → Option Reason
  blocked_reason s now =
      if is_ahead now s.circuit_open_until
      then some circuit_open
      else if is_ahead now s.next_request_at
      then some pause_active
      else none

  abbrev pub failed_result : ℕ → Reason → ExternalFetchResult
  failed_result now reason = record {
    status = unavailable;
    observations = [];
    fetched_at = now;
    from_cache = false;
    reason = some reason;
  }

  abbrev pub hit : Source → Source
  hit s = record s { counts = record s.counts { cache_hits = suc s.counts.cache_hits } }

  -- What a source that sends no request returns, of the entry of the key.
  abbrev pub blocked : Reason → Option CacheEntry → ℕ → Source → Source × ExternalFetchResult
  blocked reason none now s = (s, failed_result now reason)
  blocked reason (some entry) now s =
      (hit s, record entry.result { from_cache = true; reason = some reason })

  abbrev pub is_fresh : Option CacheEntry → ℕ → Bool
  is_fresh none now = false
  is_fresh (some entry) now = ltb_ℤ (pos now) entry.expires_at

  abbrev pub fresh_result : Option CacheEntry → ℕ → Source → Source × ExternalFetchResult
  fresh_result none now s = (s, failed_result now circuit_open)
  fresh_result (some entry) now s = (hit s, record entry.result { from_cache = true })

  -- The source with a request under way.
  abbrev pub requesting : OpenSkyConfig → ℕ → Source → Source
  requesting config now s = record s {
    next_request_at = some (pos now +ℤ to_micros config.minimum_poll_interval_seconds);
    counts = record s.counts { requests = suc s.counts.requests };
  }

  abbrev pub served : Source × ExternalFetchResult → Source × Option ExternalFetchResult
  served (s, result) = (s, some result)

  abbrev pub begin_blocked :
      OpenSkyConfig
      → Option Reason
      → Option CacheEntry
      → ℕ
      → Source
      → Source × Option ExternalFetchResult
  begin_blocked config (some reason) entry now s = served (blocked reason entry now s)
  begin_blocked config none entry now s = (requesting config now s, none)

  -- `fetch_states` up to the request: the source, and the result where it sends none.
  unfoldable pub begin : OpenSkyConfig → String → ℕ → Source → Source × Option ExternalFetchResult
  unfolding blocked_reason lookup
  begin config key now s =
      let entry = lookup key s.cache in
      if is_fresh entry now
      then served (fresh_result entry now s)
      else begin_blocked config (blocked_reason s now) entry now s

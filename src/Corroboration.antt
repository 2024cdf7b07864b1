-- ===== src/Corroboration.antt =====
-- backend/app/services/corroboration.py: a local and an external observation of one aircraft are
-- compared. Durations are whole microseconds, distances are floats. An explanation is a constructor
-- in place of its text. `TypeError` stands for arithmetic on a missing longitude.
pub mod Measures
pub mod States
pub mod Errors
mod Tests
use ads_b_flight_intelligenc.Base.{
  ℕ, Bool, true, false, not, ◌&&◌, ◌||◌, Option, none, some, String, str_eq, if◌then◌else◌,
}
use ads_b_flight_intelligenc.Base.Int.{ℤ, pos, ◌-ℤ◌, sub_ℕ, neg, abs, ltb_ℤ}
use ads_b_flight_intelligenc.Base.Moment.{Moment, require_aware}
use ads_b_flight_intelligenc.Base.Result.{Result, ok, raised, ◌>>=◌, ◌>>◌, raise_if}
use ads_b_flight_intelligenc.Float.{Float}
use ads_b_flight_intelligenc.Observation.{TrackObservation}

pub data CorroborationState : Type 0 where
  corroborated local_only external_only conflicting stale unavailable : CorroborationState

pub data CorroborationError : Type 0 where
  naive_evaluated_at no_observation different_addresses type_error negative_tolerance :
      CorroborationError

pub data Explanation : Type 0 where
  source_unavailable no_local no_external not_associated disagreement nothing_to_compare agreement
        no_position :
      Explanation

module _ (f : Float) where
  open f use {Number, literal, lt, add, sub, mul, div, square, sqrt, sin, cos, asin, radians}

  pub record CorroborationPolicy : Type 0 where
    pub version : String
    pub max_age : ℤ
    pub max_future_skew : ℤ
    pub max_time_delta : ℤ
    pub max_position_distance_nm : Number
    pub max_altitude_difference_ft : ℤ

  -- `CorroborationPolicy.__post_init__`
  unfoldable pub check_policy : CorroborationPolicy → Result CorroborationError CorroborationPolicy
  check_policy p =
      raise_if
        (ltb_ℤ p.max_age (pos 0)
          || (ltb_ℤ p.max_future_skew (pos 0)
              || (ltb_ℤ p.max_time_delta (pos 0)
                  || (lt p.max_position_distance_nm (literal 0 0)
                      || ltb_ℤ p.max_altitude_difference_ft (pos 0)))))
        negative_tolerance
      >> ok p

  pub record CorroborationResult : Type 0 where
    pub state : CorroborationState
    pub policy_version : String
    pub icao_hex : String
    pub evaluated_at : ℕ
    pub explanation : Explanation
    pub local_observation_id : Option String
    pub external_observation_id : Option String
    pub time_delta : Option ℤ
    pub position_distance_nm : Option Number
    pub altitude_difference_ft : Option ℤ

  abbrev Observed : Type 0
  Observed = TrackObservation Number

  abbrev id_of : Option Observed → Option String
  id_of none = none
  id_of (some o) = some o.observation_id

  -- `_icao_hex`
  abbrev pub icao_of : Option Observed → Option Observed → Result CorroborationError String
  icao_of (some l) external = ok l.icao_hex
  icao_of none (some x) = ok x.icao_hex
  icao_of none none = raised no_observation

  -- `_altitude_difference_ft`
  abbrev pub altitude_difference : Option ℤ → Option ℤ → Option ℤ
  altitude_difference (some a) (some b) = some (abs (a -ℤ b))
  altitude_difference _ _ = none

  -- The haversine distance of two positions in degrees, on a sphere of 3440.065 nm: `max(0.0, h)`
  -- is its first argument unless the second is greater, and `min` likewise.
  unfoldable pub haversine_nm : Number → Number → Number → Number → Number
  haversine_nm latitude longitude latitude' longitude' =
      let lat1 = radians latitude in
      let lat2 = radians latitude' in
      let two = literal 2 0 in
      let half_lat = square (sin (div (sub lat2 lat1) two)) in
      let half_lon = square (sin (div (radians (sub longitude' longitude)) two)) in
      let h = add half_lat (mul (mul (cos lat1) (cos lat2)) half_lon) in
      let above = if lt (literal 0 1) h then h else literal 0 1 in
      let clamped = if lt above (literal 10 1) then above else literal 10 1 in
      mul (mul two (literal 3_440_065 3)) (asin (sqrt clamped))

  -- `_position_distance_nm`
  abbrev pub distance_of :
      Option Number
      → Option Number
      → Option Number
      → Option Number
      → Result CorroborationError (Option Number)
  distance_of none longitude latitude' longitude' = ok none
  distance_of (some a) longitude none longitude' = ok none
  distance_of (some a) (some b) (some c) (some d) = ok (some (haversine_nm a b c d))
  distance_of (some a) none (some c) longitude' = raised type_error
  distance_of (some a) (some b) (some c) none = raised type_error

  abbrev pub exceeds_distance : Option Number → CorroborationPolicy → Bool
  exceeds_distance none policy = false
  exceeds_distance (some d) policy = lt policy.max_position_distance_nm d

  abbrev pub exceeds_altitude : Option ℤ → CorroborationPolicy → Bool
  exceeds_altitude none policy = false
  exceeds_altitude (some a) policy = ltb_ℤ policy.max_altitude_difference_ft a

  -- `position_distance is None and altitude_difference is None`
  abbrev pub is_incomparable : Option Number → Option ℤ → Bool
  is_incomparable none none = true
  is_incomparable _ _ = false

  abbrev pub time_delta_of : Observed → Observed → ℤ
  time_delta_of l x = abs (sub_ℕ l.observed_at x.observed_at)

  -- The five tests of age, clock skew and association time.
  unfoldable pub is_stale_pair : CorroborationPolicy → Observed → Observed → ℕ → Bool
  is_stale_pair policy l x now =
      let local_age = sub_ℕ now l.observed_at in
      let external_age = sub_ℕ now x.observed_at in
      ltb_ℤ policy.max_age local_age
      || (ltb_ℤ policy.max_age external_age
          || (ltb_ℤ local_age (neg policy.max_future_skew)
              || (ltb_ℤ external_age (neg policy.max_future_skew)
                  || ltb_ℤ policy.max_time_delta (time_delta_of l x))))

  -- What the comparison found: the fields of a result that it decides.
  pub record Finding : Type 0 where
    pub state : CorroborationState
    pub explanation : Explanation
    pub time_delta : Option ℤ
    pub position_distance_nm : Option Number
    pub altitude_difference_ft : Option ℤ

  -- A finding that measured nothing.
  abbrev unmeasured : CorroborationState → Explanation → Option ℤ → Finding
  unmeasured state explanation delta = record {
    state = state;
    explanation = explanation;
    time_delta = delta;
    position_distance_nm = none;
    altitude_difference_ft = none;
  }

  abbrev measured : CorroborationState → Explanation → ℤ → Option Number → Option ℤ → Finding
  measured state explanation delta distance altitude = record {
    state = state;
    explanation = explanation;
    time_delta = some delta;
    position_distance_nm = distance;
    altitude_difference_ft = altitude;
  }

  -- The end of `compare_observations`, on two associated observations.
  unfoldable pub judge_measures : CorroborationPolicy → ℤ → Option Number → Option ℤ → Finding
  judge_measures policy delta distance altitude =
      if exceeds_distance distance policy || exceeds_altitude altitude policy
      then measured conflicting disagreement delta distance altitude
      else if is_incomparable distance altitude
      then unmeasured stale nothing_to_compare (some delta)
      else measured corroborated agreement delta distance altitude

  unfoldable pub compare_pair :
      CorroborationPolicy → Observed → Observed → ℕ → Result CorroborationError Finding
  unfolding judge_measures is_stale_pair
  compare_pair policy l x now =
      raise_if (not (str_eq l.icao_hex x.icao_hex)) different_addresses
      >> (if is_stale_pair policy l x now
          then ok (unmeasured stale not_associated (some (time_delta_of l x)))
          else distance_of l.latitude l.longitude x.latitude x.longitude >>= λ distance. ok (
              judge_measures policy (time_delta_of l x) distance
                (altitude_difference l.altitude_ft x.altitude_ft)))

  unfoldable pub compare_available :
      CorroborationPolicy
      → Option Observed
      → Option Observed
      → ℕ
      → Result CorroborationError Finding
  unfolding compare_pair
  compare_available policy none external now = ok (unmeasured external_only no_local none)
  compare_available policy (some l) none now = ok (unmeasured local_only no_external none)
  compare_available policy (some l) (some x) now = compare_pair policy l x now

  -- `_result`
  unfoldable pub corroboration_result :
      CorroborationPolicy
      → Option Observed
      → Option Observed
      → ℕ
      → String
      → Finding
      → CorroborationResult
  corroboration_result policy l x now icao found = record {
    state = found.state;
    policy_version = policy.version;
    icao_hex = icao;
    evaluated_at = now;
    explanation = found.explanation;
    local_observation_id = id_of l;
    external_observation_id = id_of x;
    time_delta = found.time_delta;
    position_distance_nm = found.position_distance_nm;
    altitude_difference_ft = found.altitude_difference_ft;
  }

  unfoldable pub compare_observations :
      CorroborationPolicy
      → Option Observed
      → Option Observed
      → Moment
      → Bool
      → Result CorroborationError CorroborationResult
  unfolding compare_available corroboration_result
  compare_observations policy l x evaluated_at source_available = do
    now ← require_aware naive_evaluated_at evaluated_at
    icao ← icao_of l x
    found ←
        (if source_available
          then compare_available policy l x now
          else ok (unmeasured unavailable source_unavailable none))
    ok (corroboration_result policy l x now icao found)

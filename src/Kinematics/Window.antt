-- ===== src/Kinematics/Window.antt =====
-- `evaluate_window` of backend/app/services/windowed_kinematics.py: the last reported position of a
-- short window against the position that the velocities of its observations lead to. `uuid5` is a
-- parameter; the reason of a window that is not judged is a constructor in place of its text.
pub mod Judged
mod Tests
use ads_b_flight_intelligenc.Base.{
  ℕ, Bool, true, false, not, ◌&&◌, ◌||◌, ◌++◌, Option, none, some, List, [], ◌∷◌, String, str_eq,
  format, filter, length, map, ltb, leb, is_some, if◌then◌else◌, any_of, last_of,
}
use ads_b_flight_intelligenc.Base.Int.{pos, sub_ℕ}
use ads_b_flight_intelligenc.Base.Result.{Result, ok, raised, ◌>>=◌}
use ads_b_flight_intelligenc.Float.{Float}
use ads_b_flight_intelligenc.Observation.{TrackObservation, source_text}
use ads_b_flight_intelligenc.Kinematics.{EvaluationStatus}
use ads_b_flight_intelligenc.Kinematics.Pair.{same_provenance, is_flagged}

-- `WindowRule`
pub data WindowRule : Type 0 where
  cumulative_position_residual : WindowRule

-- The reasons of INSUFFICIENT_DATA, in the order of the tests.
pub data WindowReason : Type 0 where
  too_few too_many mixed_sources too_short too_long not_increasing incomplete : WindowReason

-- `ValueError("observations must not be empty")` and `ValueError("math domain error")`
pub data WindowError : Type 0 where
  no_observations domain_error : WindowError

module _ (f : Float) (uuid5 : String → String → String) where
  open f use {
    Number, literal, of_int, of_micros, round6, lt, le, add, sub, mul, div, square, sqrt, sin, cos,
    asin, atan2, radians, degrees, is_zero, mod_of, sqrt_fails, asin_fails,
  }

  pub record WindowPolicy : Type 0 where
    pub version : String
    pub minimum_observations : ℕ
    pub maximum_observations : ℕ
    pub minimum_duration_seconds : Number
    pub maximum_duration_seconds : Number
    pub maximum_position_residual_nm : Number

  pub record WindowRuleResult : Type 0 where
    pub rule : WindowRule
    pub status : EvaluationStatus
    pub value : Number
    pub threshold : Number
    pub unit : String
    pub explanation : String
    pub observation_ids : List String

  pub record WindowEvaluation : Type 0 where
    pub evaluation_id : String
    pub policy_version : String
    pub source_type : String
    pub source_id : String
    pub icao_hex : String
    pub evaluated_at : ℕ
    pub status : EvaluationStatus
    pub reason : Option WindowReason
    pub duration_seconds : Number
    pub measurements : List (String × Number)
    pub rule_results : List WindowRuleResult
    pub observation_ids : List String

  abbrev Observed : Type 0
  Observed = TrackObservation Number

  -- `WindowRuleResult.failed`
  abbrev pub window_failed : WindowRuleResult → Bool
  window_failed r = is_flagged r.status

  -- `WindowEvaluation.failed_rules`
  abbrev pub window_failed_rules : WindowEvaluation → List WindowRuleResult
  window_failed_rules e = filter window_failed e.rule_results

  -- `value or 0`
  abbrev or_zero : Option Number → Number
  or_zero none = of_int (pos 0)
  or_zero (some x) = if is_zero x then of_int (pos 0) else x

  -- A latitude and a longitude.
  abbrev pub Place : Type 0
  Place = Number × Number

  abbrev earth_radius : Number
  earth_radius = literal 3_440_065 3

  -- the sine of the next latitude
  abbrev sine_ahead : Number → Number → Number → Number
  sine_ahead latitude bearing angle =
      add (mul (sin latitude) (cos angle)) (mul (mul (cos latitude) (sin angle)) (cos bearing))

  -- `_destination`, which raises where rounding takes the sine out of the domain of `math.asin`
  unfoldable pub destination : Place → Number → Number → Result WindowError Place
  destination (latitude, longitude) bearing_degrees distance =
      let angle = div distance earth_radius in
      let latitude_radians = radians latitude in
      let bearing = radians bearing_degrees in
      let sine = sine_ahead latitude_radians bearing angle in
      let ahead = asin sine in
      let next_longitude = add (radians longitude) (
        atan2 (mul (mul (sin bearing) (sin angle)) (cos latitude_radians))
          (sub (cos angle) (mul (sin latitude_radians) (sin ahead)))) in
      let half = of_int (pos 180) in
      if asin_fails sine
      then raised domain_error
      else ok
          (degrees ahead, sub (mod_of (add (degrees next_longitude) half) (of_int (pos 360))) half)

  -- `_distance_nm`
  unfoldable pub place_distance : Place → Place → Result WindowError Number
  place_distance (latitude1, longitude1) (latitude2, longitude2) =
      let first = radians latitude1 in
      let second = radians latitude2 in
      let two = of_int (pos 2) in
      let haversine_value = add (square (sin (div (sub second first) two))) (
        mul (mul (cos first) (cos second))
          (square (sin (div (radians (sub longitude2 longitude1)) two)))) in
      let rest = sub (of_int (pos 1)) haversine_value in
      if sqrt_fails haversine_value || sqrt_fails rest
      then raised domain_error
      else ok (mul (mul earth_radius two) (atan2 (sqrt haversine_value) (sqrt rest)))

  abbrev pub place_of : Observed → Place
  place_of o = (or_zero o.latitude, or_zero o.longitude)

  -- `(b.observed_at - a.observed_at).total_seconds()`
  abbrev pub seconds_between : Observed → Observed → Number
  seconds_between a b = of_micros (sub_ℕ b.observed_at a.observed_at)

  -- The loop of the prediction, from the observation `previous` on.
  unfoldable pub predict : Place → Observed → List Observed → Result WindowError Place
  unfolding destination
  predict place previous [] = ok place
  predict place previous (current ∷ rest) =
      let distance =
        div (mul (or_zero previous.ground_speed_knots) (seconds_between previous current))
          (of_int (pos 3600)) in
      destination place (or_zero previous.track_degrees) distance >>= λ next.
      predict next current rest

  -- `item.icao_hex != first.icao_hex or item.provenance != first.provenance`
  abbrev pub is_foreign : Observed → Observed → Bool
  is_foreign a o =
      not (str_eq o.icao_hex a.icao_hex) || not (same_provenance o.provenance a.provenance)

  -- Whether some timestamp does not pass the one before it.
  unfoldable pub is_stalled : Observed → List Observed → Bool
  is_stalled previous [] = false
  is_stalled previous (current ∷ rest) =
      leb current.observed_at previous.observed_at || is_stalled current rest

  abbrev pub is_complete : Observed → Bool
  is_complete o =
      is_some o.latitude
      && (is_some o.longitude && (is_some o.ground_speed_knots && is_some o.track_degrees))

  -- The reason for which the window `first ∷ rest` is not judged.
  unfoldable pub unfit_window : WindowPolicy → Observed → List Observed → Option WindowReason
  unfolding is_stalled
  unfit_window policy first rest =
      let duration = seconds_between first (last_of first rest) in
      if ltb (length (first ∷ rest)) policy.minimum_observations
      then some too_few
      else if ltb policy.maximum_observations (length (first ∷ rest))
      then some too_many
      else if any_of (is_foreign first) rest
      then some mixed_sources
      else if lt duration policy.minimum_duration_seconds
      then some too_short
      else if lt policy.maximum_duration_seconds duration
      then some too_long
      else if is_stalled first rest
      then some not_increasing
      else if any_of (λ o. not (is_complete o)) (first ∷ rest)
      then some incomplete
      else none

  abbrev ids_of : List Observed → List String
  ids_of = map (λ o. o.observation_id)

  -- `":".join(...)`
  unfoldable pub join_ids : List String → String → List String
  join_ids [] version = version ∷ []
  join_ids (i ∷ is) version = i ∷ ":" ∷ join_ids is version

  -- `_evaluation`
  unfoldable pub window_evaluation :
      WindowPolicy
      → Observed
      → List Observed
      → EvaluationStatus
      → Option WindowReason
      → List (String × Number)
      → List WindowRuleResult
      → WindowEvaluation
  unfolding join_ids source_text format
  window_evaluation policy first rest status reason measurements results =
      let current = last_of first rest in
      let ids = ids_of (first ∷ rest) in
      record {
        evaluation_id =
            uuid5 "ea2e0f6f-b0ea-4f54-8366-80be0ce0616b" (format (join_ids ids policy.version));
        policy_version = policy.version;
        source_type = source_text current.provenance.source_type;
        source_id = current.provenance.source_id;
        icao_hex = current.icao_hex;
        evaluated_at = current.received_at;
        status = status;
        reason = reason;
        duration_seconds = round6 (seconds_between first current);
        measurements = measurements;
        rule_results = results;
        observation_ids = ids;
      }

  -- `residual_nm > selected_policy.maximum_position_residual_nm`
  unfoldable pub is_residual : WindowPolicy → Number → Bool
  is_residual policy residual = lt policy.maximum_position_residual_nm residual

  unfoldable pub window_result : WindowPolicy → Observed → List Observed → Number → WindowRuleResult
  unfolding is_residual
  window_result policy first rest residual =
      let failed = is_residual policy residual in
      record {
        rule = cumulative_position_residual;
        status = if failed then EvaluationStatus.flagged else EvaluationStatus.pass;
        value = round6 residual;
        threshold = policy.maximum_position_residual_nm;
        unit = "nautical_miles";
        explanation =
            if failed
            then "Dead-reckoned endpoint residual exceeds the development policy limit."
            else "Dead-reckoned endpoint residual is within the development policy limit.";
        observation_ids = ids_of (first ∷ rest);
      }

  abbrev window_measurements : Observed → List Observed → Place → Number → List (String × Number)
  window_measurements first rest predicted residual =
      let reported = place_of (last_of first rest) in
      ("predicted_latitude", round6 predicted.0)
      ∷ ("predicted_longitude", round6 predicted.1)
      ∷ ("reported_latitude", round6 reported.0)
      ∷ ("reported_longitude", round6 reported.1)
      ∷ ("position_residual_nm", round6 residual)
      ∷ []

  abbrev pub judged : WindowPolicy → Observed → List Observed → Place → Number → WindowEvaluation
  judged policy first rest predicted residual =
      let result = window_result policy first rest residual in
      window_evaluation policy first rest result.status none
        (window_measurements first rest predicted residual) (result ∷ [])

  abbrev pub conclude_window :
      WindowPolicy
      → Observed
      → List Observed
      → Option WindowReason
      → Result WindowError WindowEvaluation
  conclude_window policy first rest (some reason) =
      ok
        (window_evaluation policy first rest EvaluationStatus.insufficient_data (some reason) [] [])
  conclude_window policy first rest none = predict (place_of first) first rest >>= λ predicted.
      place_distance predicted (place_of (last_of first rest)) >>= λ residual.
      ok (judged policy first rest predicted residual)

  unfoldable pub evaluate_window :
      WindowPolicy → List Observed → Result WindowError WindowEvaluation
  unfolding unfit_window window_evaluation window_result predict place_distance
  evaluate_window policy [] = raised no_observations
  evaluate_window policy (first ∷ rest) =
      conclude_window policy first rest (unfit_window policy first rest)

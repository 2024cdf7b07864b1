-- ===== src/Kinematics/Pair.antt =====
-- `evaluate_pair` of backend/app/services/kinematics.py: the motion that two observations of one
-- aircraft imply, measured against a policy. `uuid5` and `general` (`format(x, 'g')`) are parameters.
use ads_b_flight_intelligenc.Base.{
  ℕ, ◌+◌, ◌*◌, Bool, true, false, not, ◌&&◌, ◌||◌, ◌++◌, Option, none, some, List, [], ◌∷◌, String,
  str_eq, format, when, filter, if◌then◌else◌,
}
use ads_b_flight_intelligenc.Base.Int.{ℤ, pos, ◌-ℤ◌, sub_ℕ, pos_part, neg_part}
use ads_b_flight_intelligenc.Base.Result.{Result, ok, raised, ◌>>=◌}
use ads_b_flight_intelligenc.Float.{Float}
use ads_b_flight_intelligenc.Observation.{TrackObservation, Provenance, source_text}
use ads_b_flight_intelligenc.Kinematics.{EvaluationStatus}

-- `ValueError("math domain error")`
pub data KinematicError : Type 0 where
  domain_error : KinematicError

pub data KinematicRule : Type 0 where
  implied_ground_speed reported_acceleration turn_rate derived_vertical_rate speed_disagreement :
      KinematicRule

-- `rule.value.lower().replace("_", " ")`
abbrev pub rule_words : KinematicRule → String
rule_words implied_ground_speed = "implied ground speed"
rule_words reported_acceleration = "reported acceleration"
rule_words turn_rate = "turn rate"
rule_words derived_vertical_rate = "derived vertical rate"
rule_words speed_disagreement = "speed disagreement"

-- `is EvaluationStatus.FLAGGED`
abbrev pub is_flagged : EvaluationStatus → Bool
is_flagged EvaluationStatus.flagged = true
is_flagged _ = false

abbrev same_option : Option String → Option String → Bool
same_option none none = true
same_option (some a) (some b) = str_eq a b
same_option _ _ = false

-- `==` on two provenances
abbrev pub same_provenance : Provenance → Provenance → Bool
same_provenance p q =
    str_eq (source_text p.source_type) (source_text q.source_type)
    && (str_eq p.source_id q.source_id
        && (same_option p.receiver_id q.receiver_id
            && (same_option p.recording_id q.recording_id
                && (same_option p.provider q.provider && same_option p.license_id q.license_id))))

-- `previous.latitude is None or current.latitude is None`
abbrev pub lacks_position : {N : Type 0} → Option N → Option N → Bool
lacks_position (some a) (some b) = false
lacks_position _ _ = true

-- `abs(d) * 60`
abbrev sixty_times : ℤ → ℤ
sixty_times d = pos ((pos_part d + neg_part d) * 60)

module _ (f : Float) (uuid5 : String → String → String) (general : f.Number → String) where
  open f use {
    Number, literal, of_int, of_micros, round3, lt, le, add, sub, mul, div, square, sqrt, sin, cos,
    atan2, radians, is_zero, mod_of, magnitude, sqrt_fails,
  }

  pub record KinematicPolicy : Type 0 where
    pub version : String
    pub minimum_interval_seconds : Number
    pub maximum_interval_seconds : Number
    pub maximum_implied_speed_knots : Number
    pub maximum_acceleration_knots_per_second : Number
    pub maximum_turn_rate_degrees_per_second : Number
    pub maximum_vertical_rate_fpm : Number
    pub minimum_speed_for_turn_check_knots : Number
    pub minimum_speed_disagreement_knots : Number
    pub speed_disagreement_fraction : Number

  pub record RuleResult : Type 0 where
    pub rule : KinematicRule
    pub status : EvaluationStatus
    pub value : Number
    pub threshold : Number
    pub unit : String
    pub explanation : String
    pub observation_ids : String × String

  pub record KinematicEvaluation : Type 0 where
    pub evaluation_id : String
    pub policy_version : String
    pub previous_observation_id : String
    pub current_observation_id : String
    pub source_type : String
    pub source_id : String
    pub icao_hex : String
    pub evaluated_at : ℕ
    pub status : EvaluationStatus
    pub reason : Option String
    pub delta_seconds : Number
    pub measurements : List (String × Number)
    pub rule_results : List RuleResult

  abbrev Observed : Type 0
  Observed = TrackObservation Number

  -- `RuleResult.failed`
  abbrev pub failed : RuleResult → Bool
  failed r = is_flagged r.status

  -- `KinematicEvaluation.failed_rules`
  abbrev pub failed_rules : KinematicEvaluation → List RuleResult
  failed_rules e = filter failed e.rule_results

  -- `any(result.failed for result in results)`
  abbrev pub any_failed : List RuleResult → Bool
  any_failed [] = false
  any_failed (r ∷ rs) = failed r || any_failed rs

  -- `value or 0`
  abbrev pub or_zero : Option Number → Number
  or_zero none = of_int (pos 0)
  or_zero (some x) = if is_zero x then of_int (pos 0) else x

  -- `max(a, b)`, which is `a` unless `b` is greater
  abbrev pub max_of : Number → Number → Number
  max_of a b = if lt a b then b else a

  -- `_distance_nm`, which raises where rounding takes the haversine out of the domain of `math.sqrt`
  unfoldable pub distance_nm : Observed → Observed → Result KinematicError Number
  distance_nm previous current =
      let previous_latitude = radians (or_zero previous.latitude) in
      let current_latitude = radians (or_zero current.latitude) in
      let latitude_delta = sub current_latitude previous_latitude in
      let longitude_delta =
        radians (sub (or_zero current.longitude) (or_zero previous.longitude)) in
      let two = of_int (pos 2) in
      let haversine_value = add (square (sin (div latitude_delta two))) (
        mul (mul (cos previous_latitude) (cos current_latitude))
          (square (sin (div longitude_delta two)))) in
      let rest = sub (of_int (pos 1)) haversine_value in
      if sqrt_fails haversine_value || sqrt_fails rest
      then raised domain_error
      else ok (mul (mul (literal 3_440_065 3) two) (atan2 (sqrt haversine_value) (sqrt rest)))

  -- `_turn_degrees`
  unfoldable pub turn_degrees : Number → Number → Number
  turn_degrees previous_track current_track =
      let half = of_int (pos 180) in
      magnitude (sub (mod_of (add (sub current_track previous_track) half) (of_int (pos 360))) half)

  -- `_result`
  unfoldable pub result_of :
      Observed → Observed → KinematicRule → Number → Number → String → RuleResult
  unfolding format
  result_of previous current rule value threshold unit =
      let above = lt threshold value in
      record {
        rule = rule;
        status = if above then EvaluationStatus.flagged else EvaluationStatus.pass;
        value = round3 value;
        threshold = round3 threshold;
        unit = unit;
        explanation = format (
            "Measured "
            ∷ rule_words rule
            ∷ " "
            ∷ (if above then "exceeds" else "is within")
            ∷ " the policy "
            ∷ general threshold
            ∷ " "
            ∷ unit
            ∷ " limit."
            ∷ []);
        observation_ids = (previous.observation_id, current.observation_id);
      }

  abbrev pub delta_of : Observed → Observed → Number
  delta_of previous current = of_micros (sub_ℕ current.observed_at previous.observed_at)

  -- The reasons for which the two observations cannot be compared, in the order of the tests.
  unfoldable pub unfit : KinematicPolicy → Observed → Observed → Option String
  unfolding format
  unfit policy previous current =
      let delta = delta_of previous current in
      if not (str_eq previous.icao_hex current.icao_hex)
        || not (same_provenance previous.provenance current.provenance)
      then some "Observations must have matching aircraft identity and provenance."
      else if le delta (of_int (pos 0))
      then some "Observation interval must be positive."
      else if lt delta policy.minimum_interval_seconds
      then some (
          format (
            "Observation interval is below the "
            ∷ general policy.minimum_interval_seconds
            ∷ " second minimum."
            ∷ []))
      else if lt policy.maximum_interval_seconds delta
      then some (
          format (
            "Observation interval exceeds the "
            ∷ general policy.maximum_interval_seconds
            ∷ " second maximum."
            ∷ []))
      else if lacks_position previous.latitude current.latitude
      then some "Both observations require complete positions."
      else none

  -- The result of the speed that the distance implies.
  unfoldable pub speed_results : KinematicPolicy → Observed → Observed → Number → List RuleResult
  unfolding result_of
  speed_results policy previous current implied_speed =
      result_of previous current implied_ground_speed implied_speed
        policy.maximum_implied_speed_knots "knots"
      ∷ []

  abbrev pub acceleration_of : Number → Number → Number → Number
  acceleration_of before after delta = div (magnitude (sub after before)) delta

  -- Both observations report a speed: its change, and its distance from the implied speed.
  unfoldable pub reported_results :
      KinematicPolicy
      → Observed
      → Observed
      → Number
      → Option Number
      → Option Number
      → List RuleResult
  unfolding result_of
  reported_results policy previous current implied_speed (some before) (some after) =
      result_of previous current reported_acceleration
        (acceleration_of before after (delta_of previous current))
        policy.maximum_acceleration_knots_per_second "knots/second"
      ∷ result_of previous current speed_disagreement (magnitude (sub implied_speed after))
          (max_of policy.minimum_speed_disagreement_knots
            (mul after policy.speed_disagreement_fraction))
          "knots"
      ∷ []
  reported_results policy previous current implied_speed _ _ = []

  abbrev pub reported_measures :
      Observed → Observed → Number → Option Number → Option Number → List (String × Number)
  reported_measures previous current implied_speed (some before) (some after) =
      (
        "reported_acceleration_knots_per_second",
        round3 (acceleration_of before after (delta_of previous current)),
      )
      ∷ ("speed_disagreement_knots", round3 (magnitude (sub implied_speed after)))
      ∷ []
  reported_measures previous current implied_speed _ _ = []

  -- `max(previous.ground_speed_knots or 0, current.ground_speed_knots or 0) >= …`
  abbrev pub is_fast : KinematicPolicy → Observed → Observed → Bool
  is_fast policy previous current =
      le policy.minimum_speed_for_turn_check_knots
        (max_of (or_zero previous.ground_speed_knots) (or_zero current.ground_speed_knots))

  abbrev pub turn_of : Observed → Observed → Number → Number → Number
  turn_of previous current before after =
      div (turn_degrees before after) (delta_of previous current)

  unfoldable pub turn_results :
      KinematicPolicy → Observed → Observed → Option Number → Option Number → List RuleResult
  unfolding result_of turn_degrees
  turn_results policy previous current (some before) (some after) =
      when (is_fast policy previous current) (
        result_of previous current turn_rate (turn_of previous current before after)
          policy.maximum_turn_rate_degrees_per_second "degrees/second")
  turn_results policy previous current _ _ = []

  abbrev turn_measures :
      KinematicPolicy → Observed → Observed → Option Number → Option Number → List (String × Number)
  turn_measures policy previous current (some before) (some after) =
      when (is_fast policy previous current)
        ("turn_rate_degrees_per_second", round3 (turn_of previous current before after))
  turn_measures policy previous current _ _ = []

  -- `abs(after - before) * 60 / delta_seconds`, on integers up to the division
  abbrev pub climb_of : Observed → Observed → ℤ → ℤ → Number
  climb_of previous current before after =
      div (of_int (sixty_times (after -ℤ before))) (delta_of previous current)

  unfoldable pub climb_results :
      KinematicPolicy → Observed → Observed → Option ℤ → Option ℤ → List RuleResult
  unfolding result_of
  climb_results policy previous current (some before) (some after) =
      result_of previous current derived_vertical_rate (climb_of previous current before after)
        policy.maximum_vertical_rate_fpm "feet/minute"
      ∷ []
  climb_results policy previous current _ _ = []

  abbrev climb_measures : Observed → Observed → Option ℤ → Option ℤ → List (String × Number)
  climb_measures previous current (some before) (some after) =
      ("derived_vertical_rate_fpm", round3 (climb_of previous current before after)) ∷ []
  climb_measures previous current _ _ = []

  abbrev pub implied_speed_of : Observed → Observed → Number → Number
  implied_speed_of previous current distance =
      div (mul distance (of_int (pos 3600))) (delta_of previous current)

  -- `results`, of two observations that can be compared, at their distance
  unfoldable pub results_of : KinematicPolicy → Observed → Observed → Number → List RuleResult
  unfolding speed_results reported_results turn_results climb_results
  results_of policy previous current distance =
      let speed = implied_speed_of previous current distance in
      speed_results policy previous current speed
      ++ (reported_results policy previous current speed previous.ground_speed_knots
            current.ground_speed_knots
          ++ (turn_results policy previous current previous.track_degrees current.track_degrees
              ++ climb_results policy previous current previous.altitude_ft current.altitude_ft))

  unfoldable pub measurements_of :
      KinematicPolicy → Observed → Observed → Number → List (String × Number)
  unfolding turn_degrees
  measurements_of policy previous current distance =
      let speed = implied_speed_of previous current distance in
      (("distance_nautical_miles", round3 distance)
        ∷ ("implied_ground_speed_knots", round3 speed)
        ∷ [])
      ++ (reported_measures previous current speed previous.ground_speed_knots
            current.ground_speed_knots
          ++ (turn_measures policy previous current previous.track_degrees current.track_degrees
              ++ climb_measures previous current previous.altitude_ft current.altitude_ft))

  abbrev evaluation :
      KinematicPolicy
      → Observed
      → Observed
      → EvaluationStatus
      → Option String
      → List (String × Number)
      → List RuleResult
      → KinematicEvaluation
  evaluation policy previous current status reason measurements results = record {
    evaluation_id = uuid5 "0a2fc740-486d-4dd1-a052-e00b08f64cee" (
        format
          (previous.observation_id ∷ ":" ∷ current.observation_id ∷ ":" ∷ policy.version ∷ []));
    policy_version = policy.version;
    previous_observation_id = previous.observation_id;
    current_observation_id = current.observation_id;
    source_type = source_text current.provenance.source_type;
    source_id = current.provenance.source_id;
    icao_hex = current.icao_hex;
    evaluated_at = current.received_at;
    status = status;
    reason = reason;
    delta_seconds = round3 (delta_of previous current);
    measurements = measurements;
    rule_results = results;
  }

  abbrev status_of : List RuleResult → EvaluationStatus
  status_of results = if any_failed results then EvaluationStatus.flagged else EvaluationStatus.pass

  abbrev pub compared : KinematicPolicy → Observed → Observed → Number → KinematicEvaluation
  compared policy previous current distance =
      evaluation policy previous current (status_of (results_of policy previous current distance))
        none (measurements_of policy previous current distance)
        (results_of policy previous current distance)

  abbrev conclude :
      KinematicPolicy
      → Observed
      → Observed
      → Option String
      → Result KinematicError KinematicEvaluation
  conclude policy previous current (some reason) =
      ok (evaluation policy previous current EvaluationStatus.insufficient_data (some reason) [] [])
  conclude policy previous current none =
      distance_nm previous current >>= λ d. ok (compared policy previous current d)

  unfoldable pub evaluate_pair :
      KinematicPolicy → Observed → Observed → Result KinematicError KinematicEvaluation
  unfolding unfit results_of measurements_of source_text distance_nm
  evaluate_pair policy previous current =
      conclude policy previous current (unfit policy previous current)

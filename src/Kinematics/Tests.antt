-- ===== src/Kinematics/Tests.antt =====
-- Two observations of one aircraft, evaluated.
use ads_b_flight_intelligenc.Base.{Option, ℕ, ◌≡◌, ◌≢◌, ◌↔◌, refl, none, some, [], String}
use ads_b_flight_intelligenc.Base.Int.{ℤ, pos}
use ads_b_flight_intelligenc.Base.Result.{Result, ok, raised}
use ads_b_flight_intelligenc.Float.{micros}
use ads_b_flight_intelligenc.Observation.{TrackObservation, SourceType, source_text}
use ads_b_flight_intelligenc.Kinematics.{EvaluationStatus}
use ads_b_flight_intelligenc.Kinematics.Pair.{
  KinematicError, domain_error, distance_nm, KinematicPolicy, KinematicEvaluation, evaluate_pair,
  failed_rules,
}
use ads_b_flight_intelligenc.Kinematics.Status.{
  IsFit, HasStatus, IsVerdict, evaluate_pair-status_iff,
}

abbrev uuid5 : String → String → String
uuid5 space name = name

abbrev general : ℤ → String
general x = "limit"

abbrev limits : KinematicPolicy micros uuid5 general
limits = record {
  version = "1.0";
  minimum_interval_seconds = pos 500_000;
  maximum_interval_seconds = pos 30_000_000;
  maximum_implied_speed_knots = pos 750_000_000;
  maximum_acceleration_knots_per_second = pos 20_000_000;
  maximum_turn_rate_degrees_per_second = pos 12_000_000;
  maximum_vertical_rate_fpm = pos 10_000;
  minimum_speed_for_turn_check_knots = pos 40_000_000;
  minimum_speed_disagreement_knots = pos 2_000_000_000;
  speed_disagreement_fraction = pos 500_000;
}

abbrev flown : String → ℕ → ℕ → TrackObservation ℤ
flown message t altitude = record {
  observation_id = message;
  provenance = record {
    source_type = SourceType.live_rf;
    source_id = "local-sbs";
    receiver_id = some "roof";
    recording_id = none;
    provider = none;
    license_id = none;
  };
  icao_hex = "A00001";
  observed_at = t;
  received_at = t;
  callsign = none;
  latitude = some (pos 35_000_000);
  longitude = some (pos 139_000_000);
  altitude_ft = some (pos altitude);
  ground_speed_knots = none;
  track_degrees = none;
  vertical_rate_fpm = none;
  squawk = none;
  quality_flags = [];
  raw_message_id = some message;
}

abbrev climb : Result KinematicError (KinematicEvaluation micros uuid5 general)
climb = evaluate_pair micros uuid5 general limits (flown "a" 0 1_000) (flown "b" 5_000_000 9_000)

abbrev early : Result KinematicError (KinematicEvaluation micros uuid5 general)
early = evaluate_pair micros uuid5 general limits (flown "a" 0 1_000) (flown "b" 100_000 9_000)

abbrev status_of_result :
    Result KinematicError (KinematicEvaluation micros uuid5 general) → Option EvaluationStatus
status_of_result (ok v) = some v.status
status_of_result (raised error) = none

climb-flagged : status_of_result climb ≡ some EvaluationStatus.flagged
unfolding evaluate_pair source_text
climb-flagged = refl

early-insufficient : status_of_result early ≡ some EvaluationStatus.insufficient_data
unfolding evaluate_pair source_text
early-insufficient = refl

evaluate_pair-status_iff_example :
    let previous = flown "a" 0 1_000 in
    let current = flown "b" 5_000_000 9_000 in
    ((climb ≡ raised domain_error) ↔ (
      IsFit micros uuid5 general limits previous current
      × (distance_nm micros uuid5 general previous current ≡ raised domain_error)))
    × (HasStatus micros uuid5 general limits previous current climb EvaluationStatus.flagged
        ↔ IsVerdict micros uuid5 general limits previous current EvaluationStatus.flagged)
    × (((v : KinematicEvaluation micros uuid5 general) × (climb ≡ ok v)
          × (failed_rules micros uuid5 general v ≢ []))
        ↔ HasStatus micros uuid5 general limits previous current climb EvaluationStatus.flagged)
evaluate_pair-status_iff_example =
    evaluate_pair-status_iff micros uuid5 general limits (flown "a" 0 1_000)
      (flown "b" 5_000_000 9_000) EvaluationStatus.flagged

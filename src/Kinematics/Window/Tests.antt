-- ===== src/Kinematics/Window/Tests.antt =====
-- A window of two observations, evaluated.
use ads_b_flight_intelligenc.Base.{ℕ, ◌≡◌, ◌≢◌, ◌↔◌, none, some, List, [], ◌∷◌, String}
use ads_b_flight_intelligenc.Base.Int.{ℤ, pos}
use ads_b_flight_intelligenc.Base.Result.{ok, raised}
use ads_b_flight_intelligenc.Float.{micros}
use ads_b_flight_intelligenc.Observation.{TrackObservation, SourceType}
use ads_b_flight_intelligenc.Kinematics.{EvaluationStatus}
use ads_b_flight_intelligenc.Kinematics.Window.{
  WindowPolicy, WindowError, WindowEvaluation, evaluate_window, window_failed_rules,
}
use ads_b_flight_intelligenc.Kinematics.Window.Judged.{
  IsWindowStatus, IsJudged, IsOutOfDomain, HasWindowStatus, evaluate_window-status_iff,
}

abbrev uuid5 : String → String → String
uuid5 space name = name

abbrev limits : WindowPolicy micros uuid5
limits = record {
  version = "1.0";
  minimum_observations = 2;
  maximum_observations = 31;
  minimum_duration_seconds = pos 5_000_000;
  maximum_duration_seconds = pos 30_000_000;
  maximum_position_residual_nm = pos 2_000;
}

abbrev reported : String → ℕ → TrackObservation ℤ
reported message t = record {
  observation_id = message;
  provenance = record {
    source_type = SourceType.live_rf;
    source_id = "local-sbs";
    receiver_id = some "roof";
    recording_id = none;
    provider = none;
    license_id = none;
  };
  icao_hex = "A00001";
  observed_at = t;
  received_at = t;
  callsign = none;
  latitude = some (pos 35_000_000);
  longitude = some (pos 139_000_000);
  altitude_ft = none;
  ground_speed_knots = some (pos 100_000_000);
  track_degrees = some (pos 90_000_000);
  vertical_rate_fpm = none;
  squawk = none;
  quality_flags = [];
  raw_message_id = some message;
}

abbrev rest : List (TrackObservation ℤ)
rest = reported "b" 6_000_000 ∷ []

evaluate_window-status_iff_example :
    let result = evaluate_window micros uuid5 limits (reported "a" 0 ∷ rest) in
    (((error : WindowError) × (result ≡ raised error)) ↔ (
      IsJudged micros uuid5 limits (reported "a" 0) rest
      × IsOutOfDomain micros uuid5 limits (reported "a" 0) rest))
    × (HasWindowStatus micros uuid5 limits (reported "a" 0) rest result EvaluationStatus.flagged
        ↔ IsWindowStatus micros uuid5 limits (reported "a" 0) rest EvaluationStatus.flagged)
    × (((v : WindowEvaluation micros uuid5) × (result ≡ ok v)
          × (window_failed_rules micros uuid5 v ≢ []))
        ↔ HasWindowStatus micros uuid5 limits (reported "a" 0) rest result EvaluationStatus.flagged)
evaluate_window-status_iff_example =
    evaluate_window-status_iff micros uuid5 limits (reported "a" 0) rest EvaluationStatus.flagged

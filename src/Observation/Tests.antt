-- ===== src/Observation/Tests.antt =====
-- An observation's timing at a concrete input.
use ads_b_flight_intelligenc.Base.{ℕ, ◌≡◌, ◌||◌, none, some, List, [], ◌∷◌, arith}
use ads_b_flight_intelligenc.Base.Int.{pos}
use ads_b_flight_intelligenc.Base.Moment.{aware}
use ads_b_flight_intelligenc.Base.Result.{ok}
use ads_b_flight_intelligenc.Base.Sets.{contains}
use ads_b_flight_intelligenc.Observation.{TrackObservation, QualityFlag, SourceType}
use ads_b_flight_intelligenc.Observation.Timing.{
  flag_eq, reason, as_moment, timing_quality_flags, timing_quality_flags-contains,
}

abbrev report : TrackObservation ℕ
report = record {
  observation_id = "o1";
  provenance = record {
    source_type = SourceType.simulation;
    source_id = "simulator";
    receiver_id = none;
    recording_id = none;
    provider = none;
    license_id = none;
  };
  icao_hex = "A00001";
  observed_at = 5_000_000;
  received_at = 1_000_000;
  callsign = none;
  latitude = none;
  longitude = none;
  altitude_ft = none;
  ground_speed_knots = none;
  track_degrees = none;
  vertical_rate_fpm = none;
  squawk = none;
  quality_flags = QualityFlag.partial ∷ [];
  raw_message_id = none;
}

timing_quality_flags-contains_example :
    (flags : List QualityFlag) × (timing_quality_flags report
        (aware 40_000_000)
        (as_moment (some 6_000_000))
        (pos 30_000_000)
        (pos 2_000_000)
      ≡ ok flags)
    × ((f : QualityFlag)
        → contains flag_eq f flags
          ≡ contains flag_eq f (QualityFlag.partial ∷ [])
            || reason report 40_000_000 (some 6_000_000) (pos 30_000_000) (pos 2_000_000) f)
timing_quality_flags-contains_example =
    timing_quality_flags-contains report 40_000_000 (some 6_000_000) (pos 30_000_000)
      (pos 2_000_000) (omega arith) (omega arith)

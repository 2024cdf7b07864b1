-- ===== src/Corroboration/Tests.antt =====
-- Two observations of one aircraft, compared.
use ads_b_flight_intelligenc.Base.{ℕ, ◌≡◌, ◌↔◌, ◌⊎◌, refl, true, none, some, [], String, is_some}
use ads_b_flight_intelligenc.Base.Int.{ℤ, pos}
use ads_b_flight_intelligenc.Base.Moment.{aware}
use ads_b_flight_intelligenc.Base.Result.{is_ok}
use ads_b_flight_intelligenc.Float.{micros}
use ads_b_flight_intelligenc.Observation.{TrackObservation, SourceType}
use ads_b_flight_intelligenc.Corroboration.{
  CorroborationPolicy, compare_observations, corroborated, conflicting,
}
use ads_b_flight_intelligenc.Corroboration.Measures.{Both, IsConflict, IsAgreement}
use ads_b_flight_intelligenc.Corroboration.States.{
  state_of, compare_observations-conflicting_iff, compare_observations-corroborated_iff,
}
use ads_b_flight_intelligenc.Corroboration.Errors.{OneAddress, compare_observations-is_ok_iff}

abbrev policy : CorroborationPolicy micros
policy = record {
  version = "1.0";
  max_age = pos 30_000_000;
  max_future_skew = pos 2_000_000;
  max_time_delta = pos 15_000_000;
  max_position_distance_nm = pos 3_000_000;
  max_altitude_difference_ft = pos 1500;
}

abbrev reported : String → ℕ → ℕ → TrackObservation ℤ
reported source t altitude = record {
  observation_id = source;
  provenance = record {
    source_type = SourceType.simulation;
    source_id = source;
    receiver_id = none;
    recording_id = none;
    provider = none;
    license_id = none;
  };
  icao_hex = "A00001";
  observed_at = t;
  received_at = t;
  callsign = none;
  latitude = none;
  longitude = none;
  altitude_ft = some (pos altitude);
  ground_speed_knots = none;
  track_degrees = none;
  vertical_rate_fpm = none;
  squawk = none;
  quality_flags = [];
  raw_message_id = none;
}

abbrev here : TrackObservation ℤ
here = reported "local" 60_000_000 31_000

abbrev near : TrackObservation ℤ
near = reported "feed" 55_000_000 30_500

abbrev far : TrackObservation ℤ
far = reported "feed" 55_000_000 10_000

near-corroborated :
    state_of micros
      (compare_observations micros policy (some here) (some near) (aware 61_000_000) true)
    ≡ some corroborated
unfolding compare_observations
near-corroborated = refl

far-conflicting :
    state_of micros
      (compare_observations micros policy (some here) (some far) (aware 61_000_000) true)
    ≡ some conflicting
unfolding compare_observations
far-conflicting = refl

compare_observations-corroborated_iff_example :
    (state_of micros
        (compare_observations micros policy (some here) (some near) (aware 61_000_000) true)
      ≡ some corroborated)
    ↔ ((true ≡ true) × Both micros (IsAgreement micros policy 61_000_000) (some here) (some near))
compare_observations-corroborated_iff_example =
    compare_observations-corroborated_iff micros policy (some here) (some near) 61_000_000 true

compare_observations-conflicting_iff_example :
    (state_of micros
        (compare_observations micros policy (some here) (some far) (aware 61_000_000) true)
      ≡ some conflicting)
    ↔ ((true ≡ true) × Both micros (IsConflict micros policy 61_000_000) (some here) (some far))
compare_observations-conflicting_iff_example =
    compare_observations-conflicting_iff micros policy (some here) (some far) 61_000_000 true

compare_observations-is_ok_iff_example :
    (is_ok (compare_observations micros policy (some here) (some near) (aware 61_000_000) true)
      ≡ true)
    ↔ (((now : ℕ) × (aware 61_000_000 ≡ aware now))
        × ((is_some (some here) ≡ true) ⊎ (is_some (some near) ≡ true))
        × OneAddress micros true (some here) (some near))
compare_observations-is_ok_iff_example =
    compare_observations-is_ok_iff micros policy (some here) (some near) (aware 61_000_000) true
      refl refl

-- ===== src/Engine/Candidates/Tests.antt =====
-- The engine with the evaluators of the services, at a climb that no aircraft flies.
use ads_b_flight_intelligenc.Base.{
  ℕ, ◌≤◌, ◌≡◌, ◌↔◌, true, none, some, List, [], ◌∷◌, String, length,
}
use ads_b_flight_intelligenc.Base.Int.{ℤ, pos}
use ads_b_flight_intelligenc.Float.{micros}
use ads_b_flight_intelligenc.Observation.{TrackObservation, SourceType}
use ads_b_flight_intelligenc.Kinematics.Pair.{KinematicPolicy}
use ads_b_flight_intelligenc.Kinematics.Window.{WindowPolicy}
use ads_b_flight_intelligenc.Engine.Models.{EvidenceKind}
use ads_b_flight_intelligenc.Engine.Policy.{IntegrityPolicy}
use ads_b_flight_intelligenc.Engine.Env.{Texts}
use ads_b_flight_intelligenc.Engine.Track.{Track}
use ads_b_flight_intelligenc.Engine.Candidates.{candidates, window_items}
use ads_b_flight_intelligenc.Engine.Candidates.Timing.{has_kind}
use ads_b_flight_intelligenc.Engine.Candidates.Kinematic.{
  composed, IsDrift, IsImplausible, candidates-kinematic_iff,
}

abbrev texts : Texts
texts = record {
  uuid5 = λ namespace name. name;
  isoformat = λ t. "time";
  lower = λ s. s;
  decimal = λ n. "2";
}

abbrev general : ℤ → String
general x = "limit"

abbrev policy : IntegrityPolicy
policy = record {
  schema_version = "1.0";
  policy_version = "test";
  timing = record {
    maximum_reordering = pos 2_000_000;
    maximum_latency = pos 10_000_000;
    gap = pos 30_000_000;
    evidence_ttl = pos 60_000_000;
  };
  window = record {
    minimum_observations = 2;
    maximum_observations = 31;
    maximum_duration = pos 30_000_000;
  };
  runtime = record {
    minimum_observations = 2;
    maximum_tracks = 2;
    maximum_observations_per_track = 2;
    inactive_track = pos 600_000_000;
  };
}

abbrev pair_policy : KinematicPolicy micros texts.uuid5 general
pair_policy = record {
  version = "1.0";
  minimum_interval_seconds = pos 500_000;
  maximum_interval_seconds = pos 30_000_000;
  maximum_implied_speed_knots = pos 750_000_000;
  maximum_acceleration_knots_per_second = pos 20_000_000;
  maximum_turn_rate_degrees_per_second = pos 12_000_000;
  maximum_vertical_rate_fpm = pos 10_000;
  minimum_speed_for_turn_check_knots = pos 40_000_000;
  minimum_speed_disagreement_knots = pos 2_000_000_000;
  speed_disagreement_fraction = pos 500_000;
}

abbrev window_policy : WindowPolicy micros texts.uuid5
window_policy = record {
  version = "1.0";
  minimum_observations = 2;
  maximum_observations = 31;
  minimum_duration_seconds = pos 5_000_000;
  maximum_duration_seconds = pos 30_000_000;
  maximum_position_residual_nm = pos 2_000;
}

abbrev flown : String → ℕ → ℕ → TrackObservation ℤ
flown message t altitude = record {
  observation_id = message;
  provenance = record {
    source_type = SourceType.live_rf;
    source_id = "local-sbs";
    receiver_id = some "roof";
    recording_id = none;
    provider = none;
    license_id = none;
  };
  icao_hex = "A00001";
  observed_at = t;
  received_at = t;
  callsign = none;
  latitude = some (pos 35_000_000);
  longitude = some (pos 139_000_000);
  altitude_ft = some (pos altitude);
  ground_speed_knots = some (pos 100_000_000);
  track_degrees = some (pos 90_000_000);
  vertical_rate_fpm = none;
  squawk = none;
  quality_flags = [];
  raw_message_id = some message;
}

abbrev track : Track ℤ
track = record {
  observations = flown "a" 0 1_000 ∷ [];
  active = [];
  seen_message_ids = "a" ∷ [];
  seen_message_order = "a" ∷ [];
}

abbrev both : List (TrackObservation ℤ)
both = flown "a" 0 1_000 ∷ flown "b" 6_000_000 90_000 ∷ []

candidates-kinematic_iff_example :
    (has_kind EvidenceKind.window_kinematic (
          candidates
            (composed micros texts general policy pair_policy window_policy)
            track
            both
            (flown "b" 6_000_000 90_000))
        ≡ true
      ↔ 2
          ≤ length (
              window_items
                (composed micros texts general policy pair_policy window_policy)
                both
                (flown "b" 6_000_000 90_000))
        × IsDrift micros texts general policy pair_policy window_policy (
            window_items
              (composed micros texts general policy pair_policy window_policy)
              both
              (flown "b" 6_000_000 90_000)))
    × (has_kind EvidenceKind.pair_kinematic (
            candidates
              (composed micros texts general policy pair_policy window_policy)
              track
              both
              (flown "b" 6_000_000 90_000))
          ≡ true
        ↔ IsImplausible micros texts general policy pair_policy window_policy
            (some (flown "a" 0 1_000))
            (flown "b" 6_000_000 90_000))
candidates-kinematic_iff_example =
    candidates-kinematic_iff micros texts general policy pair_policy window_policy track both
      (flown "b" 6_000_000 90_000)

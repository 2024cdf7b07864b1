-- ===== src/External/Tests.antt =====
-- A client whose feed is down, and the comparison with a source that answers.
use ads_b_flight_intelligenc.Base.{
  ℕ, ◌+◌, ◌≤◌, ◌≡◌, ◌≢◌, ◌↔◌, false, none, some, [], ◌∷◌, arith, All,
}
use ads_b_flight_intelligenc.Base.Int.{ℤ, pos}
use ads_b_flight_intelligenc.Base.Json.{null}
use ads_b_flight_intelligenc.Base.Moment.{aware}
use ads_b_flight_intelligenc.Base.Result.{ok, raised}
use ads_b_flight_intelligenc.Float.{micros}
use ads_b_flight_intelligenc.Observation.{TrackObservation, SourceType}
use ads_b_flight_intelligenc.Corroboration.{corroborated}
use ads_b_flight_intelligenc.External.States.{Readers, RawState, http_error}
use ads_b_flight_intelligenc.External.Client.{Source, OpenSkyConfig, new_source, available}
use ads_b_flight_intelligenc.External.Source.{Call, fetch}
use ads_b_flight_intelligenc.External.Silence.{fetch_all, IsOffline, IsSilent}
use ads_b_flight_intelligenc.External.Outcomes.{outcomes}
use ads_b_flight_intelligenc.External.Tally.{all_lost, fetch_all-tally, fetch-opens_circuit}
use ads_b_flight_intelligenc.External.Service.{
  Service, corroborate, result_state, IsReported, corroborate-corroborated_iff,
}

abbrev observed : RawState ℤ → TrackObservation ℤ
observed raw = record {
  observation_id = "x";
  provenance = raw.provenance;
  icao_hex = raw.icao_hex;
  observed_at = raw.observed_at;
  received_at = raw.received_at;
  callsign = none;
  latitude = raw.latitude;
  longitude = raw.longitude;
  altitude_ft = raw.altitude_ft;
  ground_speed_knots = raw.ground_speed_knots;
  track_degrees = raw.track_degrees;
  vertical_rate_fpm = raw.vertical_rate_fpm;
  squawk = none;
  quality_flags = raw.quality_flags;
  raw_message_id = some raw.raw_message_id;
}

abbrev readers : Readers ℤ
readers = record {
  float_of = λ value. ok (pos 0);
  fromtimestamp = λ x. ok 0;
  text_of = λ value. "text";
  address_of = λ value. "A00001";
  construct = λ raw. ok (observed raw);
  int_of = λ text. none;
  is_zero = λ text. false;
  upper = λ text. text;
  fixed3 = λ x. "0";
}

abbrev config : OpenSkyConfig micros readers
config = record {
  client_id = "";
  client_secret = "";
  cache_ttl_seconds = pos 10_000_000;
  minimum_poll_interval_seconds = pos 10_000_000;
  failure_backoff_seconds = pos 2_000_000;
  circuit_failure_threshold = 1;
  circuit_open_seconds = pos 60_000_000;
}

abbrev call_at : ℕ → Call
call_at t = record {
  key = "*";
  now = t;
  authorized_at = t;
  token_reply = ok null;
  reply = raised (record { kind = http_error; name = "ConnectError" });
}

abbrev new : Source micros readers
new = record {
  cache = [];
  next_request_at = none;
  circuit_open_until = none;
  access_token = none;
  token_expires_at = none;
  counts = (new_source micros readers).counts;
}

first-fails :
    (fetch micros readers config (call_at 0) (new_source micros readers)).0.counts.failures
    ≢ (new_source micros readers).counts.failures
unfolding fetch new_source
first-fails h = absurd (omega (arith, h))

fetch-opens_circuit_example :
    All
      (IsOffline micros readers config)
      (fetch_all micros readers config
        (call_at 5_000_000 ∷ [])
        (fetch micros readers config (call_at 0) (new_source micros readers)).0).1
    × IsSilent micros readers config
        (fetch micros readers config (call_at 0) (new_source micros readers)).0
        (fetch_all micros readers config
          (call_at 5_000_000 ∷ [])
          (fetch micros readers config (call_at 0) (new_source micros readers)).0).0
fetch-opens_circuit_example =
    fetch-opens_circuit micros readers config (call_at 0) (call_at 5_000_000 ∷ [])
      (new_source micros readers) first-fails (omega arith) (omega arith, tt)

abbrev after : Source micros readers
after =
    (fetch_all micros readers config (call_at 0 ∷ call_at 5_000_000 ∷ [])
      (new_source micros readers)).0

fetch_all-tally_example :
    after.counts.requests
      ≡ outcomes after.counts
        + all_lost
            (fetch_all micros readers config
              (call_at 0 ∷ call_at 5_000_000 ∷ [])
              (new_source micros readers)).1
    × after.counts.consecutive_failures ≤ after.counts.failures
fetch_all-tally_example = fetch_all-tally micros readers config (call_at 0 ∷ call_at 5_000_000 ∷ [])

abbrev here : TrackObservation ℤ
here = record {
  observation_id = "l";
  provenance = record {
    source_type = SourceType.live_rf;
    source_id = "local-sbs";
    receiver_id = some "roof";
    recording_id = none;
    provider = none;
    license_id = none;
  };
  icao_hex = "A00001";
  observed_at = 0;
  received_at = 0;
  callsign = none;
  latitude = some (pos 35);
  longitude = some (pos 45);
  altitude_ft = some (pos 1_000);
  ground_speed_knots = none;
  track_degrees = none;
  vertical_rate_fpm = none;
  squawk = none;
  quality_flags = [];
  raw_message_id = none;
}

abbrev service : Service micros readers
service = record {
  fetch_states = λ bounds icao_hex. record {
    status = available;
    observations = here ∷ [];
    fetched_at = 0;
    from_cache = false;
    reason = none;
  };
  policy = record {
    version = "1.0";
    max_age = pos 30_000_000;
    max_future_skew = pos 2_000_000;
    max_time_delta = pos 10_000_000;
    max_position_distance_nm = pos 5;
    max_altitude_difference_ft = pos 500;
  };
  search_radius_degrees = pos 1;
}

corroborate-corroborated_iff_example :
    result_state micros readers (corroborate micros readers service here (aware 0))
      ≡ some corroborated
    ↔ IsReported micros readers service here 0
corroborate-corroborated_iff_example = corroborate-corroborated_iff micros readers service here 0

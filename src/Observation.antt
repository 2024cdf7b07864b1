-- ===== src/Observation.antt =====
-- backend/app/schemas/observation.py: the observation that every part of the program exchanges.
-- Identifiers are texts; the pattern, length and range checks of the fields are pydantic's.
pub mod Timing
mod Tests
use ads_b_flight_intelligenc.Base.{
  ℕ, Bool, true, false, not, ◌&&◌, ◌||◌, Option, none, some, List, String, is_some, str_eq,
}
use ads_b_flight_intelligenc.Base.Int.{ℤ}
use ads_b_flight_intelligenc.Base.Result.{Result, ok, ◌>>◌, raise_if}

pub data SourceType : Type 0 where
  live_rf simulation recorded_replay external_feed : SourceType

pub data QualityFlag : Type 0 where
  clock_skew duplicate out_of_order partial stale unverified : QualityFlag

pub data ValidationError : Type 0 where
  needs_receiver_id needs_recording_id needs_provider incomplete_position : ValidationError

pub record Provenance : Type 0 where
  pub source_type : SourceType
  pub source_id : String
  pub receiver_id : Option String
  pub recording_id : Option String
  pub provider : Option String
  pub license_id : Option String

pub record TrackObservation (N : Type 0) : Type 0 where
  pub observation_id : String
  pub provenance : Provenance
  pub icao_hex : String
  pub observed_at : ℕ
  pub received_at : ℕ
  pub callsign : Option String
  pub latitude : Option N
  pub longitude : Option N
  pub altitude_ft : Option ℤ
  pub ground_speed_knots : Option N
  pub track_degrees : Option N
  pub vertical_rate_fpm : Option ℤ
  pub squawk : Option String
  pub quality_flags : List QualityFlag
  pub raw_message_id : Option String

-- `is` on members of the enumeration
abbrev pub is_live_rf : SourceType → Bool
is_live_rf SourceType.live_rf = true
is_live_rf _ = false

abbrev pub is_replay : SourceType → Bool
is_replay SourceType.recorded_replay = true
is_replay _ = false

abbrev pub is_external : SourceType → Bool
is_external SourceType.external_feed = true
is_external _ = false

-- `not value`, of an optional text: absent or empty
abbrev pub is_blank : Option String → Bool
is_blank none = true
is_blank (some s) = str_eq s ""

-- `ObservationProvenance.validate_source_context`
unfoldable pub validate_source_context : Provenance → Result ValidationError Provenance
validate_source_context p =
    raise_if (is_live_rf p.source_type && is_blank p.receiver_id) needs_receiver_id
    >> raise_if (is_replay p.source_type && is_blank p.recording_id) needs_recording_id
    >> raise_if (is_external p.source_type && is_blank p.provider) needs_provider
    >> ok p

-- `TrackObservation.require_complete_position`
unfoldable pub require_complete_position :
    {N : Type 0} → TrackObservation N → Result ValidationError (TrackObservation N)
require_complete_position o =
    raise_if
      (not (is_some o.latitude) && is_some o.longitude
        || is_some o.latitude && not (is_some o.longitude))
      incomplete_position
    >> ok o

-- `source_type.value`
unfoldable pub source_text : SourceType → String
source_text SourceType.live_rf = "LIVE_RF"
source_text SourceType.simulation = "SIMULATION"
source_text SourceType.recorded_replay = "RECORDED_REPLAY"
source_text SourceType.external_feed = "EXTERNAL_FEED"

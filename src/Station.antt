-- ===== src/Station.antt =====
-- backend/app/schemas/edge.py and backend/app/services/station_health.py: what a sensor station
-- reports, and how its health is judged. Durations are whole microseconds. A reason is a
-- constructor with the values that its text shows.
pub mod Limits
pub mod Nodes
pub mod Health
mod Tests
use ads_b_flight_intelligenc.Base.{
  ℕ, ◌+◌, Bool, true, false, not, ◌&&◌, ◌||◌, ◌++◌, Option, none, some, List, [], ◌∷◌, String,
  str_eq, ltb, leb, when, if◌then◌else◌,
}
use ads_b_flight_intelligenc.Base.Int.{ℤ, pos, sub_ℕ, neg, ltb_ℤ, leb_ℤ}
use ads_b_flight_intelligenc.Base.Moment.{Moment, require_aware}
use ads_b_flight_intelligenc.Base.Result.{Result, ok, ◌>>=◌, ◌>>◌, raise_if}

pub data PresenceStatus : Type 0 where
  online offline : PresenceStatus

pub data ReceiverConnection : Type 0 where
  connected degraded disconnected : ReceiverConnection

pub record StationTelemetry : Type 0 where
  pub message_id : String
  pub node_id : String
  pub firmware_version : String
  pub boot_id : String
  pub sequence : ℕ
  pub observed_at : ℕ
  pub uptime_seconds : ℕ
  pub reconnect_count : ℕ
  pub rssi_dbm : ℤ
  pub free_heap_bytes : ℕ
  pub offline_queue_depth : ℕ
  pub watchdog_reset_count : ℕ

pub record StationPresence : Type 0 where
  pub message_id : String
  pub node_id : String
  pub status : PresenceStatus
  pub observed_at : ℕ
  pub reason : String

pub record ReceiverPipelineTelemetry : Type 0 where
  pub message_id : String
  pub node_id : String
  pub observed_at : ℕ
  pub connection : ReceiverConnection
  pub policy_version : String
  pub last_message_age : Option ℤ
  pub queue_depth : ℕ
  pub queue_capacity : ℕ
  pub dropped_messages_total : ℕ
  pub reconnects_total : ℕ

pub data StationHealthState : Type 0 where
  healthy degraded stale offline no_data : StationHealthState

pub record StationHealthPolicy : Type 0 where
  pub version : String
  pub stale_after : ℤ
  pub weak_rssi_dbm : ℤ
  pub minimum_free_heap_bytes : ℤ
  pub pipeline_stale_after : ℤ
  pub receiver_silence_after : ℤ

pub data HealthReason : Type 0 where
  nothing_received pipeline_only presence_only ahead_of_clock heartbeat_too_old : HealthReason
  reported_offline : String → HealthReason
  weak_rssi : ℤ → HealthReason
  low_heap queued watchdog_resets : ℕ → HealthReason
  pipeline_too_old queue_full receiver_silent all_limits_pass : HealthReason
  pipeline_reports : ReceiverConnection → HealthReason

pub data HealthError : Type 0 where
  naive_evaluated_at different_nodes : HealthError
  bad_stale_after bad_weak_rssi bad_minimum_heap bad_pipeline_stale_after bad_silence : HealthError
  queue_beyond_capacity : HealthError

pub record StationHealthResult : Type 0 where
  pub state : StationHealthState
  pub policy_version : String
  pub node_id : Option String
  pub evaluated_at : ℕ
  pub telemetry_age : Option ℤ
  pub reasons : List HealthReason
  pub telemetry_message_id : Option String
  pub presence_message_id : Option String
  pub pipeline_message_id : Option String
  pub pipeline_age : Option ℤ

-- `ReceiverPipelineTelemetry.require_bounded_queue`
unfoldable pub require_bounded_queue :
    ReceiverPipelineTelemetry → Result HealthError ReceiverPipelineTelemetry
require_bounded_queue p =
    raise_if (ltb p.queue_capacity p.queue_depth) queue_beyond_capacity >> ok p

-- `StationHealthPolicy.__post_init__`
unfoldable pub check_policy : StationHealthPolicy → Result HealthError StationHealthPolicy
check_policy p =
    raise_if (leb_ℤ p.stale_after (pos 0)) bad_stale_after
    >> raise_if (not (leb_ℤ (neg (pos 127)) p.weak_rssi_dbm && leb_ℤ p.weak_rssi_dbm (pos 0)))
        bad_weak_rssi
    >> raise_if (ltb_ℤ p.minimum_free_heap_bytes (pos 0)) bad_minimum_heap
    >> raise_if (leb_ℤ p.pipeline_stale_after (pos 0)) bad_pipeline_stale_after
    >> raise_if (leb_ℤ p.receiver_silence_after (pos 0)) bad_silence
    >> ok p

-- What has been received of the station.
pub record Reports : Type 0 where
  pub telemetry : Option StationTelemetry
  pub presence : Option StationPresence
  pub pipeline : Option ReceiverPipelineTelemetry

-- `_age_seconds`, `_pipeline_age_seconds`
abbrev pub age_of : Option StationTelemetry → ℕ → Option ℤ
age_of none now = none
age_of (some t) now = some (sub_ℕ now t.observed_at)

abbrev pub pipeline_age_of : Option ReceiverPipelineTelemetry → ℕ → Option ℤ
pipeline_age_of none now = none
pipeline_age_of (some p) now = some (sub_ℕ now p.observed_at)

abbrev telemetry_message : Option StationTelemetry → Option String
telemetry_message none = none
telemetry_message (some t) = some t.message_id

abbrev presence_message : Option StationPresence → Option String
presence_message none = none
presence_message (some p) = some p.message_id

abbrev pipeline_message : Option ReceiverPipelineTelemetry → Option String
pipeline_message none = none
pipeline_message (some p) = some p.message_id

abbrev pub pipeline_node : Option ReceiverPipelineTelemetry → Option String
pipeline_node none = none
pipeline_node (some p) = some p.node_id

abbrev presence_node : Option StationPresence → Option ReceiverPipelineTelemetry → Option String
presence_node none pipeline = pipeline_node pipeline
presence_node (some p) pipeline = some p.node_id

-- `_node_id`
abbrev pub node_of :
    Option StationTelemetry
    → Option StationPresence
    → Option ReceiverPipelineTelemetry
    → Option String
node_of none presence pipeline = presence_node presence pipeline
node_of (some t) presence pipeline = some t.node_id

-- `_result`
unfoldable pub health_result :
    StationHealthPolicy
    → Reports
    → ℕ
    → StationHealthState
    → Option ℤ
    → List HealthReason
    → StationHealthResult
health_result policy r now state age reasons = record {
  state = state;
  policy_version = policy.version;
  node_id = node_of r.telemetry r.presence r.pipeline;
  evaluated_at = now;
  telemetry_age = age;
  reasons = reasons;
  telemetry_message_id = telemetry_message r.telemetry;
  presence_message_id = presence_message r.presence;
  pipeline_message_id = pipeline_message r.pipeline;
  pipeline_age = pipeline_age_of r.pipeline now;
}

-- `if a and b and a.node_id != b.node_id`
abbrev pub differ : Option String → Option String → Bool
differ (some a) (some b) = not (str_eq a b)
differ _ _ = false

abbrev pub telemetry_node : Option StationTelemetry → Option String
telemetry_node none = none
telemetry_node (some t) = some t.node_id

abbrev pub presence_node_only : Option StationPresence → Option String
presence_node_only none = none
presence_node_only (some p) = some p.node_id

-- The three node checks; they raise one `ValueError`, with different texts.
abbrev pub mixed_nodes : Reports → Bool
mixed_nodes r =
    differ (telemetry_node r.telemetry) (presence_node_only r.presence)
    || (differ (pipeline_node r.pipeline) (telemetry_node r.telemetry)
        || differ (pipeline_node r.pipeline) (presence_node_only r.presence))

abbrev pub is_offline : PresenceStatus → Bool
is_offline PresenceStatus.offline = true
is_offline PresenceStatus.online = false

abbrev pub is_connected : ReceiverConnection → Bool
is_connected ReceiverConnection.connected = true
is_connected _ = false

-- `telemetry is None or presence.observed_at >= telemetry.observed_at`
abbrev pub not_superseded : Option StationTelemetry → ℕ → Bool
not_superseded none t = true
not_superseded (some telemetry) t = leb telemetry.observed_at t

-- The reason of a presence that says OFFLINE and is not older than the telemetry.
abbrev pub offline_reason : Option StationTelemetry → Option StationPresence → Option String
offline_reason telemetry none = none
offline_reason telemetry (some p) =
    if is_offline p.status && not_superseded telemetry p.observed_at then some p.reason else none

-- `-2` seconds
abbrev pub skew : ℤ
skew = neg (pos 2_000_000)

abbrev pub is_silent : Option ℤ → ℤ → Bool
is_silent none limit = false
is_silent (some age) limit = ltb_ℤ limit age

unfoldable pub pipeline_reasons :
    StationHealthPolicy → Option ReceiverPipelineTelemetry → ℕ → List HealthReason
pipeline_reasons policy none now = []
pipeline_reasons policy (some p) now =
    let age = sub_ℕ now p.observed_at in
    (if ltb_ℤ age skew || ltb_ℤ policy.pipeline_stale_after age
      then pipeline_too_old ∷ []
      else when (not (is_connected p.connection)) (pipeline_reports p.connection))
    ++ (when (leb p.queue_capacity p.queue_depth) queue_full
        ++ when (is_silent p.last_message_age policy.receiver_silence_after) receiver_silent)

unfoldable pub limit_reasons : StationHealthPolicy → StationTelemetry → List HealthReason
limit_reasons policy t =
    when (leb_ℤ t.rssi_dbm policy.weak_rssi_dbm) (weak_rssi t.rssi_dbm)
    ++ (when (ltb_ℤ (pos t.free_heap_bytes) policy.minimum_free_heap_bytes)
          (low_heap t.free_heap_bytes)
        ++ (when (ltb 0 t.offline_queue_depth) (queued t.offline_queue_depth)
            ++ when (ltb 0 t.watchdog_reset_count) (watchdog_resets t.watchdog_reset_count)))

-- the state and the reasons of a fresh heartbeat
abbrev pub judge_reasons : List HealthReason → StationHealthState × List HealthReason
judge_reasons [] = (StationHealthState.healthy, all_limits_pass ∷ [])
judge_reasons (r ∷ rs) = (StationHealthState.degraded, r ∷ rs)

unfoldable pub judge_telemetry :
    StationHealthPolicy
    → StationTelemetry
    → Option ReceiverPipelineTelemetry
    → ℕ
    → StationHealthState × List HealthReason
unfolding limit_reasons pipeline_reasons
judge_telemetry policy t pipeline now =
    let age = sub_ℕ now t.observed_at in
    if ltb_ℤ age skew
    then (StationHealthState.stale, ahead_of_clock ∷ [])
    else if ltb_ℤ policy.stale_after age
    then (StationHealthState.stale, heartbeat_too_old ∷ [])
    else judge_reasons (limit_reasons policy t ++ pipeline_reasons policy pipeline now)

-- After the node checks: an offline presence, no telemetry, or a heartbeat to judge.
unfoldable pub judge_online :
    StationHealthPolicy
    → Option StationTelemetry
    → Option ReceiverPipelineTelemetry
    → ℕ
    → StationHealthState × List HealthReason
unfolding judge_telemetry
judge_online policy none pipeline now = (StationHealthState.no_data, presence_only ∷ [])
judge_online policy (some t) pipeline now = judge_telemetry policy t pipeline now

abbrev pub judge_presence :
    StationHealthPolicy → Reports → ℕ → Option String → StationHealthState × List HealthReason
judge_presence policy r now none = judge_online policy r.telemetry r.pipeline now
judge_presence policy r now (some reason) =
    (StationHealthState.offline, reported_offline reason ∷ [])

-- `telemetry is None and presence is None`
abbrev pub is_unheard : Option StationTelemetry → Option StationPresence → Bool
is_unheard none none = true
is_unheard _ _ = false

abbrev unheard_reason : Option ReceiverPipelineTelemetry → HealthReason
unheard_reason none = nothing_received
unheard_reason (some p) = pipeline_only

-- After `_require_aware`
unfoldable pub evaluate_at :
    StationHealthPolicy → Reports → ℕ → Result HealthError StationHealthResult
unfolding health_result judge_online
evaluate_at policy r now =
    if is_unheard r.telemetry r.presence
    then ok (
        health_result policy r now StationHealthState.no_data none (unheard_reason r.pipeline ∷ []))
    else do
      raise_if (mixed_nodes r) different_nodes
      let (state, reasons) = judge_presence policy r now (offline_reason r.telemetry r.presence)
      ok (health_result policy r now state (age_of r.telemetry now) reasons)

unfoldable pub evaluate_station_health :
    StationHealthPolicy → Reports → Moment → Result HealthError StationHealthResult
unfolding evaluate_at
evaluate_station_health policy r evaluated_at = do
  now ← require_aware naive_evaluated_at evaluated_at
  evaluate_at policy r now

-- ===== src/Station/Tests.antt =====
-- The health of a station at concrete inputs.
use ads_b_flight_intelligenc.Base.{ℕ, ◌≡◌, ◌↔◌, refl, true, none, some, String}
use ads_b_flight_intelligenc.Base.Int.{pos, neg}
use ads_b_flight_intelligenc.Base.Moment.{aware}
use ads_b_flight_intelligenc.Base.Result.{is_ok}
use ads_b_flight_intelligenc.Station.{
  StationTelemetry, StationPresence, ReceiverPipelineTelemetry, PresenceStatus, ReceiverConnection,
  StationHealthState, StationHealthPolicy, Reports, evaluate_station_health,
}
use ads_b_flight_intelligenc.Station.Nodes.{IsFrom}
use ads_b_flight_intelligenc.Station.Health.{
  state_of, IsReportedOffline, IsWell, evaluate_station_health-healthy_iff,
  evaluate_station_health-offline_iff, evaluate_station_health-is_ok_iff,
}

abbrev policy : StationHealthPolicy
policy = record {
  version = "1.1";
  stale_after = pos 45_000_000;
  weak_rssi_dbm = neg (pos 80);
  minimum_free_heap_bytes = pos 50_000;
  pipeline_stale_after = pos 45_000_000;
  receiver_silence_after = pos 300_000_000;
}

abbrev heartbeat : StationTelemetry
heartbeat = record {
  message_id = "m-1";
  node_id = "roof";
  firmware_version = "1.0";
  boot_id = "b-1";
  sequence = 7;
  observed_at = 60_000_000;
  uptime_seconds = 60;
  reconnect_count = 0;
  rssi_dbm = neg (pos 61);
  free_heap_bytes = 180_000;
  offline_queue_depth = 0;
  watchdog_reset_count = 0;
}

abbrev last_will : StationPresence
last_will = record {
  message_id = "m-2";
  node_id = "roof";
  status = PresenceStatus.offline;
  observed_at = 61_000_000;
  reason = "connection lost";
}

abbrev receiver : ReceiverPipelineTelemetry
receiver = record {
  message_id = "m-3";
  node_id = "roof";
  observed_at = 59_000_000;
  connection = ReceiverConnection.connected;
  policy_version = "1.0";
  last_message_age = some (pos 1_000_000);
  queue_depth = 3;
  queue_capacity = 100;
  dropped_messages_total = 0;
  reconnects_total = 0;
}

abbrev up : Reports
up = record { telemetry = some heartbeat; presence = none; pipeline = some receiver }

abbrev down : Reports
down = record { telemetry = some heartbeat; presence = some last_will; pipeline = none }

up-healthy :
    state_of (evaluate_station_health policy up (aware 62_000_000))
    ≡ some StationHealthState.healthy
unfolding evaluate_station_health
up-healthy = refl

down-offline :
    state_of (evaluate_station_health policy down (aware 62_000_000))
    ≡ some StationHealthState.offline
unfolding evaluate_station_health
down-offline = refl

evaluate_station_health-healthy_iff_example :
    (state_of (evaluate_station_health policy up (aware 62_000_000))
      ≡ some StationHealthState.healthy)
    ↔ (((node : String) × IsFrom up node)
        × (¬ IsReportedOffline up.telemetry up.presence)
        × IsWell policy up.telemetry up.pipeline 62_000_000)
evaluate_station_health-healthy_iff_example =
    evaluate_station_health-healthy_iff policy up 62_000_000

evaluate_station_health-offline_iff_example :
    (state_of (evaluate_station_health policy down (aware 62_000_000))
      ≡ some StationHealthState.offline)
    ↔ (((node : String) × IsFrom down node) × IsReportedOffline down.telemetry down.presence)
evaluate_station_health-offline_iff_example =
    evaluate_station_health-offline_iff policy down 62_000_000

evaluate_station_health-is_ok_iff_example :
    (is_ok (evaluate_station_health policy up (aware 62_000_000)) ≡ true)
    ↔ (((now : ℕ) × (aware 62_000_000 ≡ aware now)) × ((node : String) × IsFrom up node))
evaluate_station_health-is_ok_iff_example =
    evaluate_station_health-is_ok_iff policy up (aware 62_000_000)

-- ===== src/Engine/Tests.antt =====
-- The engine at concrete inputs.
use mathlib.Core.List.{Perm}
use ads_b_flight_intelligenc.Base.{
  ℕ, ◌≤◌, ◌<◌, ◌≡◌, ◌≢◌, ◌↔◌, refl, ◌⊎◌, true, false, Option, none, some, List, [], ◌∷◌, map,
  String, str_eq, str_lt, eq_iff, arith, leb, length, filter, is_some, sort_by, if◌then◌else◌,
}
use ads_b_flight_intelligenc.Base.Int.{ℤ, pos, ◌-ℤ◌, ◌<ℤ◌, ◌≤ℤ◌, sub_ℕ, neg}
use ads_b_flight_intelligenc.Base.Dict.{
  item_before, lookup, erase, DistinctKeys, Values, without, key_where,
}
use ads_b_flight_intelligenc.Base.Sets.{contains}
use ads_b_flight_intelligenc.Float.{micros}
use ads_b_flight_intelligenc.Observation.{TrackObservation, SourceType, is_replay}
use ads_b_flight_intelligenc.Kinematics.{EvaluationStatus}
use ads_b_flight_intelligenc.Engine.Models.{
  TrackState, EvidenceKind, EvidenceSeverity, EventType, IntegrityEvidence, IntegritySnapshot,
  IntegrityEvent, severity_index,
}
use ads_b_flight_intelligenc.Engine.Policy
use ads_b_flight_intelligenc.Engine.Policy.{IntegrityPolicy}
use ads_b_flight_intelligenc.Engine.Env.{Env, FailedRule}
use ads_b_flight_intelligenc.Engine.Track.{Track, is_duplicate, note_message, fresh_track}
use ads_b_flight_intelligenc.Engine.Track.Memory.{
  IsMemory, note_message-IsMemory, is_duplicate-note_message,
}
use ads_b_flight_intelligenc.Engine.Evidence.{
  Candidate, evidence_key, event_for, open_or_update, expire,
}
use ads_b_flight_intelligenc.Engine.Evidence.Lifecycle.{
  unexpired, lookup-expire, events-expire, open_or_update_known,
}
use ads_b_flight_intelligenc.Engine.Candidates.{candidates}
use ads_b_flight_intelligenc.Engine.Candidates.Timing.{has_kind, candidates-timing}
use ads_b_flight_intelligenc.Engine.Cache.{EngineState, purge_inactive, evict_if_needed}
use ads_b_flight_intelligenc.Engine.Cache.Purge.{is_stale, purge_inactive_lem, IsSeen}
use ads_b_flight_intelligenc.Engine.Cache.Eviction.{IsInStep, Evicts, Keeps, evict_if_needed_lem}
use ads_b_flight_intelligenc.Engine.Ingest.{ingest, snapshot_from}
use ads_b_flight_intelligenc.Engine.Ingest.Invariant.{
  IsValid, IsTimely, IsUnevaluable, Ingested, ingest-Ingested,
}
use ads_b_flight_intelligenc.Engine.Ingest.Snapshots.{snapshot_from-state}
use ads_b_flight_intelligenc.Engine.Ingest.Runs.{
  new_engine, ingest_all, new_engine-IsValid, run-IsValid, IsEvaluable,
}

-- Two places for tracks and two observations to a track; evidence lives one minute.
abbrev policy : IntegrityPolicy
policy = record {
  schema_version = "1.0";
  policy_version = "test";
  timing = record {
    maximum_reordering = pos 2_000_000;
    maximum_latency = pos 10_000_000;
    gap = pos 30_000_000;
    evidence_ttl = pos 60_000_000;
  };
  window = record {
    minimum_observations = 6;
    maximum_observations = 31;
    maximum_duration = pos 30_000_000;
  };
  runtime = record {
    minimum_observations = 2;
    maximum_tracks = 2;
    maximum_observations_per_track = 2;
    inactive_track = pos 600_000_000;
  };
}

policy-IsValid : Policy.IsValid policy
policy-IsValid = omega arith

-- A pair evaluator with one failed rule, and a window evaluator that finds nothing.
abbrev turn_rules : List (FailedRule ℤ)
turn_rules =
    record { rule = "TURN_RATE"; value = pos 5; threshold = pos 3; explanation = "fast" } ∷ []

abbrev env : Env
env = record {
  floats = micros;
  texts = record {
    uuid5 = λ namespace name. name;
    isoformat = λ t. "time";
    lower = λ s. s;
    decimal = λ n. "2";
  };
  evaluators = record {
    pair = λ previous o. some turn_rules;
    window = λ items. some (record { status = EvaluationStatus.pass; failed_rules = [] });
  };
  policy = policy;
}

abbrev seen_at : String → String → ℕ → TrackObservation ℤ
seen_at hex message t = record {
  observation_id = message;
  provenance = record {
    source_type = SourceType.live_rf;
    source_id = "local-sbs";
    receiver_id = some "roof";
    recording_id = none;
    provider = none;
    license_id = none;
  };
  icao_hex = hex;
  observed_at = t;
  received_at = t;
  callsign = none;
  latitude = none;
  longitude = none;
  altitude_ft = none;
  ground_speed_knots = none;
  track_degrees = none;
  vertical_rate_fpm = none;
  squawk = none;
  quality_flags = [];
  raw_message_id = some message;
}

-- Three aircraft, one message twice, a step back in time and a gap.
abbrev feed : List (TrackObservation ℤ)
feed =
    seen_at "A00001" "m1" 1_001_000_000
    ∷ seen_at "A00001" "m1" 1_002_000_000
    ∷ seen_at "A00002" "m2" 1_003_000_000
    ∷ seen_at "A00001" "m3" 1_001_500_000
    ∷ seen_at "A00003" "m4" 1_090_000_000
    ∷ []

-- The evaluators of the example raise of nothing.
abbrev Anything : TrackObservation ℤ → Type 0
Anything o = Unit

env-IsEvaluable : IsEvaluable env Anything
env-IsEvaluable = record { pairs = λ previous o h k. refl; windows = λ items enough h. refl }

timely :
    (o : TrackObservation ℤ)
    → 1_000_000_000 ≤ o.observed_at
    → o.observed_at ≤ 2_000_000_000
    → IsTimely env o
timely o h k = record { cutoff = ground arith; window_start = ground arith; expiry = ground arith }

run-IsValid_example :
    (s : EngineState ℤ) × (events : List (IntegrityEvent ℤ)) × (ingest_all env new_engine feed
      ≡ some (s, events))
    × IsValid env s
run-IsValid_example = run-IsValid env Anything policy-IsValid env-IsEvaluable feed (
  (tt, timely (seen_at "A00001" "m1" 1_001_000_000) (omega arith) (omega arith)),
  (
    (tt, timely (seen_at "A00001" "m1" 1_002_000_000) (omega arith) (omega arith)),
    (
      (tt, timely (seen_at "A00002" "m2" 1_003_000_000) (omega arith) (omega arith)),
      (
        (tt, timely (seen_at "A00001" "m3" 1_001_500_000) (omega arith) (omega arith)),
        ((tt, timely (seen_at "A00003" "m4" 1_090_000_000) (omega arith) (omega arith)), tt),
      ),
    ),
  ),
)

ingest-Ingested_example :
    ((ingest env new_engine (seen_at "A00001" "m1" 1_001_000_000) ≡ none)
      × IsUnevaluable env (seen_at "A00001" "m1" 1_001_000_000) new_engine)
    ⊎ (s : EngineState ℤ) × (snapshot : IntegritySnapshot ℤ) × (events : List (IntegrityEvent ℤ))
      × (ingest env new_engine (seen_at "A00001" "m1" 1_001_000_000) ≡ some (s, snapshot, events))
      × Ingested env (seen_at "A00001" "m1" 1_001_000_000) new_engine s snapshot
ingest-Ingested_example =
    ingest-Ingested env policy-IsValid (seen_at "A00001" "m1" 1_001_000_000) new_engine
      (timely (seen_at "A00001" "m1" 1_001_000_000) (omega arith) (omega arith))
      (new_engine-IsValid env)

abbrev run_states : Option (EngineState ℤ × List (IntegrityEvent ℤ)) → Option (List String × ℕ)
run_states none = none
run_states (some (s, events)) = some (map (λ item. item.0) s.tracks, length events)

-- The third aircraft takes the place of the one seen longest ago.
feed_tracks :
    run_states (ingest_all env new_engine feed)
    ≡ some ("LIVE_RF:local-sbs:A00002" ∷ "LIVE_RF:local-sbs:A00003" ∷ [], 4)
unfolding ingest_all new_engine str_lt sort_by open_or_update erase
feed_tracks = refl

abbrev turn : Candidate ℤ
turn = record {
  kind = EvidenceKind.pair_kinematic;
  discriminator = "TURN_RATE";
  summary = "fast";
  measured = ("turn_rate", pos 5) ∷ [];
  thresholds = ("turn_rate", pos 3) ∷ [];
  severity = EvidenceSeverity.info;
}

abbrev old_turn : IntegrityEvidence ℤ
old_turn = record {
  evidence_id = "e1";
  kind = EvidenceKind.pair_kinematic;
  severity = EvidenceSeverity.critical;
  first_observed_at = 1;
  last_observed_at = 1;
  expires_at = 60_000_001;
  summary = "fast";
  measured = [];
  thresholds = [];
}

abbrev track : Track ℤ
track = record {
  observations = seen_at "A00001" "m1" 1_000_000 ∷ [];
  active = ("PAIR_KINEMATIC:TURN_RATE", old_turn) ∷ [];
  seen_message_ids = "m1" ∷ "m2" ∷ [];
  seen_message_order = "m1" ∷ "m2" ∷ [];
}

m1≢m2 : contains str_eq "m1" ("m2" ∷ []) ≡ false
unfolding contains
m1≢m2 = refl

track-IsMemory : IsMemory 2 track
track-IsMemory = record {
  bounded = omega arith;
  distinct = (m1≢m2, (unfold contains in refl, tt));
  same = λ id. refl;
}

note_message-IsMemory_example : IsMemory 2 (note_message 2 (some "m3") track)
note_message-IsMemory_example =
    note_message-IsMemory 2 (some "m3") track (omega arith) track-IsMemory

text_m3 : ◌≢◌ {A = String} "m3" ""
text_m3 = ground (arith, eq_iff "m3" "")

is_duplicate-note_message_example :
    is_duplicate (some "m3") (note_message 2 (some "m3") track) ≡ true
is_duplicate-note_message_example = is_duplicate-note_message 2 "m3" track text_m3

track-DistinctKeys : DistinctKeys track.active
track-DistinctKeys = (unfold lookup in refl, tt)

lookup-expire_example :
    lookup "PAIR_KINEMATIC:TURN_RATE" (expire env "t" track 90_000_000).0.active
    ≡ unexpired 90_000_000 (lookup "PAIR_KINEMATIC:TURN_RATE" track.active)
lookup-expire_example =
    lookup-expire env "t" 90_000_000 track "PAIR_KINEMATIC:TURN_RATE" track-DistinctKeys

events-expire_example :
    (expire env "t" track 90_000_000).1
    ≡ map
        (λ item. event_for env EventType.evidence_closed "t" 90_000_000 item.1)
        (filter (λ item. leb item.1.expires_at 90_000_000) (sort_by item_before track.active))
events-expire_example = events-expire env "t" 90_000_000 track

turn_new : lookup (evidence_key turn) (fresh_track {N = ℤ}).active ≡ none
unfolding lookup fresh_track
turn_new = refl

turn_known : lookup (evidence_key turn) track.active ≡ some old_turn
unfolding lookup evidence_key
turn_known = refl

open_or_update_known_example :
    let (t', event) = open_or_update env "t" track (seen_at "A00001" "m3" 2_000_000) turn in
    (event.event_type ≡ EventType.evidence_updated)
    × (event.evidence.evidence_id ≡ "e1")
    × (event.evidence.kind ≡ EvidenceKind.pair_kinematic)
    × (event.evidence.first_observed_at ≡ 1)
    × (event.evidence.last_observed_at ≡ 2_000_000)
    × (2 ≤ severity_index event.evidence.severity)
    × (0 ≤ severity_index event.evidence.severity)
    × ((k : String)
        → lookup k t'.active
          ≡ (if str_eq (evidence_key turn) k then some event.evidence else lookup k track.active))
open_or_update_known_example =
    open_or_update_known env "t" track (seen_at "A00001" "m3" 2_000_000) turn old_turn turn_known

abbrev before : TrackObservation ℤ
before = seen_at "A00001" "m1" 1_000_000

abbrev after : TrackObservation ℤ
after = seen_at "A00001" "m3" 90_000_000

abbrev both : List (TrackObservation ℤ)
both = before ∷ after ∷ []

candidates-timing_example :
    let found = candidates env track both after in
    ((has_kind EvidenceKind.timing_duplicate found ≡ true)
      ↔ (is_duplicate (some "m3") track ≡ true))
    × ((has_kind EvidenceKind.timing_non_increasing found ≡ true)
        ↔ (sub_ℕ 90_000_000 1_000_000 ≤ℤ pos 0))
    × ((has_kind EvidenceKind.timing_out_of_order found ≡ true)
        ↔ (sub_ℕ 90_000_000 1_000_000 <ℤ neg (pos 2_000_000)))
    × ((has_kind EvidenceKind.timing_gap found ≡ true)
        ↔ (pos 30_000_000 <ℤ sub_ℕ 90_000_000 1_000_000))
    × ((has_kind EvidenceKind.timing_excessive_latency found ≡ true) ↔ (
        (is_replay SourceType.live_rf ≡ false) × (pos 10_000_000 <ℤ sub_ℕ 90_000_000 90_000_000)))
candidates-timing_example = candidates-timing env track both before after refl

-- An engine that is full.
abbrev full : EngineState ℤ
full = record {
  tracks =
      ("t1", track)
      ∷ ("t2", record track { observations = seen_at "A00002" "m2" 800_000_000 ∷ [] })
      ∷ [];
  snapshots =
      ("t1", snapshot_from env "t1" track before before)
      ∷ ("t2", snapshot_from env "t2" track before before)
      ∷ [];
}

full-IsSeen : Values IsSeen full.tracks
full-IsSeen = ((1_000_000, refl, omega arith), ((800_000_000, refl, omega arith), tt))

full-DistinctKeys : DistinctKeys full.tracks
unfolding lookup
full-DistinctKeys = (refl, (refl, tt))

full-IsInStep : IsInStep full
unfolding lookup
full-IsInStep = record { in_step = λ k. ground arith }

purge_inactive_lem_example :
    (s' : EngineState ℤ) × (purge_inactive (pos 600_000_000) 900_000_000 full ≡ some s')
    × ((k : String)
        → lookup k s'.tracks
          ≡ without (is_stale (pos 900_000_000 -ℤ pos 600_000_000)) (lookup k full.tracks))
    × ((k : String)
        → lookup k s'.snapshots ≡ (
            if key_where (is_stale (pos 900_000_000 -ℤ pos 600_000_000)) k full.tracks
            then none
            else lookup k full.snapshots))
    × (length s'.tracks ≤ 2)
    × DistinctKeys s'.tracks
purge_inactive_lem_example =
    purge_inactive_lem (pos 600_000_000) 900_000_000 full full-IsSeen full-DistinctKeys
      (omega arith, omega arith)

evict_if_needed_lem_example :
    (s' : EngineState ℤ) × (evict_if_needed 2 "t3" full ≡ some s')
    × Keeps full s'
    × ((s' ≡ full) × (is_some (lookup "t3" full.tracks) ≡ true) ⊎ Evicts 2 full s')
evict_if_needed_lem_example =
    evict_if_needed_lem 2 "t3" full (omega arith) full-IsSeen full-DistinctKeys full-IsInStep

snapshot_from-state_example :
    let snapshot = snapshot_from env "t1" track before before in
    Perm snapshot.active_evidence (map (λ item. item.1) track.active)
    × ((snapshot.state ≡ TrackState.insufficient_data) ↔ (snapshot.observation_count < 2))
    × ((snapshot.state ≡ TrackState.nominal)
        ↔ ((2 ≤ snapshot.observation_count) × (length snapshot.active_evidence ≡ 0)))
    × ((snapshot.state ≡ TrackState.questionable)
        ↔ ((2 ≤ snapshot.observation_count) × (0 < length snapshot.active_evidence)))
snapshot_from-state_example = snapshot_from-state env "t1" track before before

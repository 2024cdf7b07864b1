-- ===== src/Sidecar/Tests.antt =====
-- The sidecar at concrete inputs.
use ads_b_flight_intelligenc.Base.{
  ◌≡◌, ◌≢◌, refl, true, false, not, none, some, List, [], ◌∷◌, String, arith,
}
use ads_b_flight_intelligenc.Base.Int.{ℤ, pos}
use ads_b_flight_intelligenc.Base.Dict.{Dict, lookup}
use ads_b_flight_intelligenc.Base.Json.{Fields, str, field, end}
use ads_b_flight_intelligenc.Base.Result.{ok, raised}
use ads_b_flight_intelligenc.Observation.{incomplete_position}
use ads_b_flight_intelligenc.Engine.Env.{Env}
use ads_b_flight_intelligenc.Engine.Ingest.Runs.{new_engine, new_engine-IsValid}
use ads_b_flight_intelligenc.Engine.Policy
use ads_b_flight_intelligenc.Sidecar.Sbs.{
  SbsReaders, SbsValue, Raw, text_line, words, decimal, instant, whole, merge_state, parse_sbs_line,
  is_private,
}
use ads_b_flight_intelligenc.Sidecar.Sbs.Parsed.{
  over, merge_state-lookup, IsIdentified, parse_sbs_line-IsIdentified,
}
use ads_b_flight_intelligenc.Sidecar.Store.{
  EventStore, StoreReaders, append, remember, is_known, event_id_of,
}
use ads_b_flight_intelligenc.Sidecar.Store.Bounds.{Fits, IsStored, append-IsStored}
use ads_b_flight_intelligenc.Sidecar.Store.Memory.{IsRemembered, remember-IsRemembered}
use ads_b_flight_intelligenc.Sidecar.Runtime.{
  SidecarRuntime, Outside, Happening, line_read, line_processed, subscribed, run, process_line,
  invalid, merged_with, adapted, in_range, provenance_in_range,
}
use ads_b_flight_intelligenc.Sidecar.Runtime.Running.{IsRunning}
use ads_b_flight_intelligenc.Sidecar.Runtime.Run.{run-IsRunning}
use ads_b_flight_intelligenc.Sidecar.Runtime.Incomplete.{
  process_line-incomplete, IsInRange, live_at,
}
use ads_b_flight_intelligenc.Kinematics.{EvaluationStatus}
use ads_b_flight_intelligenc.Float.{micros}

-- An aircraft climbs.
abbrev known_state : Dict (SbsValue ℤ)
known_state = ("hex", words "A00001") ∷ ("altitude", whole (pos 1_000)) ∷ []

abbrev climbing : Dict (SbsValue ℤ)
climbing =
    ("hex", words "A00001")
    ∷ ("altitude", whole (pos 2_000))
    ∷ ("_observed_at", instant 5)
    ∷ ("_raw_message_id", words "m1")
    ∷ []

known-nonempty : known_state ≢ []
known-nonempty h = absurd (cc)

merge_state-lookup_example :
    (merged : Dict (SbsValue ℤ)) × (merge_state (some known_state) climbing ≡ some merged)
    × ((k : String)
        → is_private k ≡ false
        → lookup k merged ≡ over (lookup k climbing) (lookup k known_state))
    × (lookup "_observed_at" merged ≡ some (instant 5))
    × (lookup "_raw_message_id" merged ≡ some (words "m1"))
merge_state-lookup_example =
    merge_state-lookup known_state climbing (instant 5) (words "m1") known-nonempty
      (unfold lookup in (refl, (refl, (refl, (refl, tt))))) (unfold lookup in refl)
      (unfold lookup in refl)

-- Readers for which the one line that counts has a latitude and no longitude.
abbrev readers : SbsReaders ℤ
readers = record {
  Bytes = Unit;
  size = λ raw. 0;
  decode = λ raw. none;
  encoded_size = λ line. 0;
  strip = λ text. text;
  upper = λ text. text;
  count = λ text. 6;
  sha256 = λ text. "m1";
  strptime = λ text pattern. some 5;
  int_of = λ text. none;
  float_of = λ text. some (pos 35);
}

abbrev half_position : Dict (SbsValue ℤ)
half_position =
    ("hex", words "A00001")
    ∷ ("_observed_at", instant 5)
    ∷ ("_raw_message_id", words "m1")
    ∷ ("lat", decimal (pos 35))
    ∷ []

abbrev line : Raw readers
line = text_line "MSG,3,1,1,A00001,1,d,t,,,,,,,35,"

line-parsed : parse_sbs_line readers line ≡ ok half_position
unfolding parse_sbs_line
line-parsed = refl

parse_sbs_line-IsIdentified_example : IsIdentified readers half_position
parse_sbs_line-IsIdentified_example =
    parse_sbs_line-IsIdentified readers line half_position line-parsed

abbrev store : EventStore
store = record {
  retention = 10;
  max_bytes = 100;
  segment_bytes = 60;
  sequence = 2;
  current = 1;
  segments = record { number = 1; size = 40; modified = 0 } ∷ [];
  recovered_events = [];
  event_id_order = [];
  event_ids = [];
}

abbrev store_readers : StoreReaders
store_readers = record {
  encoded_size = λ fields. some 30;
  text_of = λ value. "text";
  is_zero = λ text. false;
}

abbrev event : Fields
event = field "event_id" (str "e1") end

abbrev stored : EventStore
stored = record {
  retention = 10;
  max_bytes = 100;
  segment_bytes = 60;
  sequence = 3;
  current = 2;
  segments =
      record { number = 1; size = 40; modified = 0 }
      ∷ record { number = 2; size = 31; modified = 5 }
      ∷ [];
  recovered_events = [];
  event_id_order = [];
  event_ids = [];
}

append-stored : append store_readers 5 event store ≡ ok stored
unfolding append
append-stored = refl

store-IsStored : IsStored store
store-IsStored = record { small = (omega arith, tt); numbered = (omega arith, tt) }

append-IsStored_example : IsStored stored × Fits 2 100 stored.segments
append-IsStored_example =
    append-IsStored store_readers 5 event store stored store-IsStored append-stored

abbrev remembered : EventStore
remembered = record stored {
  recovered_events = event ∷ [];
  event_id_order = "e1" ∷ [];
  event_ids = "e1" ∷ [];
}

remember-new : remember store_readers 5 event store ≡ ok (remembered, true)
unfolding remember
remember-new = refl

store-IsRemembered : IsRemembered store
store-IsRemembered = record {
  bounded = omega arith;
  recent = omega arith;
  distinct = tt;
  same = λ id. refl;
}

remember-IsRemembered_example :
    IsRemembered remembered
    × true ≡ not (is_known store_readers event store)
    × (is_known store_readers event store ≡ true → remembered ≡ store)
    × (event_id_of store_readers event ≢ "" → is_known store_readers event remembered ≡ true)
remember-IsRemembered_example =
    remember-IsRemembered store_readers 5 event store remembered true store-IsRemembered
      remember-new

abbrev env : Env
env = record {
  floats = micros;
  texts = record {
    uuid5 = λ namespace name. name;
    isoformat = λ t. "time";
    lower = λ s. s;
    decimal = λ n. "2";
  };
  evaluators = record {
    pair = λ previous o. some [];
    window = λ items. some (record { status = EvaluationStatus.pass; failed_rules = [] });
  };
  policy = record {
    schema_version = "1.0";
    policy_version = "test";
    timing = record {
      maximum_reordering = pos 2_000_000;
      maximum_latency = pos 10_000_000;
      gap = pos 30_000_000;
      evidence_ttl = pos 60_000_000;
    };
    window = record {
      minimum_observations = 6;
      maximum_observations = 31;
      maximum_duration = pos 30_000_000;
    };
    runtime = record {
      minimum_observations = 2;
      maximum_tracks = 2;
      maximum_observations_per_track = 2;
      inactive_track = pos 600_000_000;
    };
  };
}

policy-IsValid : Policy.IsValid env.policy
policy-IsValid = omega arith

abbrev outside : Outside env readers store_readers
outside = record { interrupted = λ s o. s; public_dict = λ e. event; fresh_id = "fresh" }

abbrev idle : SidecarRuntime env readers store_readers
idle = record {
  processing = true;
  engine = new_engine;
  store = store;
  receiver_id = "roof";
  queue_maxsize = 1;
  queue = [];
  states = [];
  subscribers = [];
  health = record { connection = "CONNECTED"; detail = ""; last_message_at = none };
  connection_state = 1;
  parsed = 0;
  failures = [];
  evaluated = 0;
  queue_depth = 0;
  dropped = 0;
}

idle-IsRunning : IsRunning env readers store_readers idle
idle-IsRunning = record {
  engine_valid = λ h. new_engine-IsValid env;
  events_remembered = store-IsRemembered;
  events_stored = store-IsStored;
  states_bounded = omega arith;
  queue_bounded = omega arith;
  subscribers_bounded = tt;
}

abbrev happenings : List (Happening env readers store_readers)
happenings = subscribed 1 ∷ line_read line 5 ∷ line_read line 6 ∷ line_processed 7 ∷ []

run-IsRunning_example :
    IsRunning env readers store_readers (run env readers store_readers outside happenings idle)
run-IsRunning_example =
    run-IsRunning env readers store_readers policy-IsValid outside happenings idle idle-IsRunning

abbrev half_state : Dict (SbsValue ℤ)
half_state =
    ("hex", words "A00001")
    ∷ ("lat", decimal (pos 35))
    ∷ ("_observed_at", instant 5)
    ∷ ("_raw_message_id", words "m1")
    ∷ []

half-merged : merged_with env readers store_readers half_position idle ≡ some half_state
unfolding merge_state lookup
half-merged = refl

half-lookups :
    (lookup "lat" half_state ≡ some (decimal (pos 35))) × (lookup "lon" half_state ≡ none)
unfolding lookup
half-lookups = (refl, refl)

half-IsInRange : IsInRange env readers store_readers (
    adapted env readers store_readers outside
      (live_at env readers store_readers 5)
      "roof"
      half_state
      5
      "m1")
unfolding in_range provenance_in_range adapted lookup
half-IsInRange = (refl, refl)

roof-named : idle.receiver_id ≢ ""
roof-named h = absurd (cc)

process_line-incomplete_example :
    (process_line env readers store_readers outside 7
      (live_at env readers store_readers 5)
      line
      idle).1
    ≡ raised (invalid incomplete_position)
unfolding lookup
process_line-incomplete_example =
    process_line-incomplete env readers store_readers outside 7 5 line idle half_position half_state
      (pos 35) line-parsed half-merged roof-named half-IsInRange half-lookups.0 half-lookups.1

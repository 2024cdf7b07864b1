-- ===== src/Sidecar/Runtime.antt =====
-- sidecar/service.py, and backend/app/services/observation_adapters.py: a line of the stream becomes an
-- observation, which the integrity engine takes; its events are stored and published. Each function
-- leaves the runtime as it is when it returns or raises. The dictionaries that are published are a
-- parameter, and so is the engine as an exception leaves it in the middle of an observation: the loop
-- that feeds it ends there.
pub mod States
pub mod Running
pub mod Run
pub mod Incomplete
use ads_b_flight_intelligenc.Base.{
  ℕ, suc, Bool, true, false, not, ◌||◌, ◌&&◌, ◌++◌, Option, none, some, List, [], ◌∷◌, String,
  str_eq, str_lt, length, ltb, leb, ◌==◌, filter, map, is_some, if◌then◌else◌, format,
}
use ads_b_flight_intelligenc.Base.Int.{ℤ, pos, neg, leb_ℤ}
use ads_b_flight_intelligenc.Base.Text.{is_hex, is_octal}
use ads_b_flight_intelligenc.Base.Dict.{Dict, lookup, insert, erase}
use ads_b_flight_intelligenc.Base.Json.{Fields}
use ads_b_flight_intelligenc.Base.Result.{Result, ok, raised, ◌>>=◌, ◌>>◌, raise_if, is_ok}
use ads_b_flight_intelligenc.Observation.{
  TrackObservation, Provenance, SourceType, QualityFlag, ValidationError, is_live_rf, is_replay,
  validate_source_context, require_complete_position, source_text,
}
use ads_b_flight_intelligenc.Engine.Models.{IntegrityEvent, IntegritySnapshot, EventType}
use ads_b_flight_intelligenc.Engine.Env.{Env}
use ads_b_flight_intelligenc.Engine.Cache.{EngineState}
use ads_b_flight_intelligenc.Engine.Ingest.{ingest}
use ads_b_flight_intelligenc.Sidecar.Sbs.{
  SbsValue, SbsReaders, Raw, ParseFailure, absent, words, whole, decimal, instant, merge_state,
  parse_sbs_line, encoding, too_long, too_few_fields, unsupported_type, invalid_aircraft_id,
  invalid_timestamp, invalid_value,
}
use ads_b_flight_intelligenc.Sidecar.Store.{EventStore, StoreReaders, StoreError, remember}

-- What `process_line` may raise.
pub data SidecarError : Type 0 where
  invalid : ValidationError → SidecarError
  field_out_of_range engine_failed missing_key : SidecarError
  not_stored : StoreError → SidecarError

-- `ReceiverHealth`, less the times of the connection
pub record ReceiverHealth : Type 0 where
  pub connection : String
  pub detail : String
  pub last_message_at : Option ℕ

-- `parsed.failure.value`
abbrev pub failure_text : ParseFailure → String
failure_text encoding = "encoding"
failure_text too_long = "too_long"
failure_text too_few_fields = "too_few_fields"
failure_text unsupported_type = "unsupported_type"
failure_text invalid_aircraft_id = "invalid_aircraft_id"
failure_text invalid_timestamp = "invalid_timestamp"
failure_text invalid_value = "invalid_value"

-- `data.get(key)`, of the types that the parser stores
abbrev pub words_of : {N : Type 0} → Option (SbsValue N) → Option String
words_of (some (words s)) = some s
words_of _ = none

abbrev pub whole_of : {N : Type 0} → Option (SbsValue N) → Option ℤ
whole_of (some (whole n)) = some n
whole_of _ = none

abbrev pub decimal_of : {N : Type 0} → Option (SbsValue N) → Option N
decimal_of (some (decimal x)) = some x
decimal_of _ = none

abbrev pub or_empty : Option String → String
or_empty none = ""
or_empty (some s) = s

abbrev pub time_of : {N : Type 0} → Option (SbsValue N) → ℕ
time_of (some (instant t)) = t
time_of _ = 0

-- `counter[key] += 1`
abbrev pub count_one : String → Dict ℕ → Dict ℕ
count_one key counts = insert key (suc (elim (lookup key counts) [ none ↦ 0 | some n ↦ n ])) counts

abbrev pub seen_earlier : ℕ × String → ℕ × String → Bool
seen_earlier a b = ltb a.0 b.0 || (a.0 == b.0 && str_lt a.1 b.1)

-- `min(states, key=lambda item: (states[item]["_observed_at"], item))`
unfoldable pub oldest_from : {N : Type 0} → ℕ × String → Dict (Dict (SbsValue N)) → ℕ × String
unfolding lookup
oldest_from best [] = best
oldest_from best ((hex, state) ∷ states) =
    let time = time_of (lookup "_observed_at" state) in
    oldest_from (if seen_earlier (time, hex) best then (time, hex) else best) states

-- The states with that of one aircraft kept, and the oldest gone where they are too many.
abbrev pub without_oldest : {N : Type 0} → Dict (Dict (SbsValue N)) → Dict (Dict (SbsValue N))
without_oldest [] = []
without_oldest ((hex, state) ∷ states) =
    erase (oldest_from (time_of (lookup "_observed_at" state), hex) states).1
      ((hex, state) ∷ states)

unfoldable pub keep_state :
    {N : Type 0}
    → ℕ
    → String
    → Dict (SbsValue N)
    → Dict (Dict (SbsValue N))
    → Dict (Dict (SbsValue N))
unfolding oldest_from insert erase
keep_state maximum hex merged states =
    let kept = insert hex merged states in
    if ltb maximum (length kept) then without_oldest kept else kept

-- The arguments of `process_line` after the line.
pub record LineContext : Type 0 where
  pub received_at : ℕ
  pub source_type : SourceType
  pub recording_id : Option String

module _ (e : Env) (r : SbsReaders e.floats.Number) (sr : StoreReaders) where
  open e use {floats.{Number, of_int, lt, le}, texts.{uuid5}}

  pub record Outside : Type 0 where
    -- what an exception within `ingest` leaves of the engine
    pub interrupted : EngineState Number → TrackObservation Number → EngineState Number
    -- `event.public_dict()`
    pub public_dict : IntegrityEvent Number → Fields
    -- `uuid4()`
    pub fresh_id : String

  pub data Message : Type 0 where
    event_message : EventType → Fields → Message
    snapshot_message : IntegritySnapshot Number → Message

  pub record Subscriber : Type 0 where
    pub number : ℕ
    pub queued : List Message

  pub record SidecarRuntime : Type 0 where
    -- whether the process loop goes on: it ends where `process_line` raises
    pub processing : Bool
    pub engine : EngineState Number
    pub store : EventStore
    pub receiver_id : String
    pub queue_maxsize : ℕ
    pub queue : List (Raw r × ℕ)
    pub states : Dict (Dict (SbsValue Number))
    pub subscribers : List Subscriber
    pub health : ReceiverHealth
    pub connection_state : ℕ
    pub parsed : ℕ
    pub failures : Dict ℕ
    pub evaluated : ℕ
    pub queue_depth : ℕ
    pub dropped : ℕ

  -- `enqueue`
  unfoldable pub enqueue : Raw r → ℕ → SidecarRuntime → SidecarRuntime × Bool
  enqueue raw received_at s =
      if ltb (length s.queue) s.queue_maxsize
      then (
        let queue = s.queue ++ (raw, received_at) ∷ [] in
            record s { queue = queue; queue_depth = length queue },
        true,
      )
      else (
        record s {
          dropped = suc s.dropped;
          queue_depth = length s.queue;
          health = record s.health {
            connection = "DEGRADED";
            detail = "The bounded processing queue is full; drops are reported.";
          };
        },
        false,
      )

  -- `subscribe`, with the number of the new queue, and `unsubscribe`
  unfoldable pub subscribe : ℕ → SidecarRuntime → SidecarRuntime
  subscribe number s = record s {
    subscribers = s.subscribers ++ record { number = number; queued = [] } ∷ [];
  }

  unfoldable pub unsubscribe : ℕ → SidecarRuntime → SidecarRuntime
  unsubscribe number s = record s {
    subscribers = filter (λ q. not (q.number == number)) s.subscribers;
  }

  -- `publish`: a queue that is full is dropped.
  abbrev pub has_room : Subscriber → Bool
  has_room q = ltb (length q.queued) 128

  abbrev pub put : Message → Subscriber → Subscriber
  put message q = record q { queued = q.queued ++ message ∷ [] }

  unfoldable pub publish : Message → SidecarRuntime → SidecarRuntime
  publish message s = record s { subscribers = map (put message) (filter has_room s.subscribers) }

  -- `sbs_state_to_observation`, before its checks
  abbrev adapted_provenance : LineContext → String → Provenance
  adapted_provenance c receiver_id = record {
    source_type = c.source_type;
    source_id = "local-sbs";
    receiver_id = if is_live_rf c.source_type then some receiver_id else none;
    recording_id = if is_replay c.source_type then c.recording_id else none;
    provider = none;
    license_id = none;
  }

  -- `data.get("lat") is not None and data.get("lon") is not None`
  abbrev position_flags : Option Number → Option Number → List QualityFlag
  position_flags (some a) (some b) = []
  position_flags _ _ = QualityFlag.partial ∷ []

  -- `normalize_callsign`
  abbrev normalize_callsign : Option String → Option String
  normalize_callsign none = none
  normalize_callsign (some text) =
      let normalized = r.upper (r.strip text) in
      if str_eq normalized "" then none else some normalized

  -- `min_length=1, max_length=100`, of a field that may be None
  abbrev is_identifier : Option String → Bool
  is_identifier none = true
  is_identifier (some text) = leb 1 (r.count text) && leb (r.count text) 100

  -- the lengths of the fields of `ObservationProvenance`
  unfoldable pub provenance_in_range : Provenance → Bool
  provenance_in_range p =
      is_identifier (some p.source_id)
      && (is_identifier p.receiver_id
          && (is_identifier p.recording_id
              && (is_identifier p.provider && is_identifier p.license_id)))

  -- `ge=low, le=high`, of a field that may be None
  abbrev is_between : Number → Number → Option Number → Bool
  is_between low high none = true
  is_between low high (some x) = le low x && le x high

  abbrev is_whole_between : ℤ → ℤ → Option ℤ → Bool
  is_whole_between low high none = true
  is_whole_between low high (some n) = leb_ℤ low n && leb_ℤ n high

  -- `ge=0, lt=360`
  abbrev is_track : Option Number → Bool
  is_track none = true
  is_track (some x) = le (of_int (pos 0)) x && lt x (of_int (pos 360))

  -- `max_length=n`
  abbrev is_short : ℕ → Option String → Bool
  is_short n none = true
  is_short n (some text) = leb (r.count text) n

  -- `pattern=r"^[0-7]{4}$"`
  abbrev is_squawk : Option String → Bool
  is_squawk none = true
  is_squawk (some text) = is_octal text && r.count text == 4

  -- the patterns, lengths and ranges of the fields of `TrackObservation`
  unfoldable pub in_range : TrackObservation Number → Bool
  unfolding is_hex is_octal
  in_range o =
      (is_hex o.icao_hex && r.count o.icao_hex == 6)
      && (is_short 8 o.callsign
          && (is_between (of_int (neg (pos 90))) (of_int (pos 90)) o.latitude
              && (is_between (of_int (neg (pos 180))) (of_int (pos 180)) o.longitude
                  && (is_whole_between (neg (pos 2_000)) (pos 100_000) o.altitude_ft
                      && (is_between (of_int (pos 0)) (of_int (pos 2_000)) o.ground_speed_knots
                          && (is_track o.track_degrees
                              && (is_whole_between (neg (pos 20_000)) (pos 20_000)
                                    o.vertical_rate_fpm
                                  && (is_squawk o.squawk && is_short 200 o.raw_message_id))))))))

  unfoldable pub adapted :
      Outside → LineContext → String → Dict (SbsValue Number) → ℕ → String → TrackObservation Number
  unfolding lookup source_text format
  adapted w c receiver_id state observed_at message_id = record {
    observation_id =
        if str_eq message_id ""
        then w.fresh_id
        else uuid5 "6ba7b811-9dad-11d1-80b4-00c04fd430c8" (
            format
              ("adsb:" ∷ source_text c.source_type ∷ ":" ∷ "local-sbs" ∷ ":" ∷ message_id ∷ []));
    provenance = adapted_provenance c receiver_id;
    icao_hex = r.upper (r.strip (or_empty (words_of (lookup "hex" state))));
    observed_at = observed_at;
    received_at = c.received_at;
    callsign = normalize_callsign (words_of (lookup "flight" state));
    latitude = decimal_of (lookup "lat" state);
    longitude = decimal_of (lookup "lon" state);
    altitude_ft = whole_of (lookup "altitude" state);
    ground_speed_knots = decimal_of (lookup "gs" state);
    track_degrees = decimal_of (lookup "track" state);
    vertical_rate_fpm = whole_of (lookup "vert_rate" state);
    squawk = words_of (lookup "squawk" state);
    quality_flags =
        position_flags (decimal_of (lookup "lat" state)) (decimal_of (lookup "lon" state));
    raw_message_id = some message_id;
  }

  abbrev pub as_invalid : {A : Type 0} → Result ValidationError A → Result SidecarError A
  as_invalid (ok a) = ok a
  as_invalid (raised error) = raised (invalid error)

  -- `sbs_state_to_observation`
  unfoldable pub sbs_state_to_observation :
      Outside
      → LineContext
      → String
      → Dict (SbsValue Number)
      → ℕ
      → String
      → Result SidecarError (TrackObservation Number)
  unfolding adapted in_range provenance_in_range validate_source_context require_complete_position
  sbs_state_to_observation w c receiver_id state observed_at message_id =
      let o = adapted w c receiver_id state observed_at message_id in
      raise_if (not (provenance_in_range o.provenance)) field_out_of_range
      >> (as_invalid (validate_source_context o.provenance) >>= λ p.
          raise_if (not (in_range o)) field_out_of_range
          >> as_invalid (require_complete_position o))

  -- The runtime, with what the call returned or raised.
  abbrev pub Outcome : Type 0
  Outcome = SidecarRuntime × Result SidecarError Bool

  -- The loop over the events.
  abbrev pub publish_stored :
      EventType
      → Fields
      → Result StoreError (EventStore × Bool)
      → SidecarRuntime
      → SidecarRuntime × Result SidecarError Bool
  publish_stored type fields (raised error) s = (s, raised (not_stored error))
  publish_stored type fields (ok (store, new)) s =
      (publish (event_message type fields) (record s { store = store }), ok true)

  abbrev pub continue_with : (SidecarRuntime → Outcome) → Outcome → Outcome
  continue_with next (s, ok b) = next s
  continue_with next (s, raised error) = (s, raised error)

  unfoldable pub store_events :
      Outside → ℕ → List (IntegrityEvent Number) → SidecarRuntime → Outcome
  unfolding publish remember
  store_events w now [] s = (s, ok true)
  store_events w now (event ∷ events) s =
      let fields = w.public_dict event in
      continue_with (store_events w now events)
        (publish_stored event.event_type fields (remember sr now fields s.store) s)

  -- The health after an observation.
  abbrev pub heard : ℕ → SidecarRuntime → ReceiverHealth
  heard received_at s =
      if s.connection_state == 0
      then record s.health { last_message_at = some received_at }
      else record {
        connection = "CONNECTED";
        detail = "SBS source connected and telemetry is being evaluated.";
        last_message_at = some received_at;
      }

  abbrev pub finish_line : IntegritySnapshot Number → Outcome → Outcome
  finish_line snapshot (s, ok b) = (publish (snapshot_message snapshot) s, ok true)
  finish_line snapshot (s, raised error) = (s, raised error)

  -- The evaluation of an observation.
  abbrev pub evaluate :
      Outside
      → ℕ
      → ℕ
      → TrackObservation Number
      → Option (EngineState Number × IntegritySnapshot Number × List (IntegrityEvent Number))
      → SidecarRuntime
      → Outcome
  evaluate w now received_at o none s =
      (record s { processing = false; engine = w.interrupted s.engine o }, raised engine_failed)
  evaluate w now received_at o (some (engine, snapshot, events)) s = finish_line snapshot (
      store_events w now events
        (record s { engine = engine; evaluated = suc s.evaluated; health = heard received_at s }))

  abbrev pub evaluate_observation :
      Outside
      → ℕ
      → LineContext
      → Result SidecarError (TrackObservation Number)
      → SidecarRuntime
      → Outcome
  evaluate_observation w now c (raised error) s = (s, raised error)
  evaluate_observation w now c (ok o) s = evaluate w now c.received_at o (ingest e s.engine o) s

  -- The runtime with the state of the aircraft that a line names.
  abbrev pub hex_of : Dict (SbsValue Number) → String
  hex_of update = or_empty (words_of (lookup "hex" update))

  -- `none` for the KeyError of an update that lacks a key
  abbrev pub merged_with : Dict (SbsValue Number) → SidecarRuntime → Option (Dict (SbsValue Number))
  merged_with update s =
      if is_some (lookup "hex" update)
      then merge_state (lookup (hex_of update) s.states) update
      else none

  abbrev pub stated :
      Dict (SbsValue Number) → Dict (SbsValue Number) → SidecarRuntime → SidecarRuntime
  stated update merged s = record s {
    parsed = suc s.parsed;
    states = keep_state e.policy.runtime.maximum_tracks (hex_of update) merged s.states;
  }

  abbrev pub process_update :
      Outside
      → ℕ
      → LineContext
      → Dict (SbsValue Number)
      → Option (Dict (SbsValue Number))
      → SidecarRuntime
      → Outcome
  process_update w now c update none s = (record s { parsed = suc s.parsed }, raised missing_key)
  process_update w now c update (some merged) s =
      evaluate_observation w now c
        (sbs_state_to_observation w c s.receiver_id merged (time_of (lookup "_observed_at" update))
          (or_empty (words_of (lookup "_raw_message_id" update))))
        (stated update merged s)

  abbrev pub process_parsed :
      Outside
      → ℕ
      → LineContext
      → Result ParseFailure (Dict (SbsValue Number))
      → SidecarRuntime
      → Outcome
  process_parsed w now c (raised failure) s =
      (record s { failures = count_one (failure_text failure) s.failures }, ok false)
  process_parsed w now c (ok update) s = process_update w now c update (merged_with update s) s

  -- `process_line`, with the clock at which the store writes
  unfoldable pub process_line : Outside → ℕ → LineContext → Raw r → SidecarRuntime → Outcome
  unfolding parse_sbs_line merge_state keep_state sbs_state_to_observation ingest store_events
      publish lookup insert
  process_line w now c raw s = process_parsed w now c (parse_sbs_line r raw) s

  -- One pass of `_process_loop`: the oldest line of the queue, if there is one. The loop ends where the
  -- processing raises. The histogram of its latency is left out.
  abbrev counted : Outcome → SidecarRuntime
  counted (s, result) = record s {
    processing = s.processing && is_ok result;
    queue_depth = length s.queue;
  }

  abbrev process_taken : Outside → ℕ → List (Raw r × ℕ) → SidecarRuntime → SidecarRuntime
  process_taken w now [] s = s
  process_taken w now ((raw, received_at) ∷ queue) s = counted (
      process_line w now
        (record {
          received_at = received_at;
          source_type = SourceType.live_rf;
          recording_id = none;
        })
        raw (record s { queue = queue }))

  unfoldable pub process_next : Outside → ℕ → SidecarRuntime → SidecarRuntime
  unfolding process_line
  process_next w now s = if s.processing then process_taken w now s.queue s else s

  -- What happens to a runtime, in any order.
  pub data Happening : Type 0 where
    line_read : Raw r → ℕ → Happening
    line_processed : ℕ → Happening
    subscribed unsubscribed : ℕ → Happening

  unfoldable pub happen : Outside → Happening → SidecarRuntime → SidecarRuntime
  unfolding enqueue process_next subscribe unsubscribe
  happen w (line_read raw t) s = (enqueue raw t s).0
  happen w (line_processed now) s = process_next w now s
  happen w (subscribed number) s = subscribe number s
  happen w (unsubscribed number) s = unsubscribe number s

  unfoldable pub run : Outside → List Happening → SidecarRuntime → SidecarRuntime
  unfolding happen
  run w [] s = s
  run w (h ∷ hs) s = run w hs (happen w h s)

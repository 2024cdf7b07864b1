-- ===== src/Sidecar/Runtime/Running.antt =====
-- What the processing of a line by sidecar/service.py keeps, whether it returns or raises.
use mathlib.Core.Path.{subst}
use ads_b_flight_intelligenc.Base.{
  Option, none, some, ℕ, suc, ◌≤◌, ◌≡◌, refl, inl, inr, Bool, true, List, [], ◌∷◌, str_eq, arith,
  length, length-append, All, filter, map, Bool-cases,
}
use ads_b_flight_intelligenc.Base.Dict.{Dict, lookup}
use ads_b_flight_intelligenc.Base.Json.{Fields}
use ads_b_flight_intelligenc.Base.Result.{Result, ok, raised, Result-cases}
use ads_b_flight_intelligenc.Observation.{TrackObservation}
use ads_b_flight_intelligenc.Engine.Policy
use ads_b_flight_intelligenc.Engine.Env.{Env}
use ads_b_flight_intelligenc.Engine.Models.{IntegrityEvent, IntegritySnapshot}
use ads_b_flight_intelligenc.Engine.Cache.{EngineState}
use ads_b_flight_intelligenc.Engine.Ingest.{ingest}
use ads_b_flight_intelligenc.Engine.Ingest.Invariant.{IsValid, ingest-IsValid}
use ads_b_flight_intelligenc.Sidecar.Sbs.{SbsValue, SbsReaders, Raw, ParseFailure, parse_sbs_line}
use ads_b_flight_intelligenc.Sidecar.Store.{
  EventStore, StoreReaders, StoreError, append, remember, is_known, note_event, event_id_of,
}
use ads_b_flight_intelligenc.Sidecar.Store.Bounds.{IsStored, append-IsStored}
use ads_b_flight_intelligenc.Sidecar.Store.Memory.{IsRemembered, remember-IsRemembered}
use ads_b_flight_intelligenc.Sidecar.Runtime.{
  SidecarRuntime, SidecarError, Outside, Outcome, Message, Subscriber, LineContext, has_room, put,
  publish, store_events, publish_stored, continue_with, finish_line, evaluate, evaluate_observation,
  process_parsed, process_update, process_line, stated, hex_of, merged_with, time_of, heard,
  sbs_state_to_observation, or_empty, words_of, event_message, snapshot_message,
}
use ads_b_flight_intelligenc.Sidecar.Runtime.States.{keep_state-bounded}

note_event-IsStored :
    (r : StoreReaders) (fields : Fields) (s : EventStore)
    → IsStored s
    → IsStored (note_event r fields s)
note_event-IsStored r fields s v = elim (Bool-cases (str_eq (event_id_of r fields) "")) [
  | inl h ↦ rw h (record { small = v.small; numbered = v.numbered })
  | inr h ↦ rw h (record { small = v.small; numbered = v.numbered })
]

remember-IsStored :
    (r : StoreReaders) (now : ℕ) (fields : Fields) (s s' : EventStore) (new : Bool)
    → IsStored s
    → remember r now fields s ≡ ok (s', new)
    → IsStored s'
unfolding remember
remember-IsStored r now fields s s' new v h = elim (Bool-cases (is_known r fields s)) [
  | inl k ↦ let same : s ≡ s' = ground arith in subst IsStored same v
  | inr k ↦ elim (Result-cases (append r now fields s)) [
    | inr (e, a) ↦ absurd (ground arith)
    | inl (s1, a) ↦
        let whole : note_event r fields s1 ≡ s' = ground arith in
        let w = (append-IsStored r now fields s s1 v a).0 in
        subst IsStored whole (note_event-IsStored r fields s1 w)
  ]
]

module _ (e : Env) (r : SbsReaders e.floats.Number) (sr : StoreReaders) where
  -- While the process loop goes on, the engine is valid; the store, the queue, the states and the
  -- subscribers are within their bounds.
  pub record IsRunning (s : SidecarRuntime e r sr) : Type 0 where
    pub engine_valid : s.processing ≡ true → IsValid e s.engine
    pub events_remembered : IsRemembered s.store
    pub events_stored : IsStored s.store
    pub states_bounded : length s.states ≤ e.policy.runtime.maximum_tracks
    pub queue_bounded : length s.queue ≤ s.queue_maxsize
    pub subscribers_bounded : All (λ q. length q.queued ≤ 128) s.subscribers

  put-bounded :
      (message : Message e r sr) (qs : List (Subscriber e r sr))
      → All (λ q. length q.queued ≤ 128) (map (put e r sr message) (filter (has_room e r sr) qs))
  put-bounded message [] = tt
  put-bounded message (q ∷ qs) = elim (Bool-cases (has_room e r sr q)) [
    | inl h ↦ rw h (ground (arith, length-append q.queued (message ∷ [])), put-bounded message qs)
    | inr h ↦ rw h (put-bounded message qs)
  ]

  publish-IsRunning :
      (message : Message e r sr) (s : SidecarRuntime e r sr)
      → IsRunning s
      → IsRunning (publish e r sr message s)
  unfolding publish
  publish-IsRunning message s v = record {
    engine_valid = v.engine_valid;
    events_remembered = v.events_remembered;
    events_stored = v.events_stored;
    states_bounded = v.states_bounded;
    queue_bounded = v.queue_bounded;
    subscribers_bounded = put-bounded message s.subscribers;
  }

  continue-Runs :
      (next : SidecarRuntime e r sr → Outcome e r sr) (event : IntegrityEvent e.floats.Number)
      (fields : Fields) (result : Result StoreError (EventStore × Bool)) (s : SidecarRuntime e r sr)
      → ((s' : SidecarRuntime e r sr) → IsRunning s' → IsRunning (next s').0)
      → ((store : EventStore) (new : Bool)
          → result ≡ ok (store, new)
          → IsRemembered store × IsStored store)
      → IsRunning s
      → IsRunning
          (continue_with e r sr next (publish_stored e r sr event.event_type fields result s)).0
  continue-Runs next event fields (raised error) s runs kept v = v
  continue-Runs next event fields (ok (store, new)) s runs kept v =
      let (remembered, stored) = kept store new refl in
      runs (publish e r sr (event_message event.event_type fields) (record s { store = store })) (
        publish-IsRunning (event_message event.event_type fields) (record s { store = store })
          (record {
            engine_valid = v.engine_valid;
            events_remembered = remembered;
            events_stored = stored;
            states_bounded = v.states_bounded;
            queue_bounded = v.queue_bounded;
            subscribers_bounded = v.subscribers_bounded;
          }))

  store_events-Runs :
      (w : Outside e r sr) (now : ℕ) (events : List (IntegrityEvent e.floats.Number))
      (s : SidecarRuntime e r sr)
      → IsRunning s
      → IsRunning (store_events e r sr w now events s).0
  unfolding store_events
  store_events-Runs w now [] s v = v
  store_events-Runs w now (event ∷ events) s v =
      let fields = w.public_dict event in
      continue-Runs (store_events e r sr w now events) event fields (remember sr now fields s.store)
        s (λ s' v'. store_events-Runs w now events s' v')
        (λ store new h. (
          (remember-IsRemembered sr now fields s.store store new v.events_remembered h).0,
          remember-IsStored sr now fields s.store store new v.events_stored h,
        ))
        v

  finish_line-Runs :
      (snapshot : IntegritySnapshot e.floats.Number) (outcome : Outcome e r sr)
      → IsRunning outcome.0
      → IsRunning (finish_line e r sr snapshot outcome).0
  finish_line-Runs snapshot (s, ok b) v = publish-IsRunning (snapshot_message snapshot) s v
  finish_line-Runs snapshot (s, raised error) v = v

  stated-IsRunning :
      (update merged : Dict (SbsValue e.floats.Number)) (s : SidecarRuntime e r sr)
      → IsRunning s
      → IsRunning (stated e r sr update merged s)
  stated-IsRunning update merged s v = record {
    engine_valid = v.engine_valid;
    events_remembered = v.events_remembered;
    events_stored = v.events_stored;
    states_bounded =
        keep_state-bounded e.policy.runtime.maximum_tracks (hex_of e r sr update) merged s.states
          v.states_bounded;
    queue_bounded = v.queue_bounded;
    subscribers_bounded = v.subscribers_bounded;
  }

  module _ (valid : Policy.IsValid e.policy) where
    evaluate-Runs :
        (w : Outside e r sr) (now : ℕ) (received_at : ℕ) (o : TrackObservation e.floats.Number)
        (s : SidecarRuntime e r sr)
        (result : Option (
          EngineState e.floats.Number
          × IntegritySnapshot e.floats.Number
          × List (IntegrityEvent e.floats.Number)))
        → ingest e s.engine o ≡ result
        → s.processing ≡ true
        → IsRunning s
        → IsRunning (evaluate e r sr w now received_at o result s).0
    evaluate-Runs w now received_at o s none taken goes v = record {
      engine_valid = λ h. absurd (cc);
      events_remembered = v.events_remembered;
      events_stored = v.events_stored;
      states_bounded = v.states_bounded;
      queue_bounded = v.queue_bounded;
      subscribers_bounded = v.subscribers_bounded;
    }
    evaluate-Runs w now received_at o s (some (engine, snapshot, events)) taken goes v =
        let s' : SidecarRuntime e r sr = record s {
          engine = engine;
          evaluated = suc s.evaluated;
          health = heard e r sr received_at s;
        } in
        let v' : IsRunning s' = record {
          engine_valid = λ h.
              ingest-IsValid e valid o s.engine engine snapshot events (v.engine_valid goes) taken;
          events_remembered = v.events_remembered;
          events_stored = v.events_stored;
          states_bounded = v.states_bounded;
          queue_bounded = v.queue_bounded;
          subscribers_bounded = v.subscribers_bounded;
        } in
        finish_line-Runs snapshot (store_events e r sr w now events s')
          (store_events-Runs w now events s' v')

    evaluate_observation-Runs :
        (w : Outside e r sr) (now : ℕ) (c : LineContext)
        (o : Result SidecarError (TrackObservation e.floats.Number)) (s : SidecarRuntime e r sr)
        → s.processing ≡ true
        → IsRunning s
        → IsRunning (evaluate_observation e r sr w now c o s).0
    evaluate_observation-Runs w now c (ok o) s goes v =
        evaluate-Runs w now c.received_at o s (ingest e s.engine o) refl goes v
    evaluate_observation-Runs w now c (raised error) s goes v = v

    process_update-Runs :
        (w : Outside e r sr) (now : ℕ) (c : LineContext) (update : Dict (SbsValue e.floats.Number))
        (merged : Option (Dict (SbsValue e.floats.Number))) (s : SidecarRuntime e r sr)
        → s.processing ≡ true
        → IsRunning s
        → IsRunning (process_update e r sr w now c update merged s).0
    process_update-Runs w now c update none s goes v = record {
      engine_valid = v.engine_valid;
      events_remembered = v.events_remembered;
      events_stored = v.events_stored;
      states_bounded = v.states_bounded;
      queue_bounded = v.queue_bounded;
      subscribers_bounded = v.subscribers_bounded;
    }
    process_update-Runs w now c update (some merged) s goes v =
        let t = time_of (lookup "_observed_at" update) in
        let message_id = or_empty (words_of (lookup "_raw_message_id" update)) in
        evaluate_observation-Runs w now c
          (sbs_state_to_observation e r sr w c s.receiver_id merged t message_id)
          (stated e r sr update merged s) goes (stated-IsRunning update merged s v)

    process_parsed-Runs :
        (w : Outside e r sr) (now : ℕ) (c : LineContext)
        (parsed : Result ParseFailure (Dict (SbsValue e.floats.Number))) (s : SidecarRuntime e r sr)
        → s.processing ≡ true
        → IsRunning s
        → IsRunning (process_parsed e r sr w now c parsed s).0
    process_parsed-Runs w now c (raised failure) s goes v = record {
      engine_valid = v.engine_valid;
      events_remembered = v.events_remembered;
      events_stored = v.events_stored;
      states_bounded = v.states_bounded;
      queue_bounded = v.queue_bounded;
      subscribers_bounded = v.subscribers_bounded;
    }
    process_parsed-Runs w now c (ok update) s goes v =
        process_update-Runs w now c update (merged_with e r sr update s) s goes v

    -- While the process loop goes on, processing a line keeps every bound of the runtime, whether it
    -- returns or raises; where the engine raises, the loop ends.
    pub process_line-Runs :
        (w : Outside e r sr) (now : ℕ) (c : LineContext) (raw : Raw r) (s : SidecarRuntime e r sr)
        → s.processing ≡ true
        → IsRunning s
        → IsRunning (process_line e r sr w now c raw s).0
    unfolding process_line
    process_line-Runs w now c raw s goes v =
        process_parsed-Runs w now c (parse_sbs_line r raw) s goes v

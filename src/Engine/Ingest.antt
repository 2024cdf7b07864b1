-- ===== src/Engine/Ingest.antt =====
-- `track_id`, `_build_snapshot`, `ingest`, `snapshot` and `snapshots` of
-- backend/integrity_core/engine.py. `none` stands for the exception that Python raises.
pub mod Tracks
pub mod Observe
pub mod Invariant
pub mod Snapshots
pub mod Runs
use ads_b_flight_intelligenc.Base.{
  when, ℕ, ◌≤◌, Bool, true, false, not, ◌&&◌, ◌||◌, ◌++◌, Option, none, some, List, [], ◌∷◌, map,
  String, format, str_eq, str_lt, ltb, ◌==◌, length, get_last?, sort_by, is_some, if◌then◌else◌,
}
use ads_b_flight_intelligenc.Base.Int.{pos, sub_ℕ, ◌+ℤ◌, ◌-ℤ◌}
use ads_b_flight_intelligenc.Base.Moment.{is_moment}
use ads_b_flight_intelligenc.Base.Dict.{Dict, lookup, insert}
use ads_b_flight_intelligenc.Observation.{TrackObservation, source_text}
use ads_b_flight_intelligenc.Engine.Models.{
  TrackState, kind_text, IntegrityEvidence, IntegritySnapshot, IntegrityEvent,
}
use ads_b_flight_intelligenc.Engine.Env.{Env}
use ads_b_flight_intelligenc.Engine.Track.{Track, append_bounded, fresh_track, note_message}
use ads_b_flight_intelligenc.Engine.Evidence.{expire, open_or_update_all}
use ads_b_flight_intelligenc.Engine.Candidates.{candidates, evaluation_raises}
use ads_b_flight_intelligenc.Engine.Cache.{EngineState, ◌>>=◌, purge_inactive, evict_if_needed}

abbrev pub track_namespace : String
track_namespace = "cd8b2f27-f6aa-4c0f-9a86-ad751f134def"

abbrev pub is_empty {ℓ} : {A : Type ℓ} → List A → Bool
is_empty [] = true
is_empty (x ∷ xs) = false

-- the values of a dictionary
abbrev pub values {ℓ} : {V : Type ℓ} → Dict V → List V
values = map (λ item. item.1)

-- `(kind.value, evidence_id) < (kind.value, evidence_id)`
abbrev pub evidence_before : {N : Type 0} → IntegrityEvidence N → IntegrityEvidence N → Bool
evidence_before a b =
    str_lt (kind_text a.kind) (kind_text b.kind)
    || (str_eq (kind_text a.kind) (kind_text b.kind) && str_lt a.evidence_id b.evidence_id)

-- `sorted(…, key=…, reverse=True)` keeps equal entries in order: it sorts by the reverse test.
abbrev pub snapshot_after : {N : Type 0} → IntegritySnapshot N → IntegritySnapshot N → Bool
snapshot_after a b =
    ltb b.observed_at a.observed_at
    || (a.observed_at == b.observed_at && str_lt b.track_id a.track_id)

module _ {N : Type 0} where
  -- `snapshots`
  unfoldable pub all_snapshots : EngineState N → List (IntegritySnapshot N)
  all_snapshots s = sort_by snapshot_after (values s.snapshots)

  -- `snapshot`
  unfoldable pub snapshot_of : EngineState N → String → Option (IntegritySnapshot N)
  unfolding lookup
  snapshot_of s track_id = lookup track_id s.snapshots

module _ (e : Env) where
  open e use {floats.{Number, of_int, of_micros, lt, round3}, texts.{uuid5, decimal}, policy}

  unfoldable pub track_id_of : TrackObservation Number → String
  unfolding source_text format
  track_id_of o = uuid5 track_namespace (
      format (
        source_text o.provenance.source_type
        ∷ ":"
        ∷ o.provenance.source_id
        ∷ ":"
        ∷ o.icao_hex
        ∷ []))

  unfoldable pub limitations_of :
      List (TrackObservation Number) → TrackObservation Number → List String
  unfolding format
  limitations_of observations current =
      when (ltb (length observations) policy.runtime.minimum_observations) (
        format (
          "At least "
          ∷ decimal policy.runtime.minimum_observations
          ∷ " observations are required."
          ∷ []))
      ++ (when (not (is_some current.latitude)) "The latest observation has no complete position."
          ++ when (ltb (length observations) policy.window.minimum_observations)
              "The trajectory window is not yet long enough for gradual-drift evaluation.")

  unfoldable pub state_of : Track Number → TrackState
  state_of t =
      if ltb (length t.observations) policy.runtime.minimum_observations
      then TrackState.insufficient_data
      else if is_empty t.active
      then TrackState.nominal
      else TrackState.questionable

  -- `max(x, 0.0)`
  abbrev pub at_least_zero : Number → Number
  at_least_zero x = if lt x (of_int (pos 0)) then of_int (pos 0) else x

  -- the snapshot, from the first and the last observation
  unfoldable pub snapshot_from :
      String
      → Track Number
      → TrackObservation Number
      → TrackObservation Number
      → IntegritySnapshot Number
  unfolding state_of limitations_of kind_text
  snapshot_from track_id t first current = record {
    track_id = track_id;
    observed_at = current.observed_at;
    state = state_of t;
    observation_count = length t.observations;
    window_seconds =
        round3 (at_least_zero (of_micros (sub_ℕ current.observed_at first.observed_at)));
    policy_version = policy.policy_version;
    active_evidence = sort_by evidence_before (values t.active);
    limitations = limitations_of t.observations current;
  }

  abbrev snapshot_at :
      String → Track Number → List (TrackObservation Number) → Option (IntegritySnapshot Number)
  snapshot_at track_id t [] = none
  snapshot_at track_id t (first ∷ rest) = do
    current ← get_last? (first ∷ rest)
    some (snapshot_from track_id t first current)

  -- `_build_snapshot`
  unfoldable pub build_snapshot : String → Track Number → Option (IntegritySnapshot Number)
  unfolding snapshot_from
  build_snapshot track_id t = snapshot_at track_id t t.observations

  -- What `ingest` does to the track of the observation, and what it publishes, where it does not raise.
  unfoldable pub observe :
      String → Track Number → TrackObservation Number → Track Number × List (IntegrityEvent Number)
  unfolding expire append_bounded note_message candidates open_or_update_all
  observe track_id t o =
      let maxlen = policy.runtime.maximum_observations_per_track in
      let (t1, closed) = expire e track_id t o.observed_at in
      let observations = append_bounded maxlen o t1.observations in
      let t2 = record (note_message maxlen o.raw_message_id t1) { observations = observations } in
      let (t3, events) = open_or_update_all e track_id t2 o (candidates e t1 observations o) in
      (t3, closed ++ events)

  -- Whether the evaluation of the observation raises: an evaluator does, the start of the window is no
  -- instant, or the end of the evidence that is found is none.
  unfoldable pub observe_raises : String → Track Number → TrackObservation Number → Bool
  unfolding expire append_bounded candidates evaluation_raises
  observe_raises track_id t o =
      let (t1, closed) = expire e track_id t o.observed_at in
      let observations =
        append_bounded policy.runtime.maximum_observations_per_track o t1.observations in
      evaluation_raises e t1.observations observations o
      || (not (is_moment (pos o.observed_at -ℤ policy.window.maximum_duration))
          || (not (is_empty (candidates e t1 observations o))
              && not (is_moment (pos o.observed_at +ℤ policy.timing.evidence_ttl))))

  abbrev pub observed :
      String
      → Track Number
      → TrackObservation Number
      → Option (Track Number × List (IntegrityEvent Number))
  observed track_id t o = if observe_raises track_id t o then none else some (observe track_id t o)

  -- `setdefault`
  abbrev pub track_or_fresh : Option (Track Number) → Track Number
  track_or_fresh none = fresh_track
  track_or_fresh (some t) = t

  unfoldable pub ingest :
      EngineState Number
      → TrackObservation Number
      → Option (EngineState Number × IntegritySnapshot Number × List (IntegrityEvent Number))
  unfolding track_id_of purge_inactive evict_if_needed observe observe_raises build_snapshot insert
      lookup fresh_track
  ingest s o = do
    let track_id = track_id_of o
    s1 ← purge_inactive policy.runtime.inactive_track o.observed_at s
    s2 ← evict_if_needed policy.runtime.maximum_tracks track_id s1
    (t, events) ← observed track_id (track_or_fresh (lookup track_id s2.tracks)) o
    snapshot ← build_snapshot track_id t
    some (
      record {
        tracks = insert track_id t s2.tracks;
        snapshots = insert track_id snapshot s2.snapshots;
      },
      snapshot,
      events,
    )

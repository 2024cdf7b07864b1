-- ===== src/Engine/Ingest/Invariant.antt =====
-- The invariant of the engine: at most the permitted number of tracks, a snapshot for each, and
-- every track within its bounds. Every observation keeps it, and raises only where an evaluator does
-- or where an instant leaves the range of `datetime`.
use mathlib.Core.Path.{subst}
use ads_b_flight_intelligenc.Base.{
  ap, ℕ, ◌≤◌, ◌<◌, ◌≡◌, ◌≢◌, refl, ◌∙◌, sym, inl, inr, ◌⊎◌, Bool, true, false, Option, none, some,
  List, [], ◌∷◌, length, String, eq_iff, arith, get_last?, is_some, Option-cases, Bool-cases,
}
use ads_b_flight_intelligenc.Base.Int.{pos, ◌+ℤ◌, ◌-ℤ◌, ◌<ℤ◌}
use ads_b_flight_intelligenc.Base.Moment.{IsMoment, is_moment, is_moment_iff}
use ads_b_flight_intelligenc.Base.Dict.{
  Dict, lookup, insert, lookup-insert, length-insert_known, length-insert-le, DistinctKeys, Values,
  insert-DistinctKeys, insert-Values, lookup-Values, Values_of_lookup, without, key_where-lookup,
}
use ads_b_flight_intelligenc.Observation.{TrackObservation}
use ads_b_flight_intelligenc.Engine.Models.{IntegritySnapshot, IntegrityEvent}
use ads_b_flight_intelligenc.Engine.Policy
use ads_b_flight_intelligenc.Engine.Env.{Env}
use ads_b_flight_intelligenc.Engine.Track.{Track, append_bounded, fresh_track}
use ads_b_flight_intelligenc.Engine.Evidence.{expire}
use ads_b_flight_intelligenc.Engine.Candidates.{evaluation_raises}
use ads_b_flight_intelligenc.Engine.Cache.{EngineState, last_seen, purge_inactive, evict_if_needed}
use ads_b_flight_intelligenc.Engine.Cache.Purge.{IsSeen, is_stale, purge_inactive_lem}
use ads_b_flight_intelligenc.Engine.Cache.Eviction.{IsInStep, evict_if_needed_lem}
use ads_b_flight_intelligenc.Engine.Ingest.{
  track_id_of, snapshot_at, build_snapshot, snapshot_from, observe, observe_raises, track_or_fresh,
  ingest,
}
use ads_b_flight_intelligenc.Engine.Ingest.Observe.{IsTrack, fresh_track-IsTrack, observe-Observed}

-- A track that the engine holds: within its bounds, and with an observation.
pub record IsHeld {N : Type 0} (maxlen : ℕ) (t : Track N) : Type 0 where
  pub within : IsTrack maxlen t
  pub seen : is_some (get_last? t.observations) ≡ true

pub record IsValid (e : Env) (s : EngineState e.floats.Number) : Type 0 where
  pub bounded : length s.tracks ≤ e.policy.runtime.maximum_tracks
  pub distinct : DistinctKeys s.tracks
  pub in_step : IsInStep s
  pub held : Values (IsHeld e.policy.runtime.maximum_observations_per_track) s.tracks

IsHeld-IsSeen : {N : Type 0} (maxlen : ℕ) (t : Track N) → IsHeld maxlen t → IsSeen t
IsHeld-IsSeen maxlen t h = elim (Option-cases (get_last? t.observations)) [
  | inl nothing ↦ absurd (cc (h.seen))
  | inr (o, found) ↦ (o.observed_at, rw (found, last_seen) refl, omega arith)
]

all-IsSeen :
    {N : Type 0} (maxlen : ℕ) (d : Dict (Track N)) → Values (IsHeld maxlen) d → Values IsSeen d
all-IsSeen maxlen [] h = tt
all-IsSeen maxlen ((k, t) ∷ d) h = (IsHeld-IsSeen maxlen t h.0, all-IsSeen maxlen d h.1)

snapshot_at-some :
    (e : Env) (track_id : String) (t : Track e.floats.Number)
    (os : List (TrackObservation e.floats.Number)) (o : TrackObservation e.floats.Number)
    → get_last? os ≡ some o
    → (first : TrackObservation e.floats.Number) × (snapshot_at e track_id t os
        ≡ some (snapshot_from e track_id t first o))
snapshot_at-some e track_id t [] o h = absurd (cc)
snapshot_at-some e track_id t (first ∷ rest) o h = (first, cc)

-- A snapshot can be built of a track with an observation.
build_snapshot-some :
    (e : Env) (track_id : String) (t : Track e.floats.Number) (o : TrackObservation e.floats.Number)
    → get_last? t.observations ≡ some o
    → (first : TrackObservation e.floats.Number) × (build_snapshot e track_id t
        ≡ some (snapshot_from e track_id t first o))
unfolding build_snapshot
build_snapshot-some e track_id t o h = snapshot_at-some e track_id t t.observations o h

some_injective : {A : Type 0} {x y : A} → ◌≡◌ {A = Option A} (some x) (some y) → x ≡ y
some_injective h = cc

without-eq-some :
    {V : Type 0} (p : V → Bool) (x : Option V) (v : V) → without p x ≡ some v → x ≡ some v
without-eq-some p none v h = absurd (cc)
without-eq-some p (some w) v h = ground arith

-- The state in which the track of the observation is looked up.
record Ready (e : Env) (track_id : String) (before s : EngineState e.floats.Number) : Type 0 where
  room :
      (is_some (lookup track_id s.tracks) ≡ true)
        × (length s.tracks ≤ e.policy.runtime.maximum_tracks)
      ⊎ (length s.tracks < e.policy.runtime.maximum_tracks)
  distinct : DistinctKeys s.tracks
  in_step : IsInStep s
  held : Values (IsHeld e.policy.runtime.maximum_observations_per_track) s.tracks
  kept :
      (k : String) (t : Track e.floats.Number)
      → lookup k s.tracks ≡ some t
      → lookup k before.tracks ≡ some t

module _ (e : Env) (valid : Policy.IsValid e.policy) (track_id : String) (now : ℕ) where
  open e use {floats.{Number}, policy}

  purged-IsValid :
      (s : EngineState Number)
      → IsMoment (pos now -ℤ policy.runtime.inactive_track)
      → IsValid e s
      → (s' : EngineState Number) × (purge_inactive policy.runtime.inactive_track now s ≡ some s')
        × IsValid e s'
        × ((k : String) (t : Track Number)
            → lookup k s'.tracks ≡ some t
            → lookup k s.tracks ≡ some t)
  purged-IsValid s cutoff v =
      let maxlen = policy.runtime.maximum_observations_per_track in
      let stale = is_stale (pos now -ℤ policy.runtime.inactive_track) in
      let (s', found, tracks, snapshots, fewer, distinct) =
        purge_inactive_lem policy.runtime.inactive_track now s (all-IsSeen maxlen s.tracks v.held)
          v.distinct cutoff in
      let kept : (k : String) (t : Track Number)
          → lookup k s'.tracks ≡ some t
          → lookup k s.tracks ≡ some t =
        λ k t here. without-eq-some stale (lookup k s.tracks) t (sym (tracks k) ∙ here) in
      (
        s',
        found,
        record {
          bounded = omega (arith, v.bounded, fewer);
          distinct = distinct;
          in_step = record {
            in_step = λ k.
                rw (tracks k, snapshots k, ← key_where-lookup stale k s.tracks v.distinct)
                  (ground (arith, v.in_step.in_step k));
          };
          held =
              Values_of_lookup (IsHeld maxlen) s'.tracks distinct
                λ k t here. lookup-Values (IsHeld maxlen) k t s.tracks v.held (kept k t here);
        },
        kept,
      )

  evicted-Ready :
      (s : EngineState Number)
      → IsValid e s
      → (s' : EngineState Number) × (evict_if_needed policy.runtime.maximum_tracks track_id s
          ≡ some s')
        × Ready e track_id s s'
  evicted-Ready s v =
      let maxlen = policy.runtime.maximum_observations_per_track in
      let (s', found, keeps, how) =
        evict_if_needed_lem policy.runtime.maximum_tracks track_id s valid.one_track
          (all-IsSeen maxlen s.tracks v.held) v.distinct v.in_step in
      let held = keeps.values (IsHeld maxlen) v.held in
      (
        s',
        found,
        elim how [
          | inl (same, known) ↦ rw same (record {
            room = inl (known, v.bounded);
            distinct = v.distinct;
            in_step = v.in_step;
            held = v.held;
            kept = λ k t h. h;
          })
          | inr evicts ↦ record {
            room = inr evicts.room;
            distinct = evicts.distinct;
            in_step = evicts.in_step;
            held = held;
            kept = evicts.kept;
          }
        ],
      )

-- The instants that the engine computes of the observation can be held.
pub record IsTimely (e : Env) (o : TrackObservation e.floats.Number) : Type 0 where
  pub cutoff : IsMoment (pos o.observed_at -ℤ e.policy.runtime.inactive_track)
  pub window_start : IsMoment (pos o.observed_at -ℤ e.policy.window.maximum_duration)
  pub expiry : IsMoment (pos o.observed_at +ℤ e.policy.timing.evidence_ttl)

-- The track that the observation meets: the one that the engine held, or a new one.
abbrev pub IsTrackBefore :
    (e : Env)
    → TrackObservation e.floats.Number
    → EngineState e.floats.Number
    → Track e.floats.Number
    → Type 0
IsTrackBefore e o s t = (t ≡ fresh_track) ⊎ (lookup (track_id_of e o) s.tracks ≡ some t)

-- An evaluator raises of the observation and the track that it meets.
pub record IsUnevaluable (e : Env) (o : TrackObservation e.floats.Number)
    (before : EngineState e.floats.Number) : Type 0 where
  pub track : Track e.floats.Number
  pub was : IsTrackBefore e o before track
  pub raises :
      evaluation_raises e track.observations
        (append_bounded e.policy.runtime.maximum_observations_per_track o track.observations)
        o
      ≡ true

-- What an observation leaves: the state, the snapshot that it publishes, and its track.
pub record Ingested (e : Env) (o : TrackObservation e.floats.Number)
    (before : EngineState e.floats.Number) (after : EngineState e.floats.Number)
    (snapshot : IntegritySnapshot e.floats.Number) : Type 0 where
  pub valid : IsValid e after
  pub track : Track e.floats.Number
  pub held : lookup (track_id_of e o) after.tracks ≡ some track
  pub published : lookup (track_id_of e o) after.snapshots ≡ some snapshot
  pub newest : get_last? track.observations ≡ some o
  -- Its observations are those of the track that it met, with the new one appended.
  pub earlier : Track e.floats.Number
  pub was : IsTrackBefore e o before earlier
  pub recorded :
      track.observations
      ≡ append_bounded e.policy.runtime.maximum_observations_per_track o earlier.observations
  pub first : TrackObservation e.floats.Number
  pub built : snapshot ≡ snapshot_from e (track_id_of e o) track first o
  pub in_force :
      pos 0 <ℤ e.policy.timing.evidence_ttl
      → Values (λ evidence. o.observed_at < evidence.expires_at) track.active
  -- No other track is added or changed.
  pub others :
      (k : String) (t : Track e.floats.Number)
      → k ≢ track_id_of e o
      → lookup k after.tracks ≡ some t
      → lookup k before.tracks ≡ some t

module _ (e : Env) (valid : Policy.IsValid e.policy) (o : TrackObservation e.floats.Number) where
  open e use {floats.{Number}, policy}

  abbrev id : String
  id = track_id_of e o

  track_or_fresh-IsTrack :
      (s : EngineState Number)
      → Values (IsHeld policy.runtime.maximum_observations_per_track) s.tracks
      → IsTrack policy.runtime.maximum_observations_per_track
          (track_or_fresh e (lookup id s.tracks))
  track_or_fresh-IsTrack s held = elim (Option-cases (lookup id s.tracks)) [
    | inl new ↦ rw new (fresh_track-IsTrack policy.runtime.maximum_observations_per_track)
    | inr (t, known) ↦
        rw known
          (lookup-Values (IsHeld policy.runtime.maximum_observations_per_track) id t s.tracks held
            known).within
  ]

  inserted-IsValid :
      (before s : EngineState Number) (t : Track Number) (snapshot : IntegritySnapshot Number)
      → Ready e id before s
      → IsHeld policy.runtime.maximum_observations_per_track t
      → IsValid e
          (record { tracks = insert id t s.tracks; snapshots = insert id snapshot s.snapshots })
  inserted-IsValid before s t snapshot ready held = record {
    bounded = elim ready.room [
      | inl (known, fits) ↦ rw (length-insert_known id t s.tracks known) fits
      | inr free ↦ omega (arith, length-insert-le id t s.tracks)
    ];
    distinct = insert-DistinctKeys id t s.tracks ready.distinct;
    in_step = record {
      in_step = λ k. ground (
        arith,
        lookup-insert id k t s.tracks,
        lookup-insert id k snapshot s.snapshots,
        ready.in_step.in_step k,
      );
    };
    held =
        insert-Values (IsHeld policy.runtime.maximum_observations_per_track) id t s.tracks held
          ready.held;
  }

  ingest_steps :
      (s s1 s2 : EngineState Number) (snapshot : IntegritySnapshot Number)
      → purge_inactive policy.runtime.inactive_track o.observed_at s ≡ some s1
      → evict_if_needed policy.runtime.maximum_tracks id s1 ≡ some s2
      → observe_raises e id (track_or_fresh e (lookup id s2.tracks)) o ≡ false
      → let (t, events) = observe e id (track_or_fresh e (lookup id s2.tracks)) o in
        build_snapshot e id t ≡ some snapshot
        → ingest e s o
          ≡ some (
            record { tracks = insert id t s2.tracks; snapshots = insert id snapshot s2.snapshots },
            snapshot,
            events,
          )
  unfolding ingest insert observe
  ingest_steps s s1 s2 snapshot purged evicted fine built =
      rw (ingest, purged, evicted, fine, built) refl

  ingest-raises :
      (s s1 s2 : EngineState Number)
      → purge_inactive policy.runtime.inactive_track o.observed_at s ≡ some s1
      → evict_if_needed policy.runtime.maximum_tracks id s1 ≡ some s2
      → observe_raises e id (track_or_fresh e (lookup id s2.tracks)) o ≡ true
      → ingest e s o ≡ none
  unfolding ingest
  ingest-raises s s1 s2 purged evicted raises = rw (ingest, purged, evicted, raises) refl

  -- With its instants in range, the evaluation of an observation raises only where an evaluator does.
  observe_raises-timely :
      (t : Track Number)
      → IsTimely e o
      → observe_raises e id t o
        ≡ evaluation_raises e t.observations
            (append_bounded policy.runtime.maximum_observations_per_track o t.observations)
            o
  unfolding observe_raises expire
  observe_raises-timely t timely =
      let start =
        (is_moment_iff (pos o.observed_at -ℤ policy.window.maximum_duration)).1
          timely.window_start in
      let end = (is_moment_iff (pos o.observed_at +ℤ policy.timing.evidence_ttl)).1 timely.expiry in
      rw (start, end) (ground arith)

  track_or_fresh-IsTrackBefore :
      (s s' : EngineState Number)
      → ((k : String) (t : Track Number) → lookup k s'.tracks ≡ some t → lookup k s.tracks ≡ some t)
      → IsTrackBefore e o s (track_or_fresh e (lookup id s'.tracks))
  track_or_fresh-IsTrackBefore s s' kept = elim (Option-cases (lookup id s'.tracks)) [
    | inl new ↦ rw new (inl refl)
    | inr (t, known) ↦ rw known (inr (kept id t known))
  ]

  -- The evaluation raises of the track that the observation meets.
  abbrev HasRaised : EngineState Number → Type 0
  HasRaised s = (t : Track Number) × IsTrackBefore e o s t × (observe_raises e id t o ≡ true)

  ingest-outcome :
      (s : EngineState Number)
      → IsMoment (pos o.observed_at -ℤ policy.runtime.inactive_track)
      → IsValid e s
      → ((ingest e s o ≡ none) × HasRaised s)
        ⊎ (s' : EngineState Number) × (snapshot : IntegritySnapshot Number) × (events : List
            (IntegrityEvent Number))
          × (ingest e s o ≡ some (s', snapshot, events))
          × Ingested e o s s' snapshot
  ingest-outcome s cutoff v =
      let maxlen = policy.runtime.maximum_observations_per_track in
      let (s1, purged, v1, kept1) = purged-IsValid e valid id o.observed_at s cutoff v in
      let (s2, evicted, ready) = evicted-Ready e valid id o.observed_at s1 v1 in
      let t0 = track_or_fresh e (lookup id s2.tracks) in
      let before_to : (k : String) (u : Track Number)
          → lookup k s2.tracks ≡ some u
          → lookup k s.tracks ≡ some u =
        λ k u here. kept1 k u (ready.kept k u here) in
      let was = track_or_fresh-IsTrackBefore s s2 before_to in
      elim (Bool-cases (observe_raises e id t0 o)) [
        | inl raises ↦ inl (ingest-raises s s1 s2 purged evicted raises, (t0, was, raises))
        | inr fine ↦
            let t = (observe e id t0 o).0 in
            let seen =
              observe-Observed e id t0 o (omega (arith, valid.two_kept))
                (track_or_fresh-IsTrack s2 ready.held) in
            let (first, built) = build_snapshot-some e id t o seen.newest in
            let snapshot = snapshot_from e id t first o in
            inr (
              record {
                tracks = insert id t s2.tracks;
                snapshots = insert id snapshot s2.snapshots;
              },
              snapshot,
              (observe e id t0 o).1,
              ingest_steps s s1 s2 snapshot purged evicted fine built,
              record {
                valid =
                    inserted-IsValid s1 s2 t snapshot ready
                      (record { within = seen.within; seen = rw seen.newest refl });
                track = t;
                held = ground (arith, lookup-insert id id t s2.tracks, eq_iff id id);
                published = ground (arith, lookup-insert id id snapshot s2.snapshots, eq_iff id id);
                newest = seen.newest;
                earlier = t0;
                was = was;
                recorded = seen.recorded;
                first = first;
                built = refl;
                in_force = seen.in_force;
                others = λ k u other here.
                    before_to k u
                      (ground (arith, lookup-insert id k t s2.tracks, eq_iff id k, other));
              },
            )
      ]

  ingest-out_of_range :
      (s : EngineState Number)
      → is_moment (pos o.observed_at -ℤ policy.runtime.inactive_track) ≡ false
      → ingest e s o ≡ none
  unfolding ingest purge_inactive
  ingest-out_of_range s out = rw out refl

  -- An observation that is taken leaves a valid engine valid, whatever its time.
  pub ingest-IsValid :
      (s s' : EngineState Number) (snapshot : IntegritySnapshot Number)
      (events : List (IntegrityEvent Number))
      → IsValid e s
      → ingest e s o ≡ some (s', snapshot, events)
      → IsValid e s'
  ingest-IsValid s s' snapshot events v taken =
      let cutoff = pos o.observed_at -ℤ policy.runtime.inactive_track in
      elim (Bool-cases (is_moment cutoff)) [
        | inr out ↦ let raised : ingest e s o ≡ none = ingest-out_of_range s out in absurd (cc)
        | inl within ↦ elim (ingest-outcome s ((is_moment_iff cutoff).0 within) v) [
          | inl (raised, _) ↦ absurd (cc)
          | inr (s1, snapshot1, events1, result, left) ↦
              let same : s1 ≡ s' = ap (λ t. t.0) (some_injective (sym result ∙ taken)) in
              subst (IsValid e) same left.valid
        ]
      ]

  -- Under a policy with the limits that policy.py requires, and with the instants of the
  -- observation in range, an observation raises only if an evaluator raises of it and the track
  -- that it meets, as the engine held it or new. Else the engine reaches, from a valid state, a
  -- valid one, in which the track of the observation is held with the observation as its newest,
  -- appended to those of the track that it met, and with the published snapshot, which is built of
  -- that track. No evidence in it has expired, where evidence has a lifetime, and every other track
  -- that is held was held as it is.
  pub ingest-Ingested :
      (s : EngineState Number)
      → IsTimely e o
      → IsValid e s
      → ((ingest e s o ≡ none) × IsUnevaluable e o s)
        ⊎ (s' : EngineState Number) × (snapshot : IntegritySnapshot Number) × (events : List
            (IntegrityEvent Number))
          × (ingest e s o ≡ some (s', snapshot, events))
          × Ingested e o s s' snapshot
  ingest-Ingested s timely v = elim (ingest-outcome s timely.cutoff v) [
    | inl (raised, (t, was, raises)) ↦ inl (
      raised,
      record { track = t; was = was; raises = sym (observe_raises-timely t timely) ∙ raises },
    )
    | inr taken ↦ inr taken
  ]

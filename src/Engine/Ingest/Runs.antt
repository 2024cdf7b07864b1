-- ===== src/Engine/Ingest/Runs.antt =====
-- Whole runs: a new engine that is fed any observations.
use mathlib.Core.Path.{subst}
use ads_b_flight_intelligenc.Base.{
  ℕ, ◌≡◌, ◌≢◌, ◌≤◌, ◌-◌, ◌==◌, ◌&&◌, refl, inl, inr, Bool, true, false, Option, some, List, [], ◌∷◌,
  ◌++◌, arith, String, str_eq, eq_iff, length, leb, filter, get_last?, is_some, All, All-append,
  All-drop, All-filter, get_last?-All, Bool-cases, Option-cases,
}
use ads_b_flight_intelligenc.Base.Int.{pos, ◌-ℤ◌, leb_ℤ}
use ads_b_flight_intelligenc.Base.Dict.{lookup}
use ads_b_flight_intelligenc.Observation.{TrackObservation}
use ads_b_flight_intelligenc.Engine.Models.{IntegrityEvent, IntegritySnapshot}
use ads_b_flight_intelligenc.Engine.Policy
use ads_b_flight_intelligenc.Engine.Env.{Env}
use ads_b_flight_intelligenc.Engine.Track.{Track, append_bounded, fresh_track}
use ads_b_flight_intelligenc.Engine.Candidates.{evaluation_raises, window_items}
use ads_b_flight_intelligenc.Engine.Cache.{EngineState, ◌>>=◌}
use ads_b_flight_intelligenc.Engine.Ingest.{ingest, track_id_of}
use ads_b_flight_intelligenc.Engine.Ingest.Invariant.{
  IsValid, IsTimely, IsTrackBefore, IsUnevaluable, Ingested, ingest-Ingested,
}

-- `IntegrityEngine.__init__`
unfoldable pub new_engine : {N : Type 0} → EngineState N
new_engine = record { tracks = []; snapshots = [] }

module _ (e : Env) where
  open e use {floats.{Number}}

  -- The observations of a source, one after the other, with all their events.
  unfoldable pub ingest_all :
      EngineState Number
      → List (TrackObservation Number)
      → Option (EngineState Number × List (IntegrityEvent Number))
  unfolding ingest
  ingest_all s [] = some (s, [])
  ingest_all s (o ∷ os) = do
    (s', snapshot, events) ← ingest e s o
    (s'', rest) ← ingest_all s' os
    some (s'', events ++ rest)

pub new_engine-IsValid : (e : Env) → IsValid e new_engine
unfolding new_engine lookup
new_engine-IsValid e = record {
  bounded = omega arith;
  distinct = tt;
  in_step = record { in_step = λ k. refl };
  held = tt;
}

-- A class of observations of which the evaluators do not raise.
pub record IsEvaluable (e : Env) (P : TrackObservation e.floats.Number → Type 0) : Type 0 where
  pub pairs :
      (previous o : TrackObservation e.floats.Number)
      → P previous
      → P o
      → is_some (e.evaluators.pair previous o) ≡ true
  pub windows :
      (items : List (TrackObservation e.floats.Number))
      → e.policy.window.minimum_observations ≤ length items
      → All P items
      → is_some (e.evaluators.window items) ≡ true

module _ (e : Env) (P : TrackObservation e.floats.Number → Type 0)
    (evaluable : IsEvaluable e P) where
  open e use {floats.{Number}, policy}

  -- All that the engine holds is of the class.
  abbrev Holds : EngineState Number → Type 0
  Holds s = (k : String) (t : Track Number) → lookup k s.tracks ≡ some t → All P t.observations

  append_bounded-All :
      (n : ℕ) (o : TrackObservation Number) (os : List (TrackObservation Number))
      → All P os
      → P o
      → All P (append_bounded n o os)
  unfolding append_bounded
  append_bounded-All n o os held new =
      All-drop P (length (os ++ o ∷ []) - n) (os ++ o ∷ [])
        (All-append P os (o ∷ []) held (new, tt))

  window_items-All :
      (os : List (TrackObservation Number)) (o : TrackObservation Number)
      → All P os
      → All P (window_items e os o)
  unfolding window_items
  window_items-All os o h =
      let earliest = pos o.observed_at -ℤ policy.window.maximum_duration in
      let inside : TrackObservation Number → Bool =
        λ item. leb_ℤ earliest (pos item.observed_at) && leb item.observed_at o.observed_at in
      let n = policy.window.maximum_observations in
      let kept = All-filter P inside os h in
      elim (Bool-cases (n == 0)) [
        | inl q ↦ rw q kept
        | inr q ↦ rw q (All-drop P (length (filter inside os) - n) (filter inside os) kept)
      ]

  evaluation_raises-false :
      (before os : List (TrackObservation Number)) (o : TrackObservation Number)
      → All P before
      → All P os
      → P o
      → evaluation_raises e before os o ≡ false
  unfolding evaluation_raises
  evaluation_raises-false before os o earlier held new =
      let items = window_items e os o in
      let windows : policy.window.minimum_observations ≤ length items
          → is_some (e.evaluators.window items) ≡ true =
        λ enough. evaluable.windows items enough (window_items-All os o held) in
      elim (Option-cases (get_last? before)) [
        | inl nothing ↦ rw nothing (ground (arith, windows))
        | inr (previous, found) ↦
            let pair =
              evaluable.pairs previous o (get_last?-All P before previous earlier found) new in
            rw (found, pair) (ground (arith, windows))
      ]

  IsTrackBefore-All :
      (s : EngineState Number) (o : TrackObservation Number) (t : Track Number)
      → Holds s
      → IsTrackBefore e o s t
      → All P t.observations
  unfolding fresh_track
  IsTrackBefore-All s o t held (inl new) = rw new tt
  IsTrackBefore-All s o t held (inr known) = held (track_id_of e o) t known

  IsUnevaluable-absurd :
      (s : EngineState Number) (o : TrackObservation Number) → Holds s → P o → ¬ IsUnevaluable e o s
  IsUnevaluable-absurd s o held new u =
      let earlier = IsTrackBefore-All s o u.track held u.was in
      let os =
        append_bounded policy.runtime.maximum_observations_per_track o u.track.observations in
      let after =
        append_bounded-All policy.runtime.maximum_observations_per_track o u.track.observations
          earlier new in
      absurd (cc (u.raises, evaluation_raises-false u.track.observations os o earlier after new))

  Ingested-Holds :
      (s s' : EngineState Number) (o : TrackObservation Number)
      (snapshot : IntegritySnapshot Number)
      → Holds s
      → P o
      → Ingested e o s s' snapshot
      → Holds s'
  Ingested-Holds s s' o snapshot held new left k t here =
      elim (Bool-cases (str_eq k (track_id_of e o))) [
        | inl q ↦
            let own : k ≡ track_id_of e o = (eq_iff k (track_id_of e o)).0 q in
            let it : left.track ≡ t = cc (left.held, here, own) in
            let after =
              append_bounded-All policy.runtime.maximum_observations_per_track o
                left.earlier.observations (IsTrackBefore-All s o left.earlier held left.was) new in
            subst (λ u. All P u.observations) it (rw left.recorded after)
        | inr q ↦
            let other : k ≢ track_id_of e o =
              λ h. absurd (cc (q, (eq_iff k (track_id_of e o)).1 h)) in
            held k t (left.others k t other here)
      ]

  ingest_all-IsValid :
      Policy.IsValid policy
      → (s : EngineState Number) (os : List (TrackObservation Number)) → IsValid e s
      → Holds s
      → All (λ o. P o × IsTimely e o) os
      → (s' : EngineState Number) × (events : List (IntegrityEvent Number)) × (ingest_all e s os
          ≡ some (s', events))
        × IsValid e s'
  unfolding ingest_all
  ingest_all-IsValid valid s [] v held fine = (s, [], refl, v)
  ingest_all-IsValid valid s (o ∷ os) v held fine = elim (ingest-Ingested e valid o s fine.0.1 v) [
    | inl (_, unevaluable) ↦ absurd (IsUnevaluable-absurd s o held fine.0.0 unevaluable)
    | inr (s', snapshot, events, result, left) ↦
        let (s'', rest, results, last) =
          ingest_all-IsValid valid s' os left.valid
            (Ingested-Holds s s' o snapshot held fine.0.0 left) fine.1 in
        (s'', events ++ rest, rw (result, results) refl, last)
  ]

-- Under a policy with the limits that policy.py requires, a new engine takes any observations of a
-- class of which the evaluators do not raise, in any order and from any sources, with their instants
-- in range, without raising, and ends within all its bounds.
pub run-IsValid :
    (e : Env) (P : TrackObservation e.floats.Number → Type 0)
    → Policy.IsValid e.policy
    → IsEvaluable e P
    → (os : List (TrackObservation e.floats.Number)) → All (λ o. P o × IsTimely e o) os
    → (s : EngineState e.floats.Number) × (events : List (IntegrityEvent e.floats.Number))
      × (ingest_all e new_engine os ≡ some (s, events))
      × IsValid e s
unfolding new_engine lookup
run-IsValid e P valid evaluable os fine =
    ingest_all-IsValid e P evaluable valid new_engine os (new_engine-IsValid e)
      (λ k t here. absurd (cc)) fine

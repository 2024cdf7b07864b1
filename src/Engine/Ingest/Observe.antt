-- ===== src/Engine/Ingest/Observe.antt =====
-- One observation of one track: the queue and the memory stay within their bounds, the observation
-- is the newest of the track, and the evidence in force has not expired.
use ads_b_flight_intelligenc.Base.{
  ℕ, ◌≤◌, ◌<◌, ◌≡◌, refl, Option, none, some, [], ◌∷◌, length, String, arith, get_last?,
}
use ads_b_flight_intelligenc.Base.Int.{pos, ◌<ℤ◌}
use ads_b_flight_intelligenc.Base.Dict.{Dict, DistinctKeys, Values}
use ads_b_flight_intelligenc.Base.Sets.{contains}
use ads_b_flight_intelligenc.Observation.{TrackObservation}
use ads_b_flight_intelligenc.Engine.Models.{IntegrityEvidence}
use ads_b_flight_intelligenc.Engine.Env.{Env}
use ads_b_flight_intelligenc.Engine.Track.{
  Track, append_bounded, fresh_track, note_message, remember,
}
use ads_b_flight_intelligenc.Engine.Track.Memory.{
  IsMemory, note_message-IsMemory, length-append_bounded,
}
use ads_b_flight_intelligenc.Engine.Evidence.{later, expire}
use ads_b_flight_intelligenc.Engine.Candidates.{candidates}
use ads_b_flight_intelligenc.Engine.Ingest.{observe}
use ads_b_flight_intelligenc.Engine.Ingest.Tracks.{
  Updates, open_or_update_all-Updates, expire-DistinctKeys, expire-Values, get_last?-append_bounded,
}

-- A track within its bounds.
pub record IsTrack {N : Type 0} (maxlen : ℕ) (t : Track N) : Type 0 where
  pub bounded : length t.observations ≤ maxlen
  pub memory : IsMemory maxlen t
  pub distinct : DistinctKeys t.active

pub fresh_track-IsTrack : {N : Type 0} (maxlen : ℕ) → IsTrack {N = N} maxlen fresh_track
unfolding fresh_track contains
fresh_track-IsTrack maxlen = record {
  bounded = omega arith;
  memory = record { bounded = omega arith; distinct = tt; same = λ id. refl };
  distinct = tt;
}

-- The memory does not depend on the other fields.
IsMemory-of_same :
    {N : Type 0} (maxlen : ℕ) (t t' : Track N)
    → t'.seen_message_ids ≡ t.seen_message_ids
    → t'.seen_message_order ≡ t.seen_message_order
    → IsMemory maxlen t
    → IsMemory maxlen t'
IsMemory-of_same maxlen t t' ids order v = record {
  bounded = rw order v.bounded;
  distinct = rw order v.distinct;
  same = λ id. rw (ids, order) (v.same id);
}

active-note_message :
    {N : Type 0} (maxlen : ℕ) (raw_id : Option String) (t : Track N)
    → (note_message maxlen raw_id t).active ≡ t.active
unfolding note_message remember
active-note_message maxlen none t = refl
active-note_message maxlen (some raw_id) t = ground arith

everything : {N : Type 0} (d : Dict (IntegrityEvidence N)) → Values (λ evidence. Unit {0}) d
everything [] = tt
everything (item ∷ d) = (tt, everything d)

later-lt :
    (e : Env) (t : ℕ)
    → pos 0 <ℤ e.policy.timing.evidence_ttl
    → t < later t e.policy.timing.evidence_ttl
unfolding later
later-lt e t h = ground arith

module _ (e : Env) (track_id : String) (t : Track e.floats.Number)
    (o : TrackObservation e.floats.Number) where
  open e use {floats.{Number}, policy}

  abbrev maxlen : ℕ
  maxlen = policy.runtime.maximum_observations_per_track

  abbrev t1 : Track Number
  t1 = (expire e track_id t o.observed_at).0

  abbrev t2 : Track Number
  t2 = record (note_message maxlen o.raw_message_id t1) {
    observations = append_bounded maxlen o t1.observations;
  }

  -- The track between the two loops over evidence.
  noted-IsTrack : 0 < maxlen → IsTrack maxlen t → IsTrack maxlen t2
  unfolding expire
  noted-IsTrack positive v = record {
    bounded = length-append_bounded maxlen o t.observations;
    memory = IsMemory-of_same maxlen (note_message maxlen o.raw_message_id t1) t2 refl refl (
        note_message-IsMemory maxlen o.raw_message_id t1 positive
          (IsMemory-of_same maxlen t t1 refl refl v.memory));
    distinct = rw active-note_message (expire-DistinctKeys e track_id o.observed_at t v.distinct);
  }

  noted-Values : (P : IntegrityEvidence Number → Type 0) → Values P t1.active → Values P t2.active
  noted-Values P h = rw active-note_message h

  -- What one observation makes of a track that is within its bounds.
  pub record Observed (t' : Track Number) : Type 0 where
    pub within : IsTrack maxlen t'
    -- The observation is the newest of the track.
    pub newest : get_last? t'.observations ≡ some o
    -- Its observations are those that it had, with the new one appended.
    pub recorded : t'.observations ≡ append_bounded maxlen o t.observations
    -- Where evidence has a lifetime, all that is active expires after the observation.
    pub in_force :
        pos 0 <ℤ policy.timing.evidence_ttl
        → Values (λ evidence. o.observed_at < evidence.expires_at) t'.active

  module _ (positive : 0 < maxlen) (v : IsTrack maxlen t) where
    updates :
        (P : IntegrityEvidence Number → Type 0)
        → ((evidence : IntegrityEvidence Number)
            → evidence.expires_at ≡ later o.observed_at policy.timing.evidence_ttl
            → P evidence)
        → Values P t1.active
        → Updates e track_id o P t2 (observe e track_id t o).0
    unfolding observe
    updates P new h =
        open_or_update_all-Updates e track_id o P new t2
          (candidates e t1 (append_bounded maxlen o t1.observations) o)
          (noted-IsTrack positive v).distinct (noted-Values P h)

    all_distinct : Updates e track_id o (λ evidence. Unit) t2 (observe e track_id t o).0
    all_distinct = updates (λ evidence. Unit) (λ evidence h. tt) (everything t1.active)

    recorded_lem : (observe e track_id t o).0.observations ≡ append_bounded maxlen o t.observations
    unfolding expire
    recorded_lem = all_distinct.observations

    -- An observation keeps the track within its bounds, becomes its newest, and leaves no evidence
    -- that has expired.
    pub observe-Observed : Observed (observe e track_id t o).0
    observe-Observed = record {
      within = record {
        bounded = rw all_distinct.observations (noted-IsTrack positive v).bounded;
        memory =
            IsMemory-of_same maxlen t2 (observe e track_id t o).0 all_distinct.ids
              all_distinct.order (noted-IsTrack positive v).memory;
        distinct = all_distinct.distinct;
      };
      newest =
          rw all_distinct.observations (get_last?-append_bounded maxlen o t1.observations positive);
      recorded = recorded_lem;
      in_force = λ lifetime.
          (updates (λ evidence. o.observed_at < evidence.expires_at)
            (λ evidence h. rw h (later-lt e o.observed_at lifetime))
            (expire-Values e track_id o.observed_at t v.distinct)).evidence;
    }

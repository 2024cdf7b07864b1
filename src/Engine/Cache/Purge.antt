-- ===== src/Engine/Cache/Purge.antt =====
-- What the engine forgets for being inactive: purging drops exactly the tracks last seen too long ago.
use ads_b_flight_intelligenc.Base.{
  ℕ, ◌≤◌, ◌≡◌, refl, ◌∙◌, Bool, false, none, some, List, [], ◌∷◌, String, str_eq, str_lt, arith,
  length, sort_by, if◌then◌else◌,
}
use ads_b_flight_intelligenc.Base.Int.{ℤ, pos, ◌-ℤ◌, ltb_ℤ}
use ads_b_flight_intelligenc.Base.Moment.{IsMoment, is_moment_iff}
use ads_b_flight_intelligenc.Base.Sets.{contains, contains-sort_by}
use ads_b_flight_intelligenc.Base.Dict.{
  Dict, lookup, lookup-erase, length-erase-le, DistinctKeys, Values, erase-DistinctKeys,
  erase-Values, key_where, key_where-lookup, without,
}
use ads_b_flight_intelligenc.Engine.Track.{Track}
use ads_b_flight_intelligenc.Engine.Cache.{
  EngineState, last_seen, forget, forget_all, stale_ids, purge_inactive,
}

module _ {N : Type 0} where
  -- The last observation of the track is not older than `n`.
  abbrev pub SeenSince : ℕ → Track N → Type 0
  SeenSince n t = (m : ℕ) × (last_seen t ≡ some m) × (n ≤ m)

  -- The track has an observation.
  abbrev pub IsSeen : Track N → Type 0
  IsSeen t = SeenSince 0 t

  abbrev pub is_stale : ℤ → Track N → Bool
  is_stale cutoff t = elim (last_seen t) [ none ↦ false | some m ↦ ltb_ℤ (pos m) cutoff ]

  stale_ids_lem :
      (cutoff : ℤ) (tracks : Dict (Track N))
      → Values IsSeen tracks
      → (ids : List String) × (stale_ids cutoff tracks ≡ some ids)
        × ((k : String) → contains str_eq k ids ≡ key_where (is_stale cutoff) k tracks)
  unfolding stale_ids contains key_where
  stale_ids_lem cutoff [] h = ([], refl, λ k. refl)
  stale_ids_lem cutoff ((id, t) ∷ tracks) h =
      let (time, seen, _) = h.0 in
      let (rest, found, same) = stale_ids_lem cutoff tracks h.1 in
      (
        if ltb_ℤ (pos time) cutoff then id ∷ rest else rest,
        rw (seen, found) refl,
        λ k. ground (arith, seen, same k),
      )

  tracks-forget_all :
      (k : String) (ids : List String) (s : EngineState N)
      → lookup k (forget_all ids s).tracks
        ≡ (if contains str_eq k ids then none else lookup k s.tracks)
  unfolding forget_all contains
  tracks-forget_all k [] s = refl
  tracks-forget_all k (id ∷ ids) s =
      ground (arith, tracks-forget_all k ids (forget id s), lookup-erase id k s.tracks)

  snapshots-forget_all :
      (k : String) (ids : List String) (s : EngineState N)
      → lookup k (forget_all ids s).snapshots
        ≡ (if contains str_eq k ids then none else lookup k s.snapshots)
  unfolding forget_all contains
  snapshots-forget_all k [] s = refl
  snapshots-forget_all k (id ∷ ids) s =
      ground (arith, snapshots-forget_all k ids (forget id s), lookup-erase id k s.snapshots)

  length-forget : (id : String) (s : EngineState N) → length (forget id s).tracks ≤ length s.tracks
  unfolding forget
  length-forget id s = length-erase-le id s.tracks

  length-forget_all :
      (ids : List String) (s : EngineState N) → length (forget_all ids s).tracks ≤ length s.tracks
  unfolding forget_all
  length-forget_all [] s = omega arith
  length-forget_all (id ∷ ids) s =
      omega (arith, length-forget_all ids (forget id s), length-forget id s)

  Values-forget_all {κ} :
      (P : Track N → Type κ) (ids : List String) (s : EngineState N)
      → Values P s.tracks
      → Values P (forget_all ids s).tracks
  unfolding forget_all forget
  Values-forget_all P [] s h = h
  Values-forget_all P (id ∷ ids) s h =
      Values-forget_all P ids (forget id s) (erase-Values P id s.tracks h)

  DistinctKeys-forget_all :
      (ids : List String) (s : EngineState N)
      → DistinctKeys s.tracks
      → DistinctKeys (forget_all ids s).tracks
  unfolding forget_all forget
  DistinctKeys-forget_all [] s h = h
  DistinctKeys-forget_all (id ∷ ids) s h =
      DistinctKeys-forget_all ids (forget id s) (erase-DistinctKeys id s.tracks h)

  -- Where the cutoff, the time less the permitted inactivity, is an instant that a `datetime` holds,
  -- purging does not raise, and drops exactly the tracks that were last seen before the cutoff, with
  -- their snapshots.
  pub purge_inactive_lem :
      (inactive : ℤ) (now : ℕ) (s : EngineState N)
      → Values IsSeen s.tracks
      → DistinctKeys s.tracks
      → IsMoment (pos now -ℤ inactive)
      → (s' : EngineState N) × (purge_inactive inactive now s ≡ some s')
        × ((k : String)
            → lookup k s'.tracks ≡ without (is_stale (pos now -ℤ inactive)) (lookup k s.tracks))
        × ((k : String)
            → lookup k s'.snapshots ≡ (
                if key_where (is_stale (pos now -ℤ inactive)) k s.tracks
                then none
                else lookup k s.snapshots))
        × (length s'.tracks ≤ length s.tracks)
        × DistinctKeys s'.tracks
  unfolding purge_inactive
  purge_inactive_lem inactive now s seen distinct held =
      let in_range = (is_moment_iff (pos now -ℤ inactive)).1 held in
      let (ids, found, same) = stale_ids_lem (pos now -ℤ inactive) s.tracks seen in
      let ids' = sort_by str_lt ids in
      (
        forget_all ids' s,
        rw (in_range, found) refl,
        λ k.
            tracks-forget_all k ids' s
            ∙ rw (contains-sort_by str_eq str_lt k ids, same k)
                (key_where-lookup (is_stale (pos now -ℤ inactive)) k s.tracks distinct),
        λ k. snapshots-forget_all k ids' s ∙ rw (contains-sort_by str_eq str_lt k ids, same k) refl,
        length-forget_all ids' s,
        DistinctKeys-forget_all ids' s distinct,
      )

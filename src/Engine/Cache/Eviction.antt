-- ===== src/Engine/Cache/Eviction.antt =====
-- What the engine forgets to make room: eviction drops the tracks seen longest ago, and ends with
-- a free place.
use ads_b_flight_intelligenc.Base.{
  ℕ, zero, suc, ◌+◌, ◌≤◌, ◌<◌, ◌≡◌, refl, ◌∙◌, sym, inl, inr, ◌⊎◌, true, none, some, [], ◌∷◌,
  String, str_eq, eq_iff, arith, leb, length, is_some, Bool-cases,
}
use ads_b_flight_intelligenc.Base.Dict.{
  Dict, lookup, lookup-erase, length-erase_known, DistinctKeys, Values, erase-DistinctKeys,
  erase-Values, lookup-Values,
}
use ads_b_flight_intelligenc.Engine.Track.{Track}
use ads_b_flight_intelligenc.Engine.Cache.{
  EngineState, last_seen, forget, seen_before, oldest_from, oldest, evict, evict_if_needed,
}
use ads_b_flight_intelligenc.Engine.Cache.Purge.{SeenSince, IsSeen}

module _ {N : Type 0} where
  SeenSince-le : (n n' : ℕ) (t : Track N) → n ≤ n' → SeenSince n' t → SeenSince n t
  SeenSince-le n n' t h (m, seen, le) = (m, seen, omega arith)

  -- The entry that `min` returns.
  abbrev Found : ℕ × String → Dict (Track N) → Type 0
  Found r tracks = (t : Track N) × (lookup r.1 tracks ≡ some t) × (last_seen t ≡ some r.0)

  Found-cons :
      (r : ℕ × String) (id : String) (t : Track N) (tracks : Dict (Track N))
      → lookup id tracks ≡ none
      → Found r tracks
      → Found r ((id, t) ∷ tracks)
  unfolding lookup
  Found-cons r id t tracks fresh (t', found, seen) = (t', ground (arith, eq_iff id r.1), seen)

  Found-here :
      (time : ℕ) (id : String) (t : Track N) (tracks : Dict (Track N))
      → last_seen t ≡ some time
      → Found (time, id) ((id, t) ∷ tracks)
  unfolding lookup
  Found-here time id t tracks seen = (t, ground (arith, eq_iff id id), seen)

  oldest_from_lem :
      (best : ℕ × String) (tracks : Dict (Track N))
      → Values IsSeen tracks
      → DistinctKeys tracks
      → (r : ℕ × String) × (oldest_from best tracks ≡ some r)
        × ((r ≡ best) ⊎ Found r tracks)
        × (r.0 ≤ best.0)
        × Values (SeenSince r.0) tracks
  unfolding oldest_from
  oldest_from_lem best [] h d = (best, refl, inl refl, omega arith, tt)
  oldest_from_lem best ((id, t) ∷ tracks) h d =
      let (time, seen, _) = h.0 in
      elim (Bool-cases (seen_before (time, id) best)) [
        | inl newer ↦
            let (r, found, where_found, le, rest) = oldest_from_lem (time, id) tracks h.1 d.1 in
            (
              r,
              rw (seen, newer) found,
              inr (elim where_found [
                | inl same ↦ rw same (Found-here time id t tracks seen)
                | inr there ↦ Found-cons r id t tracks d.0 there
              ]),
              ground arith,
              ((time, seen, le), rest),
            )
        | inr older ↦
            let (r, found, where_found, le, rest) = oldest_from_lem best tracks h.1 d.1 in
            (
              r,
              rw (seen, older) found,
              elim where_found [
                | inl same ↦ inl same
                | inr there ↦ inr (Found-cons r id t tracks d.0 there)
              ],
              le,
              ((time, seen, ground arith), rest),
            )
      ]

  oldest_lem :
      (tracks : Dict (Track N))
      → Values IsSeen tracks
      → DistinctKeys tracks
      → 0 < length tracks
      → (r : ℕ × String) × (oldest tracks ≡ some r) × Found r tracks × Values (SeenSince r.0) tracks
  unfolding oldest
  oldest_lem [] h d nonempty = absurd (omega arith)
  oldest_lem ((id, t) ∷ tracks) h d nonempty =
      let (time, seen, _) = h.0 in
      let (r, found, where_found, le, rest) = oldest_from_lem (time, id) tracks h.1 d.1 in
      (
        r,
        rw seen found,
        elim where_found [
          | inl same ↦ rw same (Found-here time id t tracks seen)
          | inr there ↦ Found-cons r id t tracks d.0 there
        ],
        ((time, seen, le), rest),
      )

-- There is a snapshot for exactly the tracks that are held.
pub record IsInStep {N : Type 0} (s : EngineState N) : Type 0 where
  pub in_step : (k : String) → is_some (lookup k s.snapshots) ≡ is_some (lookup k s.tracks)

forget-IsInStep :
    {N : Type 0} (id : String) (s : EngineState N) → IsInStep s → IsInStep (forget id s)
unfolding forget
forget-IsInStep id s h = record {
  in_step =
      λ k. ground (arith, lookup-erase id k s.tracks, lookup-erase id k s.snapshots, h.in_step k);
}

-- How a state that has made room, `after`, stands to the state before.
pub record Evicts {N : Type 0} (maximum : ℕ) (before after : EngineState N) : Type 0 where
  pub room : length after.tracks < maximum
  pub distinct : DistinctKeys after.tracks
  pub in_step : IsInStep after
  -- What is held was held before.
  pub kept :
      (k : String) (t : Track N) → lookup k after.tracks ≡ some t → lookup k before.tracks ≡ some t
  -- What is gone was not seen later than anything that is held.
  pub oldest_gone :
      (j k : String) (gone held : Track N)
      → lookup j before.tracks ≡ some gone
      → lookup j after.tracks ≡ none
      → lookup k after.tracks ≡ some held
      → (m : ℕ) × (last_seen gone ≡ some m) × SeenSince m held

-- An invariant of the values survives: `P` is any property of tracks.
pub record Keeps {N : Type 0} (before after : EngineState N) : Type 1 where
  pub values : (P : Track N → Type 0) → Values P before.tracks → Values P after.tracks

module _ {N : Type 0} (maximum : ℕ) (r : ℕ × String) (s s' : EngineState N) where
  kept_step :
      Evicts maximum (forget r.1 s) s'
      → (k : String) (t : Track N) → lookup k s'.tracks ≡ some t
      → lookup k s.tracks ≡ some t
  unfolding forget
  kept_step ih k t held = ground (arith, ih.kept k t held, lookup-erase r.1 k s.tracks)

  oldest_gone_step :
      Evicts maximum (forget r.1 s) s'
      → Found r s.tracks
      → Values (SeenSince r.0) s.tracks
      → (j k : String) (gone held : Track N) → lookup j s.tracks ≡ some gone
      → lookup j s'.tracks ≡ none
      → lookup k s'.tracks ≡ some held
      → (m : ℕ) × (last_seen gone ≡ some m) × SeenSince m held
  unfolding forget
  oldest_gone_step ih (t, there, time) since j k gone held was gone_now held_now =
      elim (Bool-cases (str_eq r.1 j)) [
        | inl here ↦ (
          r.0,
          (let same : some gone ≡ some t = sym was ∙ rw (← (eq_iff r.1 j).0 here) there in
              cc (same, time)),
          lookup-Values (SeenSince r.0) k held s.tracks since (kept_step ih k held held_now),
        )
        | inr later ↦
            ih.oldest_gone j k gone held (lookup-erase r.1 j s.tracks ∙ rw later was) gone_now
              held_now
      ]

  Evicts-step :
      Evicts maximum (forget r.1 s) s'
      → Found r s.tracks
      → Values (SeenSince r.0) s.tracks
      → Evicts maximum s s'
  Evicts-step ih found since = record {
    room = ih.room;
    distinct = ih.distinct;
    in_step = ih.in_step;
    kept = kept_step ih;
    oldest_gone = oldest_gone_step ih found since;
  }

length-forget_known :
    {N : Type 0} (r : ℕ × String) (t : Track N) (s : EngineState N)
    → lookup r.1 s.tracks ≡ some t
    → length (forget r.1 s).tracks + 1 ≤ length s.tracks
unfolding forget
length-forget_known r t s h = length-erase_known r.1 s.tracks (rw h refl)

Keeps-step : {N : Type 0} (id : String) (s s' : EngineState N) → Keeps (forget id s) s' → Keeps s s'
unfolding forget
Keeps-step id s s' ih = record { values = λ P h. ih.values P (erase-Values P id s.tracks h) }

module _ {N : Type 0} (maximum : ℕ) (one : 1 ≤ maximum) where
  evict_full :
      (fuel : ℕ) (s s' : EngineState N) (r : ℕ × String)
      → leb maximum (length s.tracks) ≡ true
      → oldest s.tracks ≡ some r
      → evict fuel maximum (forget r.1 s) ≡ some s'
      → evict (suc fuel) maximum s ≡ some s'
  unfolding evict
  evict_full fuel s s' r full found rest = rw (full, evict, found) rest

  evict_lem :
      (fuel : ℕ) (s : EngineState N)
      → Values IsSeen s.tracks
      → DistinctKeys s.tracks
      → IsInStep s
      → length s.tracks < fuel
      → (s' : EngineState N) × (evict fuel maximum s ≡ some s') × Evicts maximum s s' × Keeps s s'
  unfolding evict
  evict_lem zero s seen d step enough = elim enough [ ]
  evict_lem (suc fuel) s seen d step enough = elim (Bool-cases (leb maximum (length s.tracks))) [
    | inr room ↦ (
      s,
      rw (room, evict) refl,
      record {
        room = ground arith;
        distinct = d;
        in_step = step;
        kept = λ k t h. h;
        oldest_gone = λ j k gone held was gone_now held_now. absurd (cc);
      },
      record { values = λ P h. h },
    )
    | inl full ↦
        let (r, found, where_found, since) = oldest_lem s.tracks seen d (ground arith) in
        let (s', result, ih, keeps) =
          evict_lem fuel (forget r.1 s) (unfold forget in erase-Values IsSeen r.1 s.tracks seen)
            (unfold forget in erase-DistinctKeys r.1 s.tracks d) (forget-IsInStep r.1 s step)
            (omega (arith, length-forget_known r where_found.0 s where_found.1)) in
        (
          s',
          evict_full fuel s s' r full found result,
          Evicts-step maximum r s s' ih where_found since,
          Keeps-step r.1 s s' keeps,
        )
  ]

-- A state with room for the incoming track: it holds it already, or it has a free place.
abbrev pub HasRoom : {N : Type 0} → ℕ → String → EngineState N → Type 0
HasRoom maximum incoming s =
    (is_some (lookup incoming s.tracks) ≡ true) ⊎ (length s.tracks < maximum)

-- Where the engine may hold a track at all, eviction ends without an error and with room for the
-- incoming track. It only drops tracks, with their snapshots, none of them seen later than a track
-- that it keeps; and if the incoming track is held already it changes nothing.
pub evict_if_needed_lem :
    {N : Type 0} (maximum : ℕ) (incoming : String) (s : EngineState N)
    → 1 ≤ maximum
    → Values IsSeen s.tracks
    → DistinctKeys s.tracks
    → IsInStep s
    → (s' : EngineState N) × (evict_if_needed maximum incoming s ≡ some s')
      × Keeps s s'
      × ((s' ≡ s) × (is_some (lookup incoming s.tracks) ≡ true) ⊎ Evicts maximum s s')
unfolding evict_if_needed
evict_if_needed_lem maximum incoming s one seen d step =
    elim (Bool-cases (is_some (lookup incoming s.tracks))) [
      | inl known ↦ (s, rw known refl, record { values = λ P h. h }, inl (refl, known))
      | inr new ↦
          let (s', result, evicts, keeps) =
            evict_lem maximum one (suc (length s.tracks)) s seen d step (omega arith) in
          (s', rw new result, keeps, inr evicts)
    ]

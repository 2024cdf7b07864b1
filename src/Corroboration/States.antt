-- ===== src/Corroboration/States.antt =====
-- What the states of backend/app/services/corroboration.py mean: exactly when two observations
-- corroborate each other, when they conflict, and when the comparison returns.
use ads_b_flight_intelligenc.Base.{
  ℕ, ◌≡◌, ◌≢◌, ◌↔◌, refl, inl, inr, Bool, true, false, Option, none, some, String, str_eq, eq_iff,
  arith, Bool-cases,
}
use ads_b_flight_intelligenc.Base.Moment.{aware}
use ads_b_flight_intelligenc.Base.Result.{Result, ok, raised, ◌>>=◌, Result-cases}
use ads_b_flight_intelligenc.Float.{Float}
use ads_b_flight_intelligenc.Observation.{TrackObservation}
use ads_b_flight_intelligenc.Corroboration.{
  CorroborationState, CorroborationError, CorroborationPolicy, CorroborationResult, Finding,
  altitude_difference, distance_of, time_delta_of, is_stale_pair, judge_measures, compare_pair,
  compare_available, corroboration_result, compare_observations, corroborated, conflicting,
}
use ads_b_flight_intelligenc.Corroboration.Measures.{
  Both, IsAssociated, IsDistance, IsConflict, IsAgreement, is_stale_pair-IsAssociated,
  judge_measures-conflicting, judge_measures-corroborated,
}

module _ (f : Float) where
  open f use {Number, lt}

  abbrev Observed : Type 0
  Observed = TrackObservation Number

  abbrev pub state_of :
      Result CorroborationError (CorroborationResult f) → Option CorroborationState
  state_of (ok r) = some r.state
  state_of (raised e) = none

  abbrev found_state : Result CorroborationError (Finding f) → Option CorroborationState
  found_state (ok r) = some r.state
  found_state (raised e) = none

  abbrev judged : CorroborationPolicy f → Observed → Observed → Option Number → Finding f
  judged policy l x d =
      judge_measures f policy (time_delta_of f l x) d
        (altitude_difference f l.altitude_ft x.altitude_ft)

  -- Associated observations whose distance can be computed are judged by it.
  compare_pair-judged :
      (policy : CorroborationPolicy f) (l x : Observed) (now : ℕ) (d : Option Number)
      → IsAssociated f policy l x now
      → IsDistance f l x d
      → compare_pair f policy l x now ≡ ok (judged policy l x d)
  unfolding compare_pair
  compare_pair-judged policy l x now d associated measured =
      let (fresh, same) = (is_stale_pair-IsAssociated f policy l x now).1 associated in
      let same' : str_eq l.icao_hex x.icao_hex ≡ true =
        ground (arith, eq_iff l.icao_hex x.icao_hex) in
      rw (same', fresh, measured, compare_pair) refl

  -- A state other than STALE comes from associated observations that were judged.
  judged-compare_pair :
      (policy : CorroborationPolicy f) (l x : Observed) (now : ℕ) (s : CorroborationState)
      → s ≢ CorroborationState.stale
      → found_state (compare_pair f policy l x now) ≡ some s
      → IsAssociated f policy l x now
        × ((d : Option Number) × IsDistance f l x d × ((judged policy l x d).state ≡ s))
  unfolding compare_pair
  judged-compare_pair policy l x now s fresh =
      let same = eq_iff l.icao_hex x.icao_hex in
      elim (Bool-cases (str_eq l.icao_hex x.icao_hex)) [
        | inr h ↦ rw (h, compare_pair) λ r. absurd (cc)
        | inl h ↦ elim (Bool-cases (is_stale_pair f policy l x now)) [
          | inl k ↦ rw (h, k, compare_pair) λ r. ground arith
          | inr k ↦
              elim (Result-cases (distance_of f l.latitude l.longitude x.latitude x.longitude)) [
                | inr (e, m) ↦ rw (h, k, m, compare_pair) λ r. absurd (cc)
                | inl (d, m) ↦
                    rw (h, k, m, compare_pair)
                      λ r. (
                        (is_stale_pair-IsAssociated f policy l x now).0 (k, same.0 h),
                        (d, refl, ground arith),
                      )
              ]
        ]
      ]

  compare_pair-conflicting :
      (policy : CorroborationPolicy f) (l x : Observed) (now : ℕ)
      → (found_state (compare_pair f policy l x now) ≡ some conflicting)
        ↔ IsConflict f policy now l x
  compare_pair-conflicting policy l x now = (
    λ h.
        let (associated, (d, measured, s)) =
          judged-compare_pair policy l x now conflicting (ground arith) h in
        record {
          associated = associated;
          distance = d;
          measured = measured;
          apart = (judge_measures-conflicting f policy _ d _ _).0 s;
        },
    λ c. ground (
      arith,
      compare_pair-judged policy l x now c.distance c.associated c.measured,
      (judge_measures-conflicting f policy (time_delta_of f l x) c.distance l.altitude_ft
            x.altitude_ft).1
          c.apart,
    ),
  )

  compare_pair-corroborated :
      (policy : CorroborationPolicy f) (l x : Observed) (now : ℕ)
      → (found_state (compare_pair f policy l x now) ≡ some corroborated)
        ↔ IsAgreement f policy now l x
  compare_pair-corroborated policy l x now = (
    λ h.
        let (associated, (d, measured, s)) =
          judged-compare_pair policy l x now corroborated (ground arith) h in
        let (near, level, comparable) = (judge_measures-corroborated f policy _ d _ _).0 s in
        record {
          associated = associated;
          distance = d;
          measured = measured;
          position_close = near;
          altitude_close = level;
          comparable = comparable;
        },
    λ c. ground (
      arith,
      compare_pair-judged policy l x now c.distance c.associated c.measured,
      (judge_measures-corroborated f policy (time_delta_of f l x) c.distance l.altitude_ft
            x.altitude_ft).1
          (c.position_close, c.altitude_close, c.comparable),
    ),
  )

  state_of-result :
      (policy : CorroborationPolicy f) (l x : Option Observed) (now : ℕ) (icao : String)
      (found : Result CorroborationError (Finding f))
      → state_of (found >>= λ r. ok (corroboration_result f policy l x now icao r))
        ≡ found_state found
  unfolding corroboration_result
  state_of-result policy l x now icao (ok r) = refl
  state_of-result policy l x now icao (raised e) = refl

  -- The observations conflict exactly if the source is available and both exist, have one address,
  -- are recent and close in time, and their positions or their altitudes are further apart than the
  -- policy tolerates.
  pub compare_observations-conflicting_iff :
      (policy : CorroborationPolicy f) (l x : Option Observed) (now : ℕ) (available : Bool)
      → (state_of (compare_observations f policy l x (aware now) available) ≡ some conflicting)
        ↔ ((available ≡ true) × Both f (IsConflict f policy now) l x)
  unfolding compare_observations compare_available corroboration_result
  compare_observations-conflicting_iff policy none none now available = ground arith
  compare_observations-conflicting_iff policy (some l) x now false = ground arith
  compare_observations-conflicting_iff policy none (some x) now false = ground arith
  compare_observations-conflicting_iff policy none (some x) now true = ground arith
  compare_observations-conflicting_iff policy (some l) none now true = ground arith
  compare_observations-conflicting_iff policy (some l) (some x) now true =
      rw (state_of-result policy (some l) (some x) now l.icao_hex (compare_pair f policy l x now))
        ground (arith, compare_pair-conflicting policy l x now)

  -- The observations corroborate each other exactly if the source is available and both exist, have
  -- one address, are recent and close in time, have positions or altitudes to compare, and these
  -- are within the tolerances.
  pub compare_observations-corroborated_iff :
      (policy : CorroborationPolicy f) (l x : Option Observed) (now : ℕ) (available : Bool)
      → (state_of (compare_observations f policy l x (aware now) available) ≡ some corroborated)
        ↔ ((available ≡ true) × Both f (IsAgreement f policy now) l x)
  unfolding compare_observations compare_available corroboration_result
  compare_observations-corroborated_iff policy none none now available = ground arith
  compare_observations-corroborated_iff policy (some l) x now false = ground arith
  compare_observations-corroborated_iff policy none (some x) now false = ground arith
  compare_observations-corroborated_iff policy none (some x) now true = ground arith
  compare_observations-corroborated_iff policy (some l) none now true = ground arith
  compare_observations-corroborated_iff policy (some l) (some x) now true =
      rw (state_of-result policy (some l) (some x) now l.icao_hex (compare_pair f policy l x now))
        ground (arith, compare_pair-corroborated policy l x now)

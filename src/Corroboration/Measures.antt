-- ===== src/Corroboration/Measures.antt =====
-- The tests of age, distance and altitude in `compare_observations` of
-- backend/app/services/corroboration.py, as orders of numbers.
use ads_b_flight_intelligenc.Base.{
  ℕ, ◌≡◌, ◌↔◌, refl, ◌⊎◌, inl, inr, true, false, Option, none, some, arith, Bool-cases, is_some,
}
use ads_b_flight_intelligenc.Base.Int.{ℤ, sub_ℕ, neg, abs, ◌-ℤ◌, ltb_ℤ, ◌≤ℤ◌, ◌<ℤ◌, ltb_ℤ_iff}
use ads_b_flight_intelligenc.Base.Result.{ok}
use ads_b_flight_intelligenc.Float.{Float}
use ads_b_flight_intelligenc.Observation.{TrackObservation}
use ads_b_flight_intelligenc.Corroboration.{
  CorroborationPolicy, altitude_difference, distance_of, exceeds_distance, exceeds_altitude,
  is_incomparable, time_delta_of, is_stale_pair, judge_measures, corroborated, conflicting,
}

module _ (f : Float) where
  open f use {Number, lt}

  abbrev Observed : Type 0
  Observed = TrackObservation Number

  -- Neither observation is too old or too far ahead of the clock, and they are close in time.
  pub record IsAssociated (policy : CorroborationPolicy f) (l x : Observed) (now : ℕ) : Type 0 where
    pub same_address : l.icao_hex ≡ x.icao_hex
    pub local_recent : sub_ℕ now l.observed_at ≤ℤ policy.max_age
    pub external_recent : sub_ℕ now x.observed_at ≤ℤ policy.max_age
    pub local_not_ahead : neg policy.max_future_skew ≤ℤ sub_ℕ now l.observed_at
    pub external_not_ahead : neg policy.max_future_skew ≤ℤ sub_ℕ now x.observed_at
    pub close : abs (sub_ℕ l.observed_at x.observed_at) ≤ℤ policy.max_time_delta

  abbrev pub IsApart : CorroborationPolicy f → Option Number → Type 0
  IsApart policy none = ⊥
  IsApart policy (some d) = lt policy.max_position_distance_nm d ≡ true

  abbrev pub IsAltitudeApart : CorroborationPolicy f → Option ℤ → Option ℤ → Type 0
  IsAltitudeApart policy (some a) (some b) = policy.max_altitude_difference_ft <ℤ abs (a -ℤ b)
  IsAltitudeApart policy _ _ = ⊥

  -- `d` is the distance of the two observations, or none where one has no position.
  abbrev pub IsDistance : Observed → Observed → Option Number → Type 0
  IsDistance l x d = distance_of f l.latitude l.longitude x.latitude x.longitude ≡ ok d

  -- The positions or the altitudes are further apart than the policy tolerates.
  pub record IsConflict (policy : CorroborationPolicy f) (now : ℕ) (l x : Observed) : Type 0 where
    pub associated : IsAssociated policy l x now
    pub distance : Option Number
    pub measured : IsDistance l x distance
    pub apart : IsApart policy distance ⊎ IsAltitudeApart policy l.altitude_ft x.altitude_ft

  -- There is something to compare, and all that can be compared agrees.
  pub record IsAgreement (policy : CorroborationPolicy f) (now : ℕ) (l x : Observed) : Type 0 where
    pub associated : IsAssociated policy l x now
    pub distance : Option Number
    pub measured : IsDistance l x distance
    pub position_close : ¬ IsApart policy distance
    pub altitude_close : ¬ IsAltitudeApart policy l.altitude_ft x.altitude_ft
    pub comparable :
        (is_some distance ≡ true)
        ⊎ ((is_some l.altitude_ft ≡ true) × (is_some x.altitude_ft ≡ true))

  abbrev pub Both : (Observed → Observed → Type 0) → Option Observed → Option Observed → Type 0
  Both P (some l) (some x) = P l x
  Both P _ _ = ⊥

  ltb_ℤ-false : (a b : ℤ) → (ltb_ℤ a b ≡ false) ↔ (b ≤ℤ a)
  ltb_ℤ-false a b = ground arith

  -- The five tests and the addresses, as orders of numbers.
  pub is_stale_pair-IsAssociated :
      (policy : CorroborationPolicy f) (l x : Observed) (now : ℕ)
      → ((is_stale_pair f policy l x now ≡ false) × (l.icao_hex ≡ x.icao_hex))
        ↔ IsAssociated policy l x now
  unfolding is_stale_pair
  is_stale_pair-IsAssociated policy l x now = ground (
    arith,
    ltb_ℤ-false policy.max_age (sub_ℕ now l.observed_at),
    ltb_ℤ-false policy.max_age (sub_ℕ now x.observed_at),
    ltb_ℤ-false (sub_ℕ now l.observed_at) (neg policy.max_future_skew),
    ltb_ℤ-false (sub_ℕ now x.observed_at) (neg policy.max_future_skew),
    ltb_ℤ-false policy.max_time_delta (time_delta_of f l x),
  )

  exceeds_distance_iff :
      (policy : CorroborationPolicy f) (d : Option Number)
      → (exceeds_distance f d policy ≡ true) ↔ IsApart policy d
  exceeds_distance_iff policy none = ground arith
  exceeds_distance_iff policy (some d) = ground arith

  exceeds_altitude_iff :
      (policy : CorroborationPolicy f) (a b : Option ℤ)
      → (exceeds_altitude f (altitude_difference f a b) policy ≡ true) ↔ IsAltitudeApart policy a b
  exceeds_altitude_iff policy none b = ground arith
  exceeds_altitude_iff policy (some a) none = ground arith
  exceeds_altitude_iff policy (some a) (some b) =
      ltb_ℤ_iff policy.max_altitude_difference_ft (abs (a -ℤ b))

  is_incomparable_iff :
      (d : Option Number) (a b : Option ℤ)
      → (is_incomparable f d (altitude_difference f a b) ≡ false)
        ↔ ((is_some d ≡ true) ⊎ ((is_some a ≡ true) × (is_some b ≡ true)))
  is_incomparable_iff none none b = ground arith
  is_incomparable_iff none (some a) none = ground arith
  is_incomparable_iff none (some a) (some b) = ground arith
  is_incomparable_iff (some d) a b = (λ h. inl refl, λ h. refl)

  pub judge_measures-conflicting :
      (policy : CorroborationPolicy f) (delta : ℤ) (d : Option Number) (a b : Option ℤ)
      → ((judge_measures f policy delta d (altitude_difference f a b)).state ≡ conflicting)
        ↔ (IsApart policy d ⊎ IsAltitudeApart policy a b)
  unfolding judge_measures
  judge_measures-conflicting policy delta d a b =
      let apart = exceeds_distance_iff policy d in
      let high = exceeds_altitude_iff policy a b in
      elim (Bool-cases (exceeds_distance f d policy)) [
        | inl h ↦ rw (h, judge_measures) ground (arith, apart, high)
        | inr h ↦ elim (Bool-cases (exceeds_altitude f (altitude_difference f a b) policy)) [
          | inl k ↦ rw (h, k, judge_measures) ground (arith, apart, high)
          | inr k ↦ elim (Bool-cases (is_incomparable f d (altitude_difference f a b))) [
            | inl m ↦ rw (h, k, m, judge_measures) ground (arith, apart, high)
            | inr m ↦ rw (h, k, m, judge_measures) ground (arith, apart, high)
          ]
        ]
      ]

  pub judge_measures-corroborated :
      (policy : CorroborationPolicy f) (delta : ℤ) (d : Option Number) (a b : Option ℤ)
      → ((judge_measures f policy delta d (altitude_difference f a b)).state ≡ corroborated) ↔ (
          (¬ IsApart policy d)
          × (¬ IsAltitudeApart policy a b)
          × ((is_some d ≡ true) ⊎ ((is_some a ≡ true) × (is_some b ≡ true))))
  unfolding judge_measures
  judge_measures-corroborated policy delta d a b =
      let apart = exceeds_distance_iff policy d in
      let high = exceeds_altitude_iff policy a b in
      let comparable = is_incomparable_iff d a b in
      elim (Bool-cases (exceeds_distance f d policy)) [
        | inl h ↦ rw (h, judge_measures) ground (arith, apart, high)
        | inr h ↦ elim (Bool-cases (exceeds_altitude f (altitude_difference f a b) policy)) [
          | inl k ↦ rw (h, k, judge_measures) ground (arith, apart, high)
          | inr k ↦ elim (Bool-cases (is_incomparable f d (altitude_difference f a b))) [
            | inl m ↦ rw (h, k, m, judge_measures) ground (arith, apart, high, comparable)
            | inr m ↦ rw (h, k, m, judge_measures) ground (arith, apart, high, comparable)
          ]
        ]
      ]

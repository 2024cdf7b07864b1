-- ===== src/Corroboration/Errors.antt =====
-- When `compare_observations` of backend/app/services/corroboration.py returns.
use ads_b_flight_intelligenc.Base.{
  ℕ, ◌≡◌, ◌↔◌, refl, ◌⊎◌, inl, inr, Bool, true, false, Option, none, some, str_eq, eq_iff, arith,
  Bool-cases, is_some,
}
use ads_b_flight_intelligenc.Base.Moment.{Moment, aware, naive}
use ads_b_flight_intelligenc.Base.Result.{Result, ok, raised, ◌>>=◌, is_ok}
use ads_b_flight_intelligenc.Float.{Float}
use ads_b_flight_intelligenc.Observation.{TrackObservation}
use ads_b_flight_intelligenc.Corroboration.{
  CorroborationError, CorroborationPolicy, distance_of, is_stale_pair, compare_pair,
  compare_available, compare_observations,
}

module _ (f : Float) where
  open f use {Number}

  abbrev Observed : Type 0
  Observed = TrackObservation Number

  -- A position is given whole or not at all, as `TrackObservation` requires.
  abbrev pub IsPositioned : Option Observed → Type 0
  IsPositioned none = Unit
  IsPositioned (some o) = is_some o.latitude ≡ is_some o.longitude

  -- Two observations that an available source makes comparable are of one address.
  abbrev pub OneAddress : Bool → Option Observed → Option Observed → Type 0
  OneAddress true (some l) (some x) = l.icao_hex ≡ x.icao_hex
  OneAddress _ _ _ = Unit

  is_ok-distance_of :
      (a b c d : Option Number)
      → is_some a ≡ is_some b
      → is_some c ≡ is_some d
      → is_ok (distance_of f a b c d) ≡ true
  is_ok-distance_of none b c d h k = refl
  is_ok-distance_of (some a) b none d h k = refl
  is_ok-distance_of (some a) (some b) (some c) (some d) h k = refl
  is_ok-distance_of (some a) none (some c) d h k = absurd (cc)
  is_ok-distance_of (some a) (some b) (some c) none h k = absurd (cc)

  is_ok-bind :
      {A B : Type 0} (r : Result CorroborationError A) (g : A → Result CorroborationError B)
      → ((a : A) → is_ok (g a) ≡ true)
      → is_ok (r >>= g) ≡ is_ok r
  is_ok-bind (ok a) g h = h a
  is_ok-bind (raised e) g h = refl

  is_ok-compare_pair :
      (policy : CorroborationPolicy f) (l x : Observed) (now : ℕ)
      → IsPositioned (some l)
      → IsPositioned (some x)
      → (is_ok (compare_pair f policy l x now) ≡ true) ↔ (l.icao_hex ≡ x.icao_hex)
  unfolding compare_pair
  is_ok-compare_pair policy l x now hl hx =
      let same = eq_iff l.icao_hex x.icao_hex in
      let whole = is_ok-distance_of l.latitude l.longitude x.latitude x.longitude hl hx in
      elim (Bool-cases (str_eq l.icao_hex x.icao_hex)) [
        | inr h ↦ rw (h, compare_pair) ground (arith, same)
        | inl h ↦ elim (Bool-cases (is_stale_pair f policy l x now)) [
          | inl k ↦ rw (h, k, compare_pair) ground (arith, same)
          | inr k ↦
              rw (h, k, compare_pair) rw
                (is_ok-bind (distance_of f l.latitude l.longitude x.latitude x.longitude) _
                  (λ d. refl))
                ground (arith, same, whole)
        ]
      ]

  -- For observations whose positions are whole, the comparison returns exactly if its time has a
  -- zone, there is an observation, and, where the source is available, two observations have one
  -- address; else it raises.
  pub compare_observations-is_ok_iff :
      (policy : CorroborationPolicy f) (l x : Option Observed) (at : Moment) (available : Bool)
      → IsPositioned l
      → IsPositioned x
      → (is_ok (compare_observations f policy l x at available) ≡ true) ↔ (
          ((now : ℕ) × (at ≡ aware now))
          × ((is_some l ≡ true) ⊎ (is_some x ≡ true))
          × OneAddress available l x)
  unfolding compare_observations compare_available
  compare_observations-is_ok_iff policy l x (naive t) available hl hx = ground arith
  compare_observations-is_ok_iff policy none none (aware now) available hl hx = ground arith
  compare_observations-is_ok_iff policy none (some x) (aware now) true hl hx =
      (λ h. ((now, refl), inr refl, tt), λ h. refl)
  compare_observations-is_ok_iff policy none (some x) (aware now) false hl hx =
      (λ h. ((now, refl), inr refl, tt), λ h. refl)
  compare_observations-is_ok_iff policy (some l) none (aware now) true hl hx =
      (λ h. ((now, refl), inl refl, tt), λ h. refl)
  compare_observations-is_ok_iff policy (some l) none (aware now) false hl hx =
      (λ h. ((now, refl), inl refl, tt), λ h. refl)
  compare_observations-is_ok_iff policy (some l) (some x) (aware now) false hl hx =
      (λ h. ((now, refl), inl refl, tt), λ h. refl)
  compare_observations-is_ok_iff policy (some l) (some x) (aware now) true hl hx =
      rw (is_ok-bind (compare_pair f policy l x now) _ (λ r. refl)) (
        λ h. ((now, refl), inl refl, (is_ok-compare_pair policy l x now hl hx).0 h),
        λ h. let (at, some_one, same) = h in (is_ok-compare_pair policy l x now hl hx).1 same,
      )

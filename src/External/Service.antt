-- ===== src/External/Service.antt =====
-- backend/app/services/corroboration_service.py: a local observation is compared with what an external
-- source reports of the aircraft around it.
use mathlib.Core.Path.{subst}
use ads_b_flight_intelligenc.Base.{
  ◌≢◌, ◌++◌, ap, eq_iff, All, Bool-cases, arith, ℕ, ◌≡◌, ◌↔◌, refl, inl, inr, Bool, true, false,
  ◌||◌, Option, none, some, List, [], ◌∷◌, String, str_eq, if◌then◌else◌, Option-cases, sym,
}
use ads_b_flight_intelligenc.Base.Int.{pos, negsuc}
use ads_b_flight_intelligenc.Base.Moment.{Moment, aware, naive}
use ads_b_flight_intelligenc.Base.Result.{Result, ok, raised, ◌>>=◌, Result-cases}
use ads_b_flight_intelligenc.Float.{Float}
use ads_b_flight_intelligenc.Observation.{TrackObservation}
use ads_b_flight_intelligenc.Corroboration.{
  CorroborationState, CorroborationError, CorroborationPolicy, CorroborationResult,
  compare_observations, stale, corroborated, no_position,
}
use ads_b_flight_intelligenc.Corroboration.States.{state_of, compare_observations-corroborated_iff}
use ads_b_flight_intelligenc.Corroboration.Measures.{Both, IsAgreement}
use ads_b_flight_intelligenc.External.States.{Readers}
use ads_b_flight_intelligenc.External.Client.{
  ExternalFetchStatus, available, unavailable, ExternalFetchResult, GeographicBounds, BoundsError,
  check_bounds,
}

pub data ServiceError : Type 0 where
  bad_radius : ServiceError
  bad_bounds : BoundsError → ServiceError
  comparison : CorroborationError → ServiceError

abbrev pub is_available : ExternalFetchStatus → Bool
is_available available = true
is_available unavailable = false

-- The instant of a reading of the clock.
abbrev instant_of : Moment → ℕ
instant_of (aware t) = t
instant_of (naive t) = t

abbrev map_error : {E F : Type 0} {A : Type 0} → (E → F) → Result E A → Result F A
map_error g (ok a) = ok a
map_error g (raised e) = raised (g e)

module _ (f : Float) (r : Readers f.Number) where
  open f use {Number, of_int, literal, lt, le, add, sub}

  abbrev Observed : Type 0
  Observed = TrackObservation Number

  -- `CorroborationService`, with the source that it asks
  pub record Service : Type 0 where
    pub fetch_states : GeographicBounds f r → Option String → ExternalFetchResult f r
    pub policy : CorroborationPolicy f
    pub search_radius_degrees : Number

  -- `CorroborationService.__init__`
  unfoldable pub check_radius : Service → Result ServiceError Service
  check_radius s =
      if le s.search_radius_degrees (of_int (pos 0)) || lt (literal 25 1) s.search_radius_degrees
      then raised bad_radius
      else ok s

  -- `max(low, x)` and `min(high, x)`, with an `int` first
  abbrev at_least : Number → Number → Number
  at_least low x = if lt low x then x else low

  abbrev at_most : Number → Number → Number
  at_most high x = if lt x high then x else high

  -- `_bounds_around`
  unfoldable pub bounds_around :
      Service → Number → Number → Result BoundsError (GeographicBounds f r)
  unfolding check_bounds
  bounds_around s latitude longitude =
      let radius = s.search_radius_degrees in
      check_bounds f r (record {
        min_latitude = at_least (of_int (negsuc 89)) (sub latitude radius);
        max_latitude = at_most (of_int (pos 90)) (add latitude radius);
        min_longitude = at_least (of_int (negsuc 179)) (sub longitude radius);
        max_longitude = at_most (of_int (pos 180)) (add longitude radius);
      })

  -- The first observation of the aircraft.
  unfoldable pub match_of : String → List Observed → Option Observed
  match_of icao_hex [] = none
  match_of icao_hex (o ∷ os) = if str_eq o.icao_hex icao_hex then some o else match_of icao_hex os

  abbrev unbounded : Service → Observed → Moment → CorroborationResult f
  unbounded s local evaluated_at = record {
    state = stale;
    policy_version = s.policy.version;
    icao_hex = local.icao_hex;
    evaluated_at = instant_of evaluated_at;
    explanation = no_position;
    local_observation_id = some local.observation_id;
    external_observation_id = none;
    time_delta = none;
    position_distance_nm = none;
    altitude_difference_ft = none;
  }

  abbrev compare_fetched :
      Service
      → Observed
      → Moment
      → ExternalFetchResult f r
      → Result ServiceError (CorroborationResult f)
  compare_fetched s local evaluated_at fetched = map_error comparison (
      compare_observations f s.policy (some local) (match_of local.icao_hex fetched.observations)
        evaluated_at (is_available fetched.status))

  abbrev corroborate_at :
      Service
      → Observed
      → Moment
      → Option Number
      → Option Number
      → Result ServiceError (CorroborationResult f)
  corroborate_at s local evaluated_at (some latitude) (some longitude) = do
    bounds ← map_error bad_bounds (bounds_around s latitude longitude)
    compare_fetched s local evaluated_at (s.fetch_states bounds (some local.icao_hex))
  corroborate_at s local evaluated_at _ _ = ok (unbounded s local evaluated_at)

  -- `corroborate`, at the time given or the reading of the clock
  unfoldable pub corroborate :
      Service → Observed → Moment → Result ServiceError (CorroborationResult f)
  unfolding bounds_around match_of compare_observations
  corroborate s local evaluated_at =
      corroborate_at s local evaluated_at local.latitude local.longitude

  abbrev pub result_state : Result ServiceError (CorroborationResult f) → Option CorroborationState
  result_state (ok result) = some result.state
  result_state (raised e) = none

  -- What the source says of a local observation with a position.
  pub record IsConfirmed (s : Service) (local : Observed) (now : ℕ) : Type 0 where
    pub latitude : Number
    pub longitude : Number
    pub has_latitude : local.latitude ≡ some latitude
    pub has_longitude : local.longitude ≡ some longitude
    pub bounds : GeographicBounds f r
    pub bounded : bounds_around s latitude longitude ≡ ok bounds
    pub online : is_available (s.fetch_states bounds (some local.icao_hex)).status ≡ true
    pub agreed :
        Both f
          (IsAgreement f s.policy now)
          (some local)
          (match_of local.icao_hex (s.fetch_states bounds (some local.icao_hex)).observations)

  result_state-map_error :
      (result : Result CorroborationError (CorroborationResult f))
      → result_state (map_error comparison result) ≡ state_of f result
  result_state-map_error (ok a) = refl
  result_state-map_error (raised e) = refl

  compare_fetched-corroborated :
      (s : Service) (local : Observed) (now : ℕ) (fetched : ExternalFetchResult f r)
      → result_state (compare_fetched s local (aware now) fetched) ≡ some corroborated
        ↔ is_available fetched.status ≡ true
          × Both f
              (IsAgreement f s.policy now)
              (some local)
              (match_of local.icao_hex fetched.observations)
  compare_fetched-corroborated s local now fetched =
      let external = match_of local.icao_hex fetched.observations in
      rw
        (result_state-map_error (
          compare_observations f s.policy (some local) external (aware now)
            (is_available fetched.status)))
        (compare_observations-corroborated_iff f s.policy (some local) external now
          (is_available fetched.status))

  abbrev Agrees : Service → Observed → ℕ → ExternalFetchResult f r → Type 0
  Agrees s local now fetched =
      is_available fetched.status ≡ true
      × Both f (IsAgreement f s.policy now) (some local)
          (match_of local.icao_hex fetched.observations)

  -- What is confirmed is so within the bounds around the position.
  confirmed-bounds :
      (s : Service) (local : Observed) (now : ℕ) (latitude longitude : Number)
      → local.latitude ≡ some latitude
      → local.longitude ≡ some longitude
      → IsConfirmed s local now
      → (bounds : GeographicBounds f r) × bounds_around s latitude longitude ≡ ok bounds
        × Agrees s local now (s.fetch_states bounds (some local.icao_hex))
  confirmed-bounds s local now latitude longitude h k c =
      let known = c.has_latitude in
      let known' = c.has_longitude in
      let same : c.latitude ≡ latitude = cc in
      let same' : c.longitude ≡ longitude = cc in
      (c.bounds, rw (← same, ← same') c.bounded, (c.online, c.agreed))

  -- What the service does with the bounds around a position.
  abbrev compare_around :
      Service
      → Observed
      → Moment
      → Result BoundsError (GeographicBounds f r)
      → Result ServiceError (CorroborationResult f)
  compare_around s local evaluated_at (ok bounds) =
      compare_fetched s local evaluated_at (s.fetch_states bounds (some local.icao_hex))
  compare_around s local evaluated_at (raised e) = raised (bad_bounds e)

  located :
      (s : Service) (local : Observed) (now : ℕ) (a b : Option Number) (latitude longitude : Number)
      → a ≡ some latitude
      → b ≡ some longitude
      → corroborate_at s local (aware now) a b
        ≡ compare_around s local (aware now) (bounds_around s latitude longitude)
  located s local now a b latitude longitude h k =
      rw (h, k)
        (elim (Result-cases (bounds_around s latitude longitude)) [
          | inl (bounds, q) ↦ rw q refl
          | inr (e, q) ↦ rw q refl
        ])

  located_iff :
      (s : Service) (local : Observed) (now : ℕ) (latitude longitude : Number)
      → local.latitude ≡ some latitude
      → local.longitude ≡ some longitude
      → result_state (compare_around s local (aware now) (bounds_around s latitude longitude))
          ≡ some corroborated
        ↔ IsConfirmed s local now
  located_iff s local now latitude longitude h k =
      elim (Result-cases (bounds_around s latitude longitude)) [
        | inr (e, b) ↦ rw b (
          (λ q. absurd (cc)),
          λ c.
              let (bounds, valid, agrees) = confirmed-bounds s local now latitude longitude h k c in
              absurd (cc),
        )
        | inl (bounds, b) ↦
            let fetched = s.fetch_states bounds (some local.icao_hex) in
            let compared = compare_fetched-corroborated s local now fetched in
            rw b (
              (λ q.
                  let (online, agreed) = compared.0 q in
                  record {
                    latitude = latitude;
                    longitude = longitude;
                    has_latitude = h;
                    has_longitude = k;
                    bounds = bounds;
                    bounded = b;
                    online = online;
                    agreed = agreed;
                  }),
              λ c.
                  let (bounds', valid, agrees) =
                    confirmed-bounds s local now latitude longitude h k c in
                  let same : bounds' ≡ bounds = cc in
                  compared.1 (
                    subst (λ x. Agrees s local now (s.fetch_states x (some local.icao_hex))) same
                      agrees),
            )
      ]

  -- The first test of what the service confirms, in the words of its own functions.
  corroborate-IsConfirmed :
      (s : Service) (local : Observed) (now : ℕ)
      → result_state (corroborate s local (aware now)) ≡ some corroborated ↔ IsConfirmed s local now
  unfolding corroborate
  corroborate-IsConfirmed s local now = elim (Option-cases local.latitude) [
    | inl h ↦ rw (h, corroborate) ((λ k. absurd (cc)), λ c. let q = c.has_latitude in absurd (cc))
    | inr (latitude, h) ↦ elim (Option-cases local.longitude) [
      | inl k ↦
          rw (h, k, corroborate) ((λ q. absurd (cc)), λ c. let q = c.has_longitude in absurd (cc))
      | inr (longitude, k) ↦
          subst (λ x. result_state x ≡ some corroborated ↔ IsConfirmed s local now)
            (sym (located s local now local.latitude local.longitude latitude longitude h k))
            (located_iff s local now latitude longitude h k)
    ]
  ]

  -- The first observation of an aircraft in a list.
  abbrev pub IsFirst : String → List Observed → Observed → Type 0
  IsFirst icao_hex os o =
      (earlier : List Observed) × (later : List Observed) × (os ≡ earlier ++ o ∷ later)
      × All (λ x. x.icao_hex ≢ icao_hex) earlier
      × (o.icao_hex ≡ icao_hex)

  match_of-IsFirst :
      (icao_hex : String) (os : List Observed) (o : Observed)
      → match_of icao_hex os ≡ some o
      → IsFirst icao_hex os o
  unfolding match_of
  match_of-IsFirst icao_hex [] o h = absurd (cc)
  match_of-IsFirst icao_hex (x ∷ xs) o h = elim (Bool-cases (str_eq x.icao_hex icao_hex)) [
    | inl q ↦
        let here : x ≡ o = ground arith in
        let own = (eq_iff x.icao_hex icao_hex).0 q in
        ([], xs, ap (λ z. z ∷ xs) here, tt, subst (λ z. z.icao_hex ≡ icao_hex) here own)
    | inr q ↦
        let there : match_of icao_hex xs ≡ some o = ground arith in
        let (earlier, later, same, others, own) = match_of-IsFirst icao_hex xs o there in
        let other : x.icao_hex ≢ icao_hex =
          λ k. absurd (cc (q, (eq_iff x.icao_hex icao_hex).1 k)) in
        (x ∷ earlier, later, ap (λ z. x ∷ z) same, (other, others), own)
  ]

  IsFirst-match_of :
      (icao_hex : String) (earlier later : List Observed) (o : Observed)
      → All (λ x. x.icao_hex ≢ icao_hex) earlier
      → o.icao_hex ≡ icao_hex
      → match_of icao_hex (earlier ++ o ∷ later) ≡ some o
  unfolding match_of
  IsFirst-match_of icao_hex [] later o h own = rw ((eq_iff o.icao_hex icao_hex).1 own) refl
  IsFirst-match_of icao_hex (x ∷ earlier) later o h own =
      elim (Bool-cases (str_eq x.icao_hex icao_hex)) [
        | inl q ↦ absurd (h.0 ((eq_iff x.icao_hex icao_hex).0 q))
        | inr q ↦ rw (q, match_of) (IsFirst-match_of icao_hex earlier later o h.1 own)
      ]

  -- The box around a position, cut off at the poles and at the meridian of 180 degrees.
  abbrev pub box_around : Number → Number → Number → GeographicBounds f r
  box_around radius latitude longitude =
      let south = sub latitude radius in
      let north = add latitude radius in
      let west = sub longitude radius in
      let east = add longitude radius in
      record {
        min_latitude = if lt (of_int (negsuc 89)) south then south else of_int (negsuc 89);
        max_latitude = if lt north (of_int (pos 90)) then north else of_int (pos 90);
        min_longitude = if lt (of_int (negsuc 179)) west then west else of_int (negsuc 179);
        max_longitude = if lt east (of_int (pos 180)) then east else of_int (pos 180);
      }

  check_bounds-same : (b b' : GeographicBounds f r) → check_bounds f r b ≡ ok b' → b ≡ b'
  unfolding check_bounds
  check_bounds-same b b' h = ground arith

  -- What the source says of a local observation with a position: within the box around it, the first
  -- observation of the aircraft agrees.
  pub record IsReported (s : Service) (local : Observed) (now : ℕ) : Type 0 where
    pub latitude : Number
    pub longitude : Number
    pub has_latitude : local.latitude ≡ some latitude
    pub has_longitude : local.longitude ≡ some longitude
    pub box : GeographicBounds f r
    pub around : box ≡ box_around s.search_radius_degrees latitude longitude
    pub valid : check_bounds f r box ≡ ok box
    pub online : is_available (s.fetch_states box (some local.icao_hex)).status ≡ true
    pub match : Observed
    pub first : IsFirst local.icao_hex (s.fetch_states box (some local.icao_hex)).observations match
    pub agreed : IsAgreement f s.policy now local match

  Both-some :
      (P : Observed → Observed → Type 0) (l : Observed) (x : Option Observed)
      → Both f P (some l) x
      → (o : Observed) × (x ≡ some o) × P l o
  Both-some P l none h = absurd h
  Both-some P l (some o) h = (o, refl, h)

  IsConfirmed-IsReported :
      (s : Service) (local : Observed) (now : ℕ) → IsConfirmed s local now → IsReported s local now
  unfolding bounds_around
  IsConfirmed-IsReported s local now c =
      let same =
        check_bounds-same (box_around s.search_radius_degrees c.latitude c.longitude) c.bounds
          c.bounded in
      let reports = (s.fetch_states c.bounds (some local.icao_hex)).observations in
      let (o, found, agreed) =
        Both-some (IsAgreement f s.policy now) local (match_of local.icao_hex reports) c.agreed in
      record {
        latitude = c.latitude;
        longitude = c.longitude;
        has_latitude = c.has_latitude;
        has_longitude = c.has_longitude;
        box = c.bounds;
        around = sym same;
        valid = subst (λ b. check_bounds f r b ≡ ok c.bounds) same c.bounded;
        online = c.online;
        match = o;
        first = match_of-IsFirst local.icao_hex reports o found;
        agreed = agreed;
      }

  IsReported-IsConfirmed :
      (s : Service) (local : Observed) (now : ℕ) → IsReported s local now → IsConfirmed s local now
  unfolding bounds_around
  IsReported-IsConfirmed s local now c =
      let reports = (s.fetch_states c.box (some local.icao_hex)).observations in
      let (earlier, later, same, others, own) = c.first in
      let found : match_of local.icao_hex reports ≡ some c.match =
        subst (λ os. match_of local.icao_hex os ≡ some c.match) (sym same)
          (IsFirst-match_of local.icao_hex earlier later c.match others own) in
      record {
        latitude = c.latitude;
        longitude = c.longitude;
        has_latitude = c.has_latitude;
        has_longitude = c.has_longitude;
        bounds = c.box;
        bounded = subst (λ b. check_bounds f r b ≡ ok c.box) c.around c.valid;
        online = c.online;
        agreed = subst (Both f (IsAgreement f s.policy now) (some local)) (sym found) c.agreed;
      }

  -- A local observation is CORROBORATED exactly if it has a position, the search area around it is
  -- valid, the source is available there, and the first observation that the source reports of the
  -- aircraft agrees with it by the policy.
  pub corroborate-corroborated_iff :
      (s : Service) (local : Observed) (now : ℕ)
      → result_state (corroborate s local (aware now)) ≡ some corroborated ↔ IsReported s local now
  corroborate-corroborated_iff s local now =
      let own = corroborate-IsConfirmed s local now in
      (
        (λ h. IsConfirmed-IsReported s local now (own.0 h)),
        λ h. own.1 (IsReported-IsConfirmed s local now h),
      )

-- ===== src/External/Silence.antt =====
-- When the client of backend/app/services/external_observations.py sends no request: its pauses and
-- its circuit breaker.
use ads_b_flight_intelligenc.Base.{
  ℕ, ◌≡◌, refl, ◌⊎◌, inl, inr, true, ◌||◌, Option, none, some, List, [], ◌∷◌, String, arith, All,
  Bool-cases, ◌∙◌,
}
use ads_b_flight_intelligenc.Base.Int.{ℤ, pos, ◌<ℤ◌, ltb_ℤ_iff}
use ads_b_flight_intelligenc.Base.Dict.{lookup}
use ads_b_flight_intelligenc.Base.Result.{Result, ok, raised}
use ads_b_flight_intelligenc.Float.{Float}
use ads_b_flight_intelligenc.External.States.{Exception, Readers}
use ads_b_flight_intelligenc.External.Client.{
  unavailable, Source, ExternalFetchResult, OpenSkyConfig, CacheEntry, is_ahead, is_fresh, begin,
  served, blocked, fresh_result, hit, Reason, circuit_open, pause_active,
}
use ads_b_flight_intelligenc.External.Source.{Call, fetch, fetch_rest}

module _ (f : Float) (r : Readers f.Number) (config : OpenSkyConfig f r) where
  -- Nothing that the client knows has changed but the count of the answers from its cache.
  pub record IsSilent (s s' : Source f r) : Type 0 where
    pub same_requests : s'.counts.requests ≡ s.counts.requests
    pub same_pause : s'.next_request_at ≡ s.next_request_at
    pub same_circuit : s'.circuit_open_until ≡ s.circuit_open_until
    pub same_cache : s'.cache ≡ s.cache

  -- A result that no request brought.
  abbrev pub IsOffline : Result Exception (ExternalFetchResult f r) → Type 0
  IsOffline (ok result) = result.from_cache ≡ true ⊎ result.status ≡ unavailable
  IsOffline (raised e) = ⊥

  -- A deadline of the client that lies after `now`.
  abbrev pub IsBlocked : Source f r → ℕ → Type 0
  IsBlocked s now = is_ahead now s.circuit_open_until || is_ahead now s.next_request_at ≡ true

  -- A first step of a fetch that ends it, with a result that no request brought.
  abbrev IsQuiet : Source f r → Source f r × Option (ExternalFetchResult f r) → Type 0
  IsQuiet s (s', none) = ⊥
  IsQuiet s (s', some result) = IsOffline (ok result) × IsSilent s s'

  unchanged : (s : Source f r) → IsSilent s s
  unchanged s = record {
    same_requests = refl;
    same_pause = refl;
    same_circuit = refl;
    same_cache = refl;
  }

  hit-IsSilent : (s : Source f r) → IsSilent s (hit f r s)
  hit-IsSilent s = record {
    same_requests = refl;
    same_pause = refl;
    same_circuit = refl;
    same_cache = refl;
  }

  blocked-IsQuiet :
      (reason : Reason) (entry : Option (CacheEntry f r)) (now : ℕ) (s : Source f r)
      → IsQuiet s (served f r (blocked f r reason entry now s))
  blocked-IsQuiet reason none now s = (inr refl, unchanged s)
  blocked-IsQuiet reason (some entry) now s = (inl refl, hit-IsSilent s)

  fresh-IsQuiet :
      (entry : Option (CacheEntry f r)) (now : ℕ) (s : Source f r)
      → is_fresh f r entry now ≡ true
      → IsQuiet s (served f r (fresh_result f r entry now s))
  fresh-IsQuiet none now s h = absurd (cc)
  fresh-IsQuiet (some entry) now s h = (inl refl, hit-IsSilent s)

  begin-IsQuiet :
      (key : String) (now : ℕ) (s : Source f r)
      → IsBlocked s now
      → IsQuiet s (begin f r config key now s)
  unfolding begin
  begin-IsQuiet key now s h =
      let entry = lookup key s.cache in
      elim (Bool-cases (is_fresh f r entry now)) [
        | inl fresh ↦ rw (fresh, begin) (fresh-IsQuiet entry now s fresh)
        | inr stale ↦ elim (Bool-cases (is_ahead now s.circuit_open_until)) [
          | inl broken ↦ rw (stale, broken, begin) (blocked-IsQuiet circuit_open entry now s)
          | inr whole ↦
              let paused : is_ahead now s.next_request_at ≡ true = ground arith in
              rw (stale, whole, paused, begin) (blocked-IsQuiet pause_active entry now s)
        ]
      ]

  fetch_rest-quiet :
      (c : Call) (s : Source f r) (step : Source f r × Option (ExternalFetchResult f r))
      → IsQuiet s step
      → let done = fetch_rest f r config c step.1 step.0 in IsOffline done.1 × IsSilent s done.0
  fetch_rest-quiet c s (s', none) h = absurd h
  fetch_rest-quiet c s (s', some result) h = h

  fetch-IsSilent :
      (c : Call) (s : Source f r)
      → IsBlocked s c.now
      → IsOffline (fetch f r config c s).1 × IsSilent s (fetch f r config c s).0
  unfolding fetch
  fetch-IsSilent c s h =
      fetch_rest-quiet c s (begin f r config c.key c.now s) (begin-IsQuiet c.key c.now s h)

  -- The results of the calls, one after the other, and the source that they leave.
  abbrev pub fetch_all :
      List Call → Source f r → Source f r × List (Result Exception (ExternalFetchResult f r))
  fetch_all [] s = (s, [])
  fetch_all (c ∷ cs) s =
      let (s1, result) = fetch f r config c s in
      let (s2, results) = fetch_all cs s1 in (s2, result ∷ results)

  IsSilent-trans : (s1 s2 s3 : Source f r) → IsSilent s1 s2 → IsSilent s2 s3 → IsSilent s1 s3
  IsSilent-trans s1 s2 s3 h k = record {
    same_requests = k.same_requests ∙ h.same_requests;
    same_pause = k.same_pause ∙ h.same_pause;
    same_circuit = k.same_circuit ∙ h.same_circuit;
    same_cache = k.same_cache ∙ h.same_cache;
  }

  -- A deadline of the client.
  abbrev pub HasDeadline : Source f r → ℤ → Type 0
  HasDeadline s deadline = s.next_request_at ≡ some deadline ⊎ s.circuit_open_until ≡ some deadline

  IsBlocked-before :
      (s : Source f r) (now : ℕ) (deadline : ℤ)
      → HasDeadline s deadline
      → pos now <ℤ deadline
      → IsBlocked s now
  IsBlocked-before s now deadline (inl h) k = rw h (ground (arith, ltb_ℤ_iff (pos now) deadline))
  IsBlocked-before s now deadline (inr h) k = rw h (ground (arith, ltb_ℤ_iff (pos now) deadline))

  deadline-kept :
      (s s' : Source f r) (deadline : ℤ)
      → IsSilent s s'
      → HasDeadline s deadline
      → HasDeadline s' deadline
  deadline-kept s s' deadline silent (inl h) = inl (silent.same_pause ∙ h)
  deadline-kept s s' deadline silent (inr h) = inr (silent.same_circuit ∙ h)

  -- Before a deadline the client sends no request, whatever is asked of it: all calls are answered
  -- from the cache or as unavailable, and change nothing but a count.
  pub fetch_all-IsSilent :
      (deadline : ℤ) (cs : List Call) (s : Source f r)
      → HasDeadline s deadline
      → All (λ c. pos c.now <ℤ deadline) cs
      → All IsOffline (fetch_all cs s).1 × IsSilent s (fetch_all cs s).0
  fetch_all-IsSilent deadline [] s h k = (tt, unchanged s)
  fetch_all-IsSilent deadline (c ∷ cs) s h k =
      let s1 = (fetch f r config c s).0 in
      let (offline, silent) = fetch-IsSilent c s (IsBlocked-before s c.now deadline h k.0) in
      let (rest, later) =
        fetch_all-IsSilent deadline cs s1 (deadline-kept s s1 deadline silent h) k.1 in
      ((offline, rest), IsSilent-trans s s1 (fetch_all cs s1).0 silent later)

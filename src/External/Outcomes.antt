-- ===== src/External/Outcomes.antt =====
-- What the answer to a request of backend/app/services/external_observations.py counts, and when it
-- opens the circuit.
use mathlib.Core.Path.{subst}
use ads_b_flight_intelligenc.Base.{
  ℕ, suc, ◌+◌, ◌≤◌, ◌≡◌, ◌≢◌, refl, inl, inr, ◌||◌, ◌&&◌, Option, some, List, String, str_eq, arith,
  is_some, ◌==◌, Bool-cases,
}
use ads_b_flight_intelligenc.Base.Int.{ℤ, pos, ◌+ℤ◌}
use ads_b_flight_intelligenc.Base.Json.{Json}
use ads_b_flight_intelligenc.Base.Result.{Result, ok, raised, ◌>>=◌}
use ads_b_flight_intelligenc.Float.{Float}
use ads_b_flight_intelligenc.Observation.{TrackObservation}
use ads_b_flight_intelligenc.External.States.{Exception, Readers, parse_states}
use ads_b_flight_intelligenc.External.Client.{
  Source, OpenSkyConfig, Reason, SourceHealth, is_ahead, payload_invalid, request_failed,
  http_status,
}
use ads_b_flight_intelligenc.External.Source.{
  Step, Response, is_request_error, is_payload_error, finish, finish_response, finish_payload,
  authorize, keep_token, read_token, record_failure, record_success, record_rate_limit, returning,
}

-- `1` for a fetch that returned, `0` for one that raised.
abbrev pub returned {ℓ} : {A : Type ℓ} → Result Exception A → ℕ
returned (ok a) = 1
returned (raised e) = 0

abbrev pub lost {ℓ} : {A : Type ℓ} → Result Exception A → ℕ
lost (ok a) = 0
lost (raised e) = 1

-- The requests whose outcome is counted.
abbrev pub outcomes : SourceHealth → ℕ
outcomes h = h.successes + h.failures + h.rate_limit_events

module _ (f : Float) (r : Readers f.Number) (config : OpenSkyConfig f r) where
  -- The instant at which a circuit that opens at `now` closes again.
  abbrev pub reopening : ℕ → ℤ
  reopening now = pos now +ℤ f.to_micros config.circuit_open_seconds

  -- What a step from the answer on does to the counts and the circuit.
  pub record Finished (now : ℕ) (before : SourceHealth) (step : Step f r) : Type 0 where
    pub requests_kept : step.0.counts.requests ≡ before.requests
    pub outcome_counted : outcomes step.0.counts ≡ outcomes before + returned step.1
    pub streak_bounded :
        before.consecutive_failures ≤ before.failures
        → step.0.counts.consecutive_failures ≤ step.0.counts.failures
    pub circuit_opened :
        step.0.counts.failures ≢ before.failures
        → config.circuit_failure_threshold ≤ suc before.consecutive_failures
        → step.0.circuit_open_until ≡ some (reopening now)

  pub counts-Finished :
      (now : ℕ) (before before' : SourceHealth) (step : Step f r)
      → before ≡ before'
      → Finished now before step
      → Finished now before' step
  counts-Finished now before before' step h fin = subst (λ x. Finished now x step) h fin

  failure-Finished :
      (now : ℕ) (reason : Reason) (s : Source f r)
      → Finished now s.counts (returning f r (record_failure f r config now reason s))
  unfolding record_failure
  failure-Finished now reason s = record {
    requests_kept = refl;
    outcome_counted = omega arith;
    streak_bounded = λ h. omega arith;
    circuit_opened = λ h k. ground arith;
  }

  rate_limit-Finished :
      (now : ℕ) (seconds : Option String) (s : Source f r)
      → Finished now s.counts (returning f r (record_rate_limit f r now seconds s))
  unfolding record_rate_limit
  rate_limit-Finished now seconds s = record {
    requests_kept = refl;
    outcome_counted = omega arith;
    streak_bounded = λ h. h;
    circuit_opened = λ h k. absurd (h refl);
  }

  success-Finished :
      (key : String) (now : ℕ) (remaining : Option String)
      (observations : List (TrackObservation f.Number)) (s : Source f r)
      → Finished now s.counts
          (returning f r (record_success f r config key now remaining observations s))
  unfolding record_success
  success-Finished key now remaining observations s = record {
    requests_kept = refl;
    outcome_counted = omega arith;
    streak_bounded = λ h. omega arith;
    circuit_opened = λ h k. absurd (h refl);
  }

  raised-Finished : (now : ℕ) (e : Exception) (s : Source f r) → Finished now s.counts (s, raised e)
  raised-Finished now e s = record {
    requests_kept = refl;
    outcome_counted = omega arith;
    streak_bounded = λ h. h;
    circuit_opened = λ h k. absurd (h refl);
  }

  payload-Finished :
      (key : String) (now : ℕ) (remaining : Option String)
      (parsed : Result Exception (List (TrackObservation f.Number))) (s : Source f r)
      → Finished now s.counts (finish_payload f r config key now remaining parsed s)
  payload-Finished key now remaining (ok observations) s =
      success-Finished key now remaining observations s
  payload-Finished key now remaining (raised e) s = elim (Bool-cases (is_payload_error e.kind)) [
    | inl h ↦ rw h (failure-Finished now (payload_invalid e.name) s)
    | inr h ↦ rw h (raised-Finished now e s)
  ]

  response-Finished :
      (key : String) (now : ℕ) (response : Response) (s : Source f r)
      → Finished now s.counts (finish_response f r config key now response s)
  unfolding finish_response
  response-Finished key now response s = elim (Bool-cases (response.status_code == 429)) [
    | inl h ↦ rw (h, finish_response) (rate_limit-Finished now response.retry_after_seconds s)
    | inr h ↦ elim (Bool-cases (response.status_code == 200)) [
      | inr k ↦
          rw (h, k, finish_response) (failure-Finished now (http_status response.status_code) s)
      | inl k ↦
          rw (h, k, finish_response)
            (payload-Finished key now response.remaining (response.json >>= parse_states f r now) s)
    ]
  ]

  pub finish-Finished :
      (key : String) (now : ℕ) (reply : Result Exception Response) (s : Source f r)
      → Finished now s.counts (finish f r config key now reply s)
  unfolding finish
  finish-Finished key now (ok response) s = response-Finished key now response s
  finish-Finished key now (raised e) s = elim (Bool-cases (is_request_error e.kind)) [
    | inl h ↦ rw (h, finish) (failure-Finished now (request_failed e.name) s)
    | inr h ↦ rw (h, finish) (raised-Finished now e s)
  ]

  keep_token-counts :
      (now : ℕ) (token : Result Exception (String × ℕ)) (s : Source f r)
      → (keep_token f r now token s).0.counts ≡ s.counts
  keep_token-counts now (ok (token, seconds)) s = refl
  keep_token-counts now (raised e) s = refl

  -- An authorization counts nothing.
  pub authorize-counts :
      (now : ℕ) (reply : Result Exception Json) (s : Source f r)
      → (authorize f r config now reply s).0.counts ≡ s.counts
  unfolding authorize
  authorize-counts now reply s =
      elim (Bool-cases (str_eq config.client_id "" || str_eq config.client_secret "")) [
        | inl h ↦ rw (h, authorize) refl
        | inr h ↦ elim (Bool-cases (is_some s.access_token && is_ahead now s.token_expires_at)) [
          | inl k ↦ rw (h, k, authorize) refl
          | inr k ↦ rw (h, k, authorize) (keep_token-counts now (reply >>= read_token f r) s)
        ]
      ]

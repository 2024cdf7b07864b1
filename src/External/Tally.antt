-- ===== src/External/Tally.antt =====
-- What a fetch of backend/app/services/external_observations.py counts, and what follows a failure.
use ads_b_flight_intelligenc.Base.{
  ℕ, suc, ◌+◌, ◌≤◌, ◌≡◌, ◌≢◌, refl, ◌∙◌, inl, inr, Option, none, some, List, [], ◌∷◌, String, arith,
  All, Bool-cases,
}
use ads_b_flight_intelligenc.Base.Int.{pos, ◌<ℤ◌}
use ads_b_flight_intelligenc.Base.Dict.{lookup}
use ads_b_flight_intelligenc.Base.Result.{Result, ok, raised, ◌>>=◌}
use ads_b_flight_intelligenc.Float.{Float}
use ads_b_flight_intelligenc.External.States.{Exception, Readers}
use ads_b_flight_intelligenc.External.Client.{
  Source, ExternalFetchResult, OpenSkyConfig, CacheEntry, Reason, is_fresh, begin, served,
  fresh_result, begin_blocked, hit, blocked_reason, new_source,
}
use ads_b_flight_intelligenc.External.Source.{Call, Step, fetch, finish, authorize, fetch_rest}
use ads_b_flight_intelligenc.External.Silence.{fetch_all, fetch_all-IsSilent, IsOffline, IsSilent}
use ads_b_flight_intelligenc.External.Outcomes.{
  lost, returned, outcomes, reopening, counts-Finished, finish-Finished, authorize-counts,
}

abbrev pub all_lost {ℓ} : {A : Type ℓ} → List (Result Exception A) → ℕ
all_lost [] = 0
all_lost (result ∷ results) = lost result + all_lost results

module _ (f : Float) (r : Readers f.Number) (config : OpenSkyConfig f r) where
  -- What the first step of a fetch does to the counts.
  record Begun (s s' : Source f r) (sent : ℕ) : Type 0 where
    request_counted : s'.counts.requests ≡ s.counts.requests + sent
    outcomes_kept : outcomes s'.counts ≡ outcomes s.counts
    failures_kept : s'.counts.failures ≡ s.counts.failures
    streak_kept : s'.counts.consecutive_failures ≡ s.counts.consecutive_failures

  abbrev HasBegun : Source f r → Source f r × Option (ExternalFetchResult f r) → Type 0
  HasBegun s (s', none) = Begun s s' 1
  HasBegun s (s', some result) = Begun s s' 0

  kept-Begun : (s s' : Source f r) → s'.counts ≡ s.counts → Begun s s' 0
  kept-Begun s s' h = rw h (record {
    request_counted = omega arith;
    outcomes_kept = refl;
    failures_kept = refl;
    streak_kept = refl;
  })

  hit-Begun : (s : Source f r) → Begun s (hit f r s) 0
  hit-Begun s = record {
    request_counted = omega arith;
    outcomes_kept = refl;
    failures_kept = refl;
    streak_kept = refl;
  }

  fresh-Begun :
      (entry : Option (CacheEntry f r)) (now : ℕ) (s : Source f r)
      → HasBegun s (served f r (fresh_result f r entry now s))
  fresh-Begun none now s = kept-Begun s s refl
  fresh-Begun (some entry) now s = hit-Begun s

  begin_blocked-Begun :
      (reason : Option Reason) (entry : Option (CacheEntry f r)) (now : ℕ) (s : Source f r)
      → HasBegun s (begin_blocked f r config reason entry now s)
  begin_blocked-Begun none entry now s = record {
    request_counted = omega arith;
    outcomes_kept = refl;
    failures_kept = refl;
    streak_kept = refl;
  }
  begin_blocked-Begun (some reason) none now s = kept-Begun s s refl
  begin_blocked-Begun (some reason) (some entry) now s = hit-Begun s

  begin-HasBegun :
      (key : String) (now : ℕ) (s : Source f r) → HasBegun s (begin f r config key now s)
  unfolding begin
  begin-HasBegun key now s =
      let entry = lookup key s.cache in
      elim (Bool-cases (is_fresh f r entry now)) [
        | inl h ↦ rw (h, begin) (fresh-Begun entry now s)
        | inr h ↦ rw (h, begin) (begin_blocked-Begun (blocked_reason f r s now) entry now s)
      ]

  -- What a whole fetch does.
  record Counted (now : ℕ) (s : Source f r) (step : Step f r) : Type 0 where
    tallied :
        step.0.counts.requests + outcomes s.counts
        ≡ s.counts.requests + outcomes step.0.counts + lost step.1
    streak_bounded :
        s.counts.consecutive_failures ≤ s.counts.failures
        → step.0.counts.consecutive_failures ≤ step.0.counts.failures
    circuit_opened :
        step.0.counts.failures ≢ s.counts.failures
        → config.circuit_failure_threshold ≤ suc s.counts.consecutive_failures
        → step.0.circuit_open_until ≡ some (reopening f r config now)

  returned-lost : {A : Type 0} (result : Result Exception A) → returned result + lost result ≡ 1
  returned-lost (ok a) = refl
  returned-lost (raised e) = refl

  rest-Counted :
      (c : Call) (s s' : Source f r) (result : Option (ExternalFetchResult f r))
      → HasBegun s (s', result)
      → Counted c.now s (fetch_rest f r config c result s')
  rest-Counted c s s' (some result) b = record {
    tallied = let q = b.request_counted in let o = b.outcomes_kept in omega arith;
    streak_bounded = λ h. let q = b.failures_kept in let o = b.streak_kept in omega arith;
    circuit_opened = λ h k. absurd (h b.failures_kept);
  }
  rest-Counted c s s' none b =
      let (s2, header) = authorize f r config c.authorized_at c.token_reply s' in
      let same : s2.counts ≡ s'.counts =
        authorize-counts f r config c.authorized_at c.token_reply s' in
      let step = finish f r config c.key c.now (header >>= λ token. c.reply) s2 in
      let fin =
        counts-Finished f r config c.now s2.counts s'.counts step same
          (finish-Finished f r config c.key c.now (header >>= λ token. c.reply) s2) in
      let sent = b.request_counted in
      let outcomes_kept = b.outcomes_kept in
      let failures_kept = b.failures_kept in
      let streak_kept = b.streak_kept in
      record {
        tallied =
            let requests_kept = fin.requests_kept in
            let counted = fin.outcome_counted in omega (arith, returned-lost step.1);
        streak_bounded = λ h. fin.streak_bounded (omega arith);
        circuit_opened = λ h k. fin.circuit_opened (λ q. h (q ∙ failures_kept)) (omega arith);
      }

  fetch-Counted : (c : Call) (s : Source f r) → Counted c.now s (fetch f r config c s)
  unfolding fetch
  fetch-Counted c s =
      let begun = begin f r config c.key c.now s in
      rest-Counted c s begun.0 begun.1 (begin-HasBegun c.key c.now s)

  fetch_all-Counted :
      (cs : List Call) (s : Source f r)
      → let (s', results) = fetch_all f r config cs s in
        s'.counts.requests + outcomes s.counts
          ≡ s.counts.requests + outcomes s'.counts + all_lost results
        × (s.counts.consecutive_failures ≤ s.counts.failures
            → s'.counts.consecutive_failures ≤ s'.counts.failures)
  fetch_all-Counted [] s = (omega arith, λ h. h)
  fetch_all-Counted (c ∷ cs) s =
      let counted = fetch-Counted c s in
      let (tallied, bounded) = fetch_all-Counted cs (fetch f r config c s).0 in
      let first = counted.tallied in (omega arith, λ h. bounded (counted.streak_bounded h))

  -- From the construction of a client on, each request is counted once: as a success, as a failure or
  -- as a rate limit, unless its fetch ended in an exception that the client does not catch. The
  -- consecutive failures are no more than all failures.
  pub fetch_all-tally :
      (cs : List Call)
      → let (s, results) = fetch_all f r config cs (new_source f r) in
        s.counts.requests ≡ outcomes s.counts + all_lost results
        × s.counts.consecutive_failures ≤ s.counts.failures
  unfolding new_source
  fetch_all-tally cs =
      let (tallied, bounded) = fetch_all-Counted cs (new_source f r) in
      (omega (arith, tallied), bounded (omega arith))

  -- A failure that is the threshold's in a row opens the circuit: until it closes again, the client
  -- sends no request, whatever is asked of it, and answers each call from its cache or as unavailable.
  pub fetch-opens_circuit :
      (c : Call) (cs : List Call) (s : Source f r)
      → (fetch f r config c s).0.counts.failures ≢ s.counts.failures
      → config.circuit_failure_threshold ≤ suc s.counts.consecutive_failures
      → All (λ d. pos d.now <ℤ reopening f r config c.now) cs
      → let s' = (fetch f r config c s).0 in
        let (s'', results) = fetch_all f r config cs s' in
        All (IsOffline f r config) results × IsSilent f r config s' s''
  fetch-opens_circuit c cs s failed enough soon =
      let counted = fetch-Counted c s in
      fetch_all-IsSilent f r config (reopening f r config c.now) cs (fetch f r config c s).0
        (inr (counted.circuit_opened failed enough)) soon

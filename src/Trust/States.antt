-- ===== src/Trust/States.antt =====
-- What the states of backend/app/services/trust_assessment.py mean, and when an assessment returns.
use ads_b_flight_intelligenc.Base.{
  ◌≡◌, ◌≢◌, ◌↔◌, refl, inl, inr, ◌++◌, Option, none, some, List, [], ◌∷◌, String, arith, append-nil,
}
use ads_b_flight_intelligenc.Base.Result.{Result, ok, raised}
use ads_b_flight_intelligenc.Float.{Float}
use ads_b_flight_intelligenc.Corroboration.{CorroborationState}
use ads_b_flight_intelligenc.Trust.{
  TrustState, TrustReason, TrustError, TrustAssessmentInputs, TrustAssessmentPolicy,
  TrustAssessmentResult, validate, decide, assess_trust, trust_result, contradiction_reasons,
  missing_reasons, confidence_reasons, corroboration_limits,
}
use ads_b_flight_intelligenc.Trust.Evidence.{
  IsContradicted, Decides, contradiction_reasons-nil, missing_reasons-nil, contradiction_cases,
  IsMissing-cases, passed, is_flagged_iff, station_limits-nil, corroboration_limits-nil, List-cases,
  Decision-unique,
}

module _ (f : Float) (upper : String → String) where
  open f use {Number, literal, le}

  abbrev Inputs : Type 0
  Inputs = TrustAssessmentInputs Number

  -- With both kinematic checks passed and nothing missing, the limits decide.
  limits_lem :
      (i : Inputs)
      → contradiction_reasons i ≡ []
      → missing_reasons i ≡ []
      → (¬ IsContradicted i.pair_status i.window_status i.corroboration_state)
      → (s : TrustState) × (rs : List TrustReason) × (decide f upper i ≡ ok (s, rs)) × Decides i s
  unfolding decide confidence_reasons
  limits_lem i none_contradict none_missing agreed =
      let (pair, window, some_corroboration, some_station) =
        (missing_reasons-nil i).0 none_missing in
      let pair_pass = passed i.pair_status ((is_flagged_iff _).1 (ground arith)) pair in
      let window_pass = passed i.window_status ((is_flagged_iff _).1 (ground arith)) window in
      let no_conflict : i.corroboration_state ≢ some CorroborationState.conflicting =
        ground arith in
      let (rs, e, healthy) = station_limits-nil i.station_state some_station in
      let corroborated =
        corroboration_limits-nil i.corroboration_state some_corroboration no_conflict in
      let split = append-nil (corroboration_limits i.corroboration_state) rs in
      elim (List-cases (corroboration_limits i.corroboration_state)) [
        | inr (r, rest, k) ↦ (
          TrustState.low_confidence,
          r ∷ (rest ++ rs),
          rw (none_contradict, none_missing, e, k, decide, confidence_reasons) refl,
          (
            pair_pass,
            window_pass,
            some_corroboration,
            no_conflict,
            some_station,
            inl (ground arith),
          ),
        )
        | inl k ↦ elim (List-cases rs) [
          | inr (r, rest, m) ↦ (
            TrustState.low_confidence,
            r ∷ rest,
            rw (none_contradict, none_missing, e, k, m, decide, confidence_reasons) refl,
            (
              pair_pass,
              window_pass,
              some_corroboration,
              no_conflict,
              some_station,
              inr (ground arith),
            ),
          )
          | inl m ↦ (
            TrustState.trusted,
            TrustReason.checks_pass ∷ TrustReason.source_corroborates ∷ TrustReason.station_healthy
                ∷ [],
            rw (none_contradict, none_missing, e, k, m, decide, confidence_reasons) refl,
            (pair_pass, window_pass, corroborated.0 k, healthy.0 m),
          )
        ]
      ]

  -- The tests find a state that the evidence calls for.
  pub decide_lem :
      (i : Inputs)
      → (s : TrustState) × (rs : List TrustReason) × (decide f upper i ≡ ok (s, rs)) × Decides i s
  unfolding decide confidence_reasons
  decide_lem i =
      let agreed = contradiction_reasons-nil i in
      elim (contradiction_cases i) [
        | inl h ↦ elim (List-cases (contradiction_reasons i)) [
          | inl nil ↦ absurd (agreed.0 nil h)
          | inr (r, rest, k) ↦ (TrustState.questionable, r ∷ rest, rw (k, decide) refl, h)
        ]
        | inr h ↦ elim (IsMissing-cases i) [
          | inl (missing, m) ↦ elim (List-cases (missing_reasons i)) [
            | inl nil ↦ absurd (m nil)
            | inr (r, rest, k) ↦ (
              TrustState.insufficient_data,
              r ∷ rest,
              rw (agreed.1 h, k, decide) refl,
              (h, missing),
            )
          ]
          | inr m ↦ limits_lem i (agreed.1 h) m h
        ]
      ]

  abbrev pub state_of : Result TrustError (TrustAssessmentResult Number) → Option TrustState
  state_of (ok r) = some r.state
  state_of (raised e) = none

  assess_trust-decided :
      (i : Inputs) (policy : TrustAssessmentPolicy) (s : TrustState) (rs : List TrustReason)
      → validate f upper i ≡ ok tt
      → decide f upper i ≡ ok (s, rs)
      → state_of (assess_trust f upper i policy) ≡ some s
  unfolding assess_trust trust_result
  assess_trust-decided i policy s rs h k = rw (h, k, assess_trust) refl

  -- The state of an assessment of valid inputs is the one that the four states of the evidence call
  -- for: QUESTIONABLE for a contradiction; else INSUFFICIENT_DATA if something is missing; TRUSTED
  -- if everything supports the aircraft; LOW_CONFIDENCE otherwise. The ML fields have no part in it.
  pub assess_trust-state_iff :
      (i : Inputs) (policy : TrustAssessmentPolicy) (s : TrustState)
      → validate f upper i ≡ ok tt
      → (state_of (assess_trust f upper i policy) ≡ some s) ↔ Decides i s
  assess_trust-state_iff i policy s valid =
      let (u, rs, e, h) = decide_lem i in
      let found = assess_trust-decided i policy u rs valid e in
      (
        λ k. let same : s ≡ u = ground arith in rw (same) h,
        λ k. let same : s ≡ u = Decision-unique _ _ _ _ s u k h in rw (same) found,
      )
